-- ===== src/LoadBalance/LeastActive/Unique.antt =====
-- The least active strategy: the invokers that its first loop finds, and its choice if there is one.
use incubator_dubbo_go.Prelude.{
  ℕ, ◌+◌, ◌≤◌, ◌<◌, ◌≡◌, refl, sym, ap, ◌∙◌, true, false, List, [], ◌∷◌, ◌++◌, Option, some, inl,
  inr, ◌⊎◌, if◌then◌else◌, length, ltb, ◌==◌, arith,
}
use mathlib.Core.Path.{subst}
use mathlib.Core.List.{append_assoc, append-nil}
use incubator_dubbo_go.Prelude.Int.{ℤ, pos, negsuc, eqb_ℤ, ltb_ℤ}
use incubator_dubbo_go.Protocol.{Invoker, Outcome, done, panic}
use incubator_dubbo_go.LoadBalance.LeastActive.{
  Scan, scan_start, scan_step, scan, choose, select_by,
}

module _ (active : Invoker → ℕ) (weigh : Invoker → ℤ) where
  abbrev pub active_of : Invoker → ℤ
  active_of i = pos (active i)

  -- The least active count of the invokers and of the bound.
  unfoldable pub least : ℕ → List Invoker → ℕ
  least m [] = m
  least m (i ∷ is) = if ltb (active i) m then least (active i) is else least m is

  -- Where the invokers of an active count stand in the list, counted from `n`.
  unfoldable pub positions : ℕ → ℕ → List Invoker → List ℕ
  positions m n [] = []
  positions m n (i ∷ is) =
      let rest = positions m (n + 1) is in if active i == m then n ∷ rest else rest

  least-le : (m : ℕ) (is : List Invoker) → least m is ≤ m
  unfolding least
  least-le m [] = omega arith
  least-le m (i ∷ is) = ground (arith, least-le (active i) is, least-le m is)

  not_unset : (m : ℕ) (x : ℤ) → x ≡ pos m → eqb_ℤ x (negsuc 0) ≡ false
  not_unset m x h = rw h (ground arith)

  not_below : (m a : ℕ) (x : ℤ) → x ≡ pos m → m ≤ a → ltb_ℤ (pos a) x ≡ false
  not_below m a x h l = rw h (ground arith)

  equals : (m : ℕ) (x : ℤ) → x ≡ pos m → eqb_ℤ (pos m) x ≡ true
  equals m x h = rw h (ground arith)

  differs : (m a : ℕ) (x : ℤ) → x ≡ pos m → m < a → eqb_ℤ (pos a) x ≡ false
  differs m a x h l = rw h (ground arith)

  -- What one round makes of the least count and of the indexes.
  scan_step-less :
      (n m : ℕ) (a : ℕ) (w : ℤ) (s : Scan)
      → s.least_active ≡ pos m
      → a < m
      → ((scan_step n (pos a) w s).least_active ≡ pos a)
        × ((scan_step n (pos a) w s).indexes ≡ n ∷ [])
  unfolding scan_step
  scan_step-less n m a w s h l = (rw h (ground arith), rw h (ground arith))

  scan_step-equal :
      (n m : ℕ) (w : ℤ) (s : Scan)
      → s.least_active ≡ pos m
      → ((scan_step n (pos m) w s).least_active ≡ pos m)
        × ((scan_step n (pos m) w s).indexes ≡ s.indexes ++ n ∷ [])
  unfolding scan_step
  scan_step-equal n m w s h =
      rw
        (
          not_unset m s.least_active h,
          not_below m m s.least_active h (omega arith),
          equals m s.least_active h,
        )
        (h, refl)

  scan_step-same :
      (n m a : ℕ) (w : ℤ) (s : Scan)
      → s.least_active ≡ pos m
      → a ≡ m
      → ((scan_step n (pos a) w s).least_active ≡ pos m)
        × ((scan_step n (pos a) w s).indexes ≡ s.indexes ++ n ∷ [])
  scan_step-same n m a w s h q = rw q (scan_step-equal n m w s h)

  scan_step-more :
      (n m : ℕ) (a : ℕ) (w : ℤ) (s : Scan)
      → s.least_active ≡ pos m
      → m < a
      → scan_step n (pos a) w s ≡ s
  unfolding scan_step
  scan_step-more n m a w s h l =
      rw
        (
          not_unset m s.least_active h,
          not_below m a s.least_active h (omega arith),
          differs m a s.least_active h l,
        )
        refl

  order : (a m : ℕ) → (a < m) ⊎ ((a ≡ m) ⊎ (m < a))
  order a m = omega arith

  at_end : (m : ℕ) (xs : List ℕ) → xs ≡ (if m == m then xs else []) ++ []
  at_end m xs = ground (arith, append-nil xs)

  append_less :
      (a m l n : ℕ) (old rest new : List ℕ)
      → new ≡ n ∷ []
      → l ≤ a
      → a < m
      → (if l == a then new else []) ++ rest
        ≡ (if l == m then old else []) ++ (if a == l then n ∷ rest else rest)
  append_less a m l n old rest new e h h' = ground arith

  append_equal :
      (a m l n : ℕ) (old rest new : List ℕ)
      → new ≡ old ++ n ∷ []
      → a ≡ m
      → (if l == m then new else []) ++ rest
        ≡ (if l == m then old else []) ++ (if a == l then n ∷ rest else rest)
  append_equal a m l n old rest new e q = ground (arith, append_assoc old (n ∷ []) rest)

  append_more :
      (a m l n : ℕ) (old rest : List ℕ)
      → l ≤ m
      → m < a
      → (if l == m then old else []) ++ rest
        ≡ (if l == m then old else []) ++ (if a == l then n ∷ rest else rest)
  append_more a m l n old rest h h' = ground arith

  least_less :
      (m : ℕ) (i : Invoker) (is : List Invoker)
      → active i < m
      → least m (i ∷ is) ≡ least (active i) is
  unfolding least
  least_less m i is h = ground arith

  least_not_less :
      (m : ℕ) (i : Invoker) (is : List Invoker) → m ≤ active i → least m (i ∷ is) ≡ least m is
  unfolding least
  least_not_less m i is h = ground arith

  -- The first loop finds the places of the invokers with the least active count.
  scan-positions :
      (is : List Invoker) (n m : ℕ) (s : Scan)
      → s.least_active ≡ pos m
      → (scan active_of weigh n is s).indexes
        ≡ (if least m is == m then s.indexes else []) ++ positions (least m is) n is
  unfolding scan positions
  scan-positions [] n m s h = unfold least in at_end m s.indexes
  scan-positions (i ∷ is) n m s h = elim (order (active i) m) [
    | inl l ↦
        let (h', e) = scan_step-less n m (active i) (weigh i) s h l in
        subst
          (λ k.
            (scan active_of weigh n (i ∷ is) s).indexes
            ≡ (if k == m then s.indexes else []) ++ positions k n (i ∷ is))
          (sym (least_less m i is l))
          (scan-positions is (n + 1) (active i) (scan_step n (pos (active i)) (weigh i) s) h'
            ∙ append_less (active i) m (least (active i) is) n s.indexes
                (positions (least (active i) is) (n + 1) is) _ e (least-le (active i) is) l)
    | inr (inl q) ↦
        let (h', e) = scan_step-same n m (active i) (weigh i) s h q in
        subst
          (λ k.
            (scan active_of weigh n (i ∷ is) s).indexes
            ≡ (if k == m then s.indexes else []) ++ positions k n (i ∷ is))
          (sym (least_not_less m i is (omega (arith, q))))
          (scan-positions is (n + 1) m (scan_step n (pos (active i)) (weigh i) s) h'
            ∙ append_equal (active i) m (least m is) n s.indexes (positions (least m is) (n + 1) is)
                _ e q)
    | inr (inr l) ↦
        subst
          (λ k.
            (scan active_of weigh n (i ∷ is) s).indexes
            ≡ (if k == m then s.indexes else []) ++ positions k n (i ∷ is))
          (sym (least_not_less m i is (omega (arith, l))))
          (ap (λ t. (scan active_of weigh (n + 1) is t).indexes)
              (scan_step-more n m (active i) (weigh i) s h l)
            ∙ (scan-positions is (n + 1) m s h
                ∙ append_more (active i) m (least m is) n s.indexes
                    (positions (least m is) (n + 1) is) (least-le m is) l))
  ]

  choose_unique :
      (first : Invoker) (is : List Invoker) (draw draw' : ℕ) (s : Scan)
      → length s.indexes ≡ 1
      → choose active_of weigh first is draw draw' s ≡ done first
  unfolding choose
  choose_unique first is draw draw' s h = rw h refl

  prepend :
      (a l n : ℕ) (rest : List ℕ)
      → (if l == a then n ∷ [] else []) ++ rest ≡ (if a == l then n ∷ rest else rest)
  prepend a l n rest = ground arith

  scan_start-positions :
      (i : Invoker) (is : List Invoker)
      → (scan active_of weigh 0 (i ∷ is) scan_start).indexes
        ≡ positions (least (active i) is) 0 (i ∷ is)
  unfolding scan scan_step positions
  scan_start-positions i is =
      scan-positions is 1 (active i) (scan_step 0 (active_of i) (weigh i) scan_start) refl
      ∙ prepend (active i) (least (active i) is) 0 (positions (least (active i) is) 1 is)

  -- Where one invoker has fewer active requests than every other, Select returns the first of the
  -- list, wherever that one stands.
  pub select_by_unique :
      (draw draw' : ℕ) (i j : Invoker) (is : List Invoker)
      → length (positions (least (active i) (j ∷ is)) 0 (i ∷ j ∷ is)) ≡ 1
      → select_by active_of weigh draw draw' (i ∷ j ∷ is) ≡ done (some i)
  unfolding select_by
  select_by_unique draw draw' i j is h =
      ap
        (λ (o : Outcome Invoker). elim o as (λ _. Outcome (Option Invoker)) [
          | panic ↦ panic
          | done v ↦ done (some v)
        ])
        (choose_unique i (i ∷ j ∷ is) draw draw' (scan active_of weigh 0 (i ∷ j ∷ is) scan_start)
          (ap length (scan_start-positions i (j ∷ is)) ∙ h))
