-- ===== src/Cluster/LoadBalances/Least.antt =====
-- The strategy leastactive behind the interface that the cluster invokers use.
use incubator_dubbo_go.Prelude.{
  ℕ, zero, suc, ◌+◌, ◌%◌, ◌<◌, ◌≤◌, ◌≡◌, refl, ap, true, ◌||◌, List, [], ◌∷◌, Option, none, some,
  Bool-cases, inl, inr, length, length-append, get_elem?, get_elem?_within, All, All-append, arith,
}
use incubator_dubbo_go.Prelude.Int.{ℤ, pos, negsuc, leb_ℤ, ltb_ℤ, eqb_ℤ, ◌-ℤ◌, wrap64}
use incubator_dubbo_go.Protocol.{Invoker, Outcome, done, panic}
use incubator_dubbo_go.Protocol.Status.{Registry, get_method_status}
use incubator_dubbo_go.LoadBalance.{LoadBalance, get_weight}
use incubator_dubbo_go.LoadBalance.Random.{index_of}
use incubator_dubbo_go.LoadBalance.LeastActive as LeastActive
use incubator_dubbo_go.LoadBalance.LeastActive.{
  Scan, scan_start, scan_step, scan, pick_least, any_least, or_any, choose,
}
use incubator_dubbo_go.Cluster.Select.Member.{Selects}
use incubator_dubbo_go.Cluster.Select.{is_invoked}
use incubator_dubbo_go.Cluster.LoadBalances.{
  Chosen, member_head, index_of-some, get_elem?-is_invoked, either_Chosen,
}

-- The least active strategy at a time and with two draws, on the statuses.
unfoldable pub least_active : ℤ → ℕ → ℕ → LoadBalance Registry
least_active now draw draw' = record {
  select = λ invokers inv g.
      let (o, g') = LeastActive.select now draw draw' invokers inv g in
      elim o [ panic ↦ panic | done v ↦ done (v, g') ];
}

-- The indexes that a scan holds: some, below `n`, and at most `m` of them.
abbrev Within : ℕ → ℕ → List ℕ → Type 0
Within n m ks = All (λ k. k < n) ks × (1 ≤ length ks) × (length ks ≤ m)

index_of-Chosen : (is : List Invoker) (k : ℕ) → k < length is → Chosen is (index_of is k)
index_of-Chosen is k h =
    let (v, e) = get_elem?_within is k h in
    (v, index_of-some is k v e, get_elem?-is_invoked is k v e)

get_elem?-lt :
    (n : ℕ) (ks : List ℕ) (i : ℕ)
    → All (λ k. k < n) ks
    → i < length ks
    → (k : ℕ) × (get_elem? ks i ≡ some k) × (k < n)
get_elem?-lt n [] i a h = absurd (omega arith)
get_elem?-lt n (k ∷ ks) zero a h = (k, refl, a.0)
get_elem?-lt n (k ∷ ks) (suc i) a h = get_elem?-lt n ks i a.1 (omega arith)

-- The first round starts the indexes anew, and each later one starts them anew, adds its own, or
-- leaves them.
scan_step-first :
    (i : ℕ) (a w : ℤ) (n : ℕ) → i < n → Within n (i + 1) (scan_step i a w scan_start).indexes
unfolding scan_step
scan_step-first i a w n h = ((h, tt), omega arith, omega arith)

scan_step-Within :
    (i : ℕ) (a w : ℤ) (n : ℕ) (s : Scan)
    → i < n
    → Within n i s.indexes
    → Within n (i + 1) (scan_step i a w s).indexes
unfolding scan_step
scan_step-Within i a w n s h r =
    elim (Bool-cases (eqb_ℤ s.least_active (negsuc 0) || ltb_ℤ a s.least_active)) [
      | inl e ↦ rw (e, scan_step) ((h, tt), omega arith, omega arith)
      | inr e ↦ elim (Bool-cases (eqb_ℤ a s.least_active)) [
        | inl q ↦
            rw (e, q, scan_step)
              (
                All-append (λ k. k < n) s.indexes (i ∷ []) r.0 (h, tt),
                omega (arith, r.1, length-append s.indexes (i ∷ [])),
                omega (arith, r.2, length-append s.indexes (i ∷ [])),
              )
        | inr q ↦ rw (e, q, scan_step) (r.0, r.1, omega (arith, r.2))
      ]
    ]

module _ (active_of weigh : Invoker → ℤ) where
  scan-Within :
      (i n : ℕ) (is : List Invoker) (s : Scan)
      → i + length is ≤ n
      → Within n i s.indexes
      → Within n n (scan active_of weigh i is s).indexes
  unfolding scan
  scan-Within i n [] s h r = (r.0, r.1, omega (arith, r.2))
  scan-Within i n (v ∷ is) s h r =
      scan-Within (i + 1) n is (scan_step i (active_of v) (weigh v) s) (omega arith)
        (scan_step-Within i (active_of v) (weigh v) n s (omega arith) r)

  -- A choice, where there is one.
  abbrev ChosenIfAny : List Invoker → Option (Outcome Invoker) → Type 0
  ChosenIfAny is none = Unit
  ChosenIfAny is (some o) = Chosen is o

  pick_least-Chosen :
      (is : List Invoker) (offset : ℤ) (i : ℕ) (ks : List ℕ)
      → All (λ k. k < length is) ks
      → i + length ks ≤ length is
      → ChosenIfAny is (pick_least active_of weigh is offset i ks)
  unfolding pick_least
  pick_least-Chosen is offset i [] a h = tt
  pick_least-Chosen is offset i (k ∷ ks) a h =
      let (v, e) = get_elem?_within is i (omega (arith, h)) in
      elim (Bool-cases (leb_ℤ (wrap64 (offset -ℤ weigh v)) (pos 0))) [
        | inl q ↦ rw (e, q, pick_least) (index_of-Chosen is k a.0)
        | inr q ↦
            rw (e, q, pick_least)
              (pick_least-Chosen is (wrap64 (offset -ℤ weigh v)) (i + 1) ks a.1 (omega (arith, h)))
      ]

  any_least-Chosen :
      (is : List Invoker) (draw : ℕ) (ks : List ℕ)
      → All (λ k. k < length is) ks
      → 1 ≤ length ks
      → Chosen is (any_least active_of weigh is draw ks)
  unfolding any_least
  any_least-Chosen is draw ks a h =
      let (k, e, l) = get_elem?-lt (length is) ks (draw % length ks) a (omega (arith, h)) in
      rw (e, any_least) (index_of-Chosen is k l)

  or_any-Chosen :
      (o : Option (Outcome Invoker)) (is : List Invoker) (draw : ℕ) (ks : List ℕ)
      → ChosenIfAny is o
      → All (λ k. k < length is) ks
      → 1 ≤ length ks
      → Chosen is (or_any active_of weigh o is draw ks)
  unfolding or_any
  or_any-Chosen none is draw ks c a h = any_least-Chosen is draw ks a h
  or_any-Chosen (some o) is draw ks c a h = c

  choose-Chosen :
      (i : Invoker) (is : List Invoker) (draw draw' : ℕ) (s : Scan)
      → Within (length (i ∷ is)) (length (i ∷ is)) s.indexes
      → Chosen (i ∷ is) (choose active_of weigh i (i ∷ is) draw draw' s)
  unfolding choose
  choose-Chosen i is draw draw' s r =
      either_Chosen _ (i ∷ is) _ _ (i, refl, member_head i i is refl)
        (either_Chosen _ (i ∷ is) _ _
          (or_any-Chosen _ (i ∷ is) draw' s.indexes
            (pick_least-Chosen (i ∷ is) _ 0 s.indexes r.0 (omega (arith, r.2))) r.0 r.1)
          (any_least-Chosen (i ∷ is) draw' s.indexes r.0 r.1))

  -- A choice among the invokers, which is not nil.
  abbrev ChosenSome : List Invoker → Outcome (Option Invoker) → Type 0
  ChosenSome is o = (v : Invoker) × (o ≡ done (some v)) × (is_invoked v is ≡ true)

  select_by-ChosenSome :
      (draw draw' : ℕ) (i : Invoker) (is : List Invoker)
      → ChosenSome (i ∷ is) (LeastActive.select_by active_of weigh draw draw' (i ∷ is))
  unfolding LeastActive.select_by scan
  select_by-ChosenSome draw draw' i [] = (i, refl, member_head i i [] refl)
  select_by-ChosenSome draw draw' i (j ∷ is) =
      let s = scan_step 0 (active_of i) (weigh i) scan_start in
      let (v, e, m) = choose-Chosen i (j ∷ is) draw draw' (scan active_of weigh 1 (j ∷ is) s) (
        scan-Within 1 (length (i ∷ j ∷ is)) (j ∷ is) s (omega arith)
          (scan_step-first 0 (active_of i) (weigh i) (length (i ∷ j ∷ is)) (omega arith))) in
      (
        v,
        ap
            (λ (o : Outcome Invoker). elim o as (λ _. Outcome (Option Invoker)) [
              | panic ↦ panic
              | done u ↦ done (some u)
            ])
            e,
        m,
      )

-- The least active strategy is a load balance that the cluster invokers may rely on: from a list
-- that is not empty it chooses an invoker of the list, at all counts, weights and draws.
pub least_active-Selects : (now : ℤ) (draw draw' : ℕ) → Selects (least_active now draw draw')
unfolding least_active LeastActive.select
least_active-Selects now draw draw' = record {
  chooses = λ i is inv g.
      let active_of = (λ (v : Invoker). (get_method_status g v.url inv.method_name).0.active) in
      let (v, e, m) = select_by-ChosenSome active_of (λ v. get_weight now v inv) draw draw' i is in
      (
        v,
        _,
        ap
            (λ (o : Outcome (Option Invoker)).
              elim o as (λ _. Outcome (Option Invoker × Registry)) [
                | panic ↦ panic
                | done u ↦ done (u, (LeastActive.select now draw draw' (i ∷ is) inv g).1)
              ])
            e,
        m,
      );
}
