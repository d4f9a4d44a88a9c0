-- ===== src/Filter/ExecuteLimit/Counts.antt =====
-- filter/execlmt/filter.go: the counters while requests come and go, in any order.
use incubator_dubbo_go.Prelude.{
  ℕ, suc, ◌+◌, ◌<◌, ◌≤◌, ◌≡◌, ◌^◌, refl, sym, ap, ◌∙◌, arith, Bool, not, List, [], ◌∷◌, some,
  Option-cases, Bool-cases, inl, inr, if◌then◌else◌, ◌==◌, ==_iff, Text, text_eq, insert,
  lookup-insert, nat_key, length,
}
use incubator_dubbo_go.Prelude.Int.{ℤ, pos, negsuc, ◌+ℤ◌, ltb_ℤ, wrap64, wrap64_fits}
use incubator_dubbo_go.Tps.Limiter.{ConcurrentMap, IsMap}
use incubator_dubbo_go.Filter.ExecuteLimit.{
  ExecuteState, count_of, increase, decrease, counter_of, enter, leave,
}

-- A request that has been counted: its counter, and whether it was admitted or is being rejected.
abbrev pub Active : Type 0
Active = ℕ × Bool

abbrev pub counted : ℕ → List Active → ℕ
counted r [] = 0
counted r ((q, b) ∷ rest) = (if q == r then 1 else 0) + counted r rest

-- The second list is the first without one request.
pub data Without (a : Active) : List Active → List Active → Type 0 where
  first : (xs : List Active) → Without a (a ∷ xs) xs
  later : {b : Active} {xs ys : List Active} → Without a xs ys → Without a (b ∷ xs) (b ∷ ys)

counted-Without :
    {a : Active} {xs ys : List Active} (q : ℕ)
    → Without a xs ys
    → counted q xs ≡ (if a.0 == q then 1 else 0) + counted q ys
counted-Without {a} q (first ys) = refl
counted-Without {a} q (later {b} w) = omega (arith, counted-Without q w)

length-Without : {a : Active} {xs ys : List Active} → Without a xs ys → length xs ≡ length ys + 1
length-Without (first ys) = omega arith
length-Without (later w) = omega (arith, length-Without w)

pub record Flow (S : Type 0) : Type 0 where
  pub state : ExecuteState S
  pub active : List Active

module _ {S : Type 0} (m : ConcurrentMap S) where
  -- A request enters for a target at a rate, or one that has been counted leaves. No more requests
  -- are in flight at once than an int64 counts.
  pub data Step : Flow S → Flow S → Type 0 where
    enters :
        (f : Flow S) (target : Text) (rate : ℤ)
        → length f.active + 1 < 2 ^ 63
        → Step f (record {
          state = (enter m target rate f.state).2;
          active = ((enter m target rate f.state).0, (enter m target rate f.state).1) ∷ f.active;
        })
    leaves :
        (f : Flow S) (a : Active) (rest : List Active)
        → Without a f.active rest
        → Step f (record { state = leave m a.0 f.state; active = rest })

  pub data Reach (f : Flow S) : Flow S → Type 0 where
    here : Reach f f
    next : {g h : Flow S} → Reach f g → Step g h → Reach f h

  -- Each counter counts the requests that hold it, and a reference that is not in use is new.
  pub record IsCounted (f : Flow S) : Type 0 where
    pub exact : (r : ℕ) → count_of r f.state.counts ≡ pos (counted r f.active)
    pub used : (k : Text) (r : ℕ) → m.load k f.state.map ≡ some r → r < f.state.next
    pub new : (r : ℕ) → f.state.next ≤ r → counted r f.active ≡ 0
    pub few : length f.active < 2 ^ 63

  counted-length : (r : ℕ) (xs : List Active) → counted r xs ≤ length xs
  counted-length r [] = omega arith
  counted-length r ((q, b) ∷ rest) = ground (arith, counted-length r rest)

  count_of-insert :
      (r q : ℕ) (n : ℤ) (counts : List (ℕ × ℤ))
      → count_of q (insert r n counts) ≡ (if r == q then n else count_of q counts)
  unfolding count_of
  count_of-insert r q n counts = elim (Bool-cases (r == q)) [
    | inl e ↦ rw (lookup-insert r q n counts, e, count_of) refl
    | inr e ↦ rw (lookup-insert r q n counts, e, count_of) refl
  ]

  -- With a counter for the target, the counts are right as before, and the reference is used.
  counter_of-exact :
      (f : Flow S) (target : Text) (q : ℕ)
      → IsCounted f
      → count_of q (counter_of m target f.state).1.counts ≡ pos (counted q f.active)
  unfolding counter_of
  counter_of-exact f target q i = elim (Bool-cases (f.state.next == q)) [
    | inl e ↦
        let same : f.state.next ≡ q = (==_iff f.state.next q).0 e in
        count_of-insert f.state.next q (pos 0) f.state.counts
        ∙ (rw e (ap pos (sym (i.new q (omega (arith, same))))))
    | inr e ↦ count_of-insert f.state.next q (pos 0) f.state.counts ∙ (rw e (i.exact q))
  ]

  plus_one : (n : ℕ) → n + 1 < 2 ^ 63 → wrap64 (pos n +ℤ pos 1) ≡ pos (n + 1)
  unfolding ◌+ℤ◌
  plus_one n h =
      let e : pos n +ℤ pos 1 ≡ pos (n + 1) = ground arith in
      rw e (wrap64_fits (pos (n + 1)) (omega (arith, h)))

  minus_one : (n : ℕ) → n + 1 < 2 ^ 63 → wrap64 (pos (n + 1) +ℤ negsuc 0) ≡ pos n
  unfolding ◌+ℤ◌
  minus_one n h =
      let e : pos (n + 1) +ℤ negsuc 0 ≡ pos n = ground arith in
      rw e (wrap64_fits (pos n) (omega (arith, h)))

  -- What increase returns.
  enter_count :
      (f : Flow S) (target : Text) (r : ℕ)
      → IsCounted f
      → length f.active + 1 < 2 ^ 63
      → (increase r (counter_of m target f.state).1.counts).0 ≡ pos (counted r f.active + 1)
  unfolding increase
  enter_count f target r i h =
      rw (counter_of-exact f target r i)
        (plus_one (counted r f.active) (omega (arith, h, counted-length r f.active)))

  enter-exact :
      (f : Flow S) (target : Text) (rate : ℤ) (q : ℕ)
      → IsCounted f
      → length f.active + 1 < 2 ^ 63
      → count_of q (enter m target rate f.state).2.counts
        ≡ pos (
            counted q
              (((enter m target rate f.state).0, (enter m target rate f.state).1) ∷ f.active))
  unfolding enter increase
  enter-exact f target rate q i h = elim (Bool-cases ((counter_of m target f.state).0 == q)) [
    | inl e ↦
        let same : (counter_of m target f.state).0 ≡ q = (==_iff _ q).0 e in
        count_of-insert (counter_of m target f.state).0 q _ (counter_of m target f.state).1.counts
        ∙ (rw e ((rw same (enter_count f target q i h ∙ ap pos (omega arith)))))
    | inr e ↦
        count_of-insert (counter_of m target f.state).0 q _ (counter_of m target f.state).1.counts
        ∙ (rw e (counter_of-exact f target q i ∙ ap pos (omega arith)))
  ]

  module _ (law : IsMap m) where
    -- The reference of a target is below the next one, and so are all that the map has then.
    counter_of-lt :
        (f : Flow S) (target : Text)
        → IsCounted f
        → (counter_of m target f.state).0 < suc f.state.next
    unfolding counter_of
    counter_of-lt f target i = elim (Option-cases (m.load target f.state.map)) [
      | inl e ↦ omega (arith, law.stored target f.state.next f.state.map e)
      | inr (r, e) ↦ omega (
        arith,
        ap (λ (p : ℕ × S). p.0) (law.loaded target f.state.next r f.state.map e),
        i.used target r e,
      )
    ]

    counter_of-used :
        (f : Flow S) (target k : Text) (r : ℕ)
        → IsCounted f
        → m.load k (counter_of m target f.state).1.map ≡ some r
        → r < suc f.state.next
    unfolding counter_of
    counter_of-used f target k r i h = elim (Option-cases (m.load target f.state.map)) [
      | inl e ↦
          let h' = sym (law.load-stored target k f.state.next f.state.map e) ∙ h in
          elim (Bool-cases (text_eq target k)) [
            | inl t ↦ let q : f.state.next ≡ r = cc (rw t at h') in omega (arith, q)
            | inr t ↦ omega (arith, i.used k r (rw t at h'))
          ]
      | inr (q, e) ↦
          let same = ap (λ (p : ℕ × S). p.1) (law.loaded target f.state.next q f.state.map e) in
          omega (arith, i.used k r (ap (m.load k) (sym same) ∙ h))
    ]

    enters-IsCounted :
        (f : Flow S) (target : Text) (rate : ℤ)
        → IsCounted f
        → length f.active + 1 < 2 ^ 63
        → IsCounted (record {
          state = (enter m target rate f.state).2;
          active = ((enter m target rate f.state).0, (enter m target rate f.state).1) ∷ f.active;
        })
    enters-IsCounted f target rate i h = record {
      exact = λ q. enter-exact f target rate q i h;
      used = λ k r e. unfold enter in (counter_of-used f target k r i e);
      new = λ q l. unfold enter in ground (arith, counter_of-lt f target i, i.new q, l);
      few = omega (arith, h);
    }

  leaves-IsCounted :
      (f : Flow S) (a : Active) (rest : List Active)
      → IsCounted f
      → Without a f.active rest
      → IsCounted (record { state = leave m a.0 f.state; active = rest })
  unfolding leave decrease
  leaves-IsCounted f a rest i w = record {
    exact = λ q. elim (Bool-cases (a.0 == q)) [
      | inl e ↦
          count_of-insert a.0 q _ f.state.counts
          ∙ (rw e (
              let same : a.0 ≡ q = (==_iff a.0 q).0 e in
              let one : counted a.0 f.active ≡ counted q rest + 1 =
                rw (same) (omega (arith, rw e at (counted-Without q w))) in
              rw (i.exact a.0, one)
                (minus_one (counted q rest)
                  (omega (arith, i.few, one, counted-length a.0 f.active)))))
      | inr e ↦
          count_of-insert a.0 q _ f.state.counts
          ∙ (rw e (i.exact q ∙ ap pos (ground (arith, counted-Without q w, e))))
    ];
    used = i.used;
    new = λ q l. omega (arith, i.new q l, counted-Without q w);
    few = omega (arith, i.few, length-Without w);
  }

  module _ (law : IsMap m) where
    Step-IsCounted : {f g : Flow S} → Step f g → IsCounted f → IsCounted g
    Step-IsCounted (enters f target rate h) i = enters-IsCounted law f target rate i h
    Step-IsCounted (leaves f a rest w) i = leaves-IsCounted f a rest i w

    -- However requests come and go, each counter holds the number of the requests that it has
    -- counted and that have not left.
    pub Reach-IsCounted : {f g : Flow S} → IsCounted f → Reach f g → IsCounted g
    Reach-IsCounted i here = i
    Reach-IsCounted i (next r s) = Step-IsCounted s (Reach-IsCounted i r)

    pub enter_test :
        (f : Flow S) (target : Text) (rate : ℤ)
        → IsCounted f
        → length f.active + 1 < 2 ^ 63
        → (enter m target rate f.state).1
          ≡ not (ltb_ℤ rate (pos (counted (enter m target rate f.state).0 f.active + 1)))
    unfolding enter
    enter_test f target rate i h = ap (λ n. not (ltb_ℤ rate n)) (enter_count f target _ i h)
