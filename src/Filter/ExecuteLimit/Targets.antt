-- ===== src/Filter/ExecuteLimit/Targets.antt =====
-- filter/execlmt/filter.go: the requests of a target while requests come and go, in any order.
use incubator_dubbo_go.Prelude.{
  ℕ, ◌+◌, ◌<◌, ◌≤◌, ◌≡◌, ◌^◌, refl, sym, ap, ◌∙◌, arith, Bool, true, not, ◌&&◌, List, [], ◌∷◌, none,
  some, Option-cases, Bool-cases, inl, inr, if◌then◌else◌, ==_iff, Text, text_eq, text_eq_iff, map,
  length, length-map, All,
}
use incubator_dubbo_go.Prelude.Int.{ℤ, pos, negsuc, ◌≤ℤ◌, ltb_ℤ}
use incubator_dubbo_go.Tps.Limiter.{ConcurrentMap, IsMap}
use incubator_dubbo_go.Filter.ExecuteLimit.{ExecuteState, counter_of, enter, leave}
use incubator_dubbo_go.Filter.ExecuteLimit.Counts.{
  Active, counted, Without, first, later, Flow, Step, enters, leaves, Reach, here, next, IsCounted,
  Reach-IsCounted, enter_test,
}

-- A request with the target that it was counted for.
abbrev pub Targeted : Type 0
Targeted = Text × Active

abbrev pub untargeted : Targeted → Active
untargeted e = e.1

-- The second list is the first without one request.
pub data LeftOut (a : Targeted) : List Targeted → List Targeted → Type 0 where
  first_left : (xs : List Targeted) → LeftOut a (a ∷ xs) xs
  later_left :
      {b : Targeted} {xs ys : List Targeted} → LeftOut a xs ys → LeftOut a (b ∷ xs) (b ∷ ys)

LeftOut-Without :
    {a : Targeted} {xs ys : List Targeted}
    → LeftOut a xs ys
    → Without (untargeted a) (map untargeted xs) (map untargeted ys)
LeftOut-Without (first_left xs) = first (map untargeted xs)
LeftOut-Without (later_left l) = later (LeftOut-Without l)

All-LeftOut :
    {a : Targeted} {xs ys : List Targeted} (P : Targeted → Type 0)
    → LeftOut a xs ys
    → All P xs
    → All P ys
All-LeftOut P (first_left xs) h = h.1
All-LeftOut P (later_left l) h = (h.0, All-LeftOut P l h.1)

-- How many requests of a target have been admitted and have not left.
abbrev pub running_of : Text → List Targeted → ℕ
running_of t [] = 0
running_of t ((u, (r, b)) ∷ rest) = (if b && text_eq u t then 1 else 0) + running_of t rest

within_rate :
    (rate : ℤ) (b : Bool) (r c : ℕ)
    → r ≤ c
    → not (ltb_ℤ rate (pos (c + 1))) ≡ true
    → pos ((if true && b then 1 else 0) + r) ≤ℤ rate
within_rate (pos n) b r c h t = ground arith
within_rate (negsuc n) b r c h t = ground arith

pub record TargetedFlow (S : Type 0) : Type 0 where
  pub state : ExecuteState S
  pub requests : List Targeted

module _ {S : Type 0} (m : ConcurrentMap S) where
  -- A request enters for a target at a rate, or one that has been counted leaves.
  pub data TargetedStep : TargetedFlow S → TargetedFlow S → Type 0 where
    request_enters :
        (f : TargetedFlow S) (target : Text) (rate : ℤ)
        → length f.requests + 1 < 2 ^ 63
        → TargetedStep f (record {
          state = (enter m target rate f.state).2;
          requests =
              (target, ((enter m target rate f.state).0, (enter m target rate f.state).1))
              ∷ f.requests;
        })
    request_leaves :
        (f : TargetedFlow S) (a : Targeted) (rest : List Targeted)
        → LeftOut a f.requests rest
        → TargetedStep f (record { state = leave m a.1.0 f.state; requests = rest })

  pub data TargetedReach (f : TargetedFlow S) : TargetedFlow S → Type 0 where
    no_step : TargetedReach f f
    one_more : {g h : TargetedFlow S} → TargetedReach f g → TargetedStep g h → TargetedReach f h

  abbrev pub flow_of : TargetedFlow S → Flow S
  flow_of f = record { state = f.state; active = map untargeted f.requests }

  TargetedStep-Step : {f g : TargetedFlow S} → TargetedStep f g → Step m (flow_of f) (flow_of g)
  TargetedStep-Step (request_enters f target rate h) =
      enters (flow_of f) target rate (omega (arith, length-map untargeted f.requests, h))
  TargetedStep-Step (request_leaves f a rest l) =
      leaves (flow_of f) (untargeted a) (map untargeted rest) (LeftOut-Without l)

  TargetedReach-Reach : {f g : TargetedFlow S} → TargetedReach f g → Reach m (flow_of f) (flow_of g)
  TargetedReach-Reach no_step = here
  TargetedReach-Reach (one_more r s) = next (TargetedReach-Reach r) (TargetedStep-Step s)

  -- Each request holds the counter that the map has for its target.
  abbrev pub Holds : S → Targeted → Type 0
  Holds s e = m.load e.0 s ≡ some e.1.0

  All-mapped :
      {P Q : Targeted → Type 0} (w : (e : Targeted) → P e → Q e) (xs : List Targeted)
      → All P xs
      → All Q xs
  All-mapped w [] h = tt
  All-mapped w (x ∷ xs) h = (w x h.0, All-mapped w xs h.1)

  module _ (law : IsMap m) where
    -- The counter of a target that the map knows is the map's, and the map stays as it is.
    known_counter :
        (target : Text) (rate : ℤ) (s : ExecuteState S) (r : ℕ)
        → m.load target s.map ≡ some r
        → ((enter m target rate s).0 ≡ r) × ((enter m target rate s).2.map ≡ s.map)
    unfolding enter counter_of
    known_counter target rate s r e =
        let q = law.loaded target s.next r s.map e in
        (ap (λ (p : ℕ × S). p.0) q, ap (λ (p : ℕ × S). p.1) q)

    new_counter :
        (target k : Text) (rate : ℤ) (s : ExecuteState S)
        → m.load target s.map ≡ none
        → m.load k (enter m target rate s).2.map
          ≡ (if text_eq target k then some (enter m target rate s).0 else m.load k s.map)
    unfolding enter counter_of
    new_counter target k rate s e =
        law.load-stored target k s.next s.map e
        ∙ ap (λ r. if text_eq target k then some r else m.load k s.map)
            (sym (law.stored target s.next s.map e))

    -- What the map knows before a request enters, it knows behind it.
    enter-Holds :
        (target k : Text) (rate : ℤ) (s : ExecuteState S) (r : ℕ)
        → m.load k s.map ≡ some r
        → m.load k (enter m target rate s).2.map ≡ some r
    enter-Holds target k rate s r h = elim (Option-cases (m.load target s.map)) [
      | inl e ↦ elim (Bool-cases (text_eq target k)) [
        | inl t ↦
            let f : none ≡ some r =
              sym e ∙ ap (λ j. m.load j s.map) ((text_eq_iff target k).0 t) ∙ h in
            absurd (cc f)
        | inr t ↦ new_counter target k rate s e ∙ (rw t h)
      ]
      | inr (q, e) ↦ ap (m.load k) (known_counter target rate s q e).1 ∙ h
    ]

    entered-Holds :
        (target : Text) (rate : ℤ) (s : ExecuteState S)
        → m.load target (enter m target rate s).2.map ≡ some (enter m target rate s).0
    entered-Holds target rate s = elim (Option-cases (m.load target s.map)) [
      | inl e ↦ new_counter target target rate s e ∙ (rw ((text_eq_iff target target).1 refl) refl)
      | inr (q, e) ↦
          let (r, k) = known_counter target rate s q e in ap (m.load target) k ∙ e ∙ ap some (sym r)
    ]

    TargetedStep-Holds :
        {f g : TargetedFlow S}
        → TargetedStep f g
        → All (Holds f.state.map) f.requests
        → All (Holds g.state.map) g.requests
    unfolding leave
    TargetedStep-Holds (request_enters f target rate h) held = (
      entered-Holds target rate f.state,
      All-mapped (λ e. enter-Holds target e.0 rate f.state e.1.0) f.requests held,
    )
    TargetedStep-Holds (request_leaves f a rest l) held = All-LeftOut (Holds f.state.map) l held

    TargetedReach-Holds :
        {f g : TargetedFlow S}
        → TargetedReach f g
        → All (Holds f.state.map) f.requests
        → All (Holds g.state.map) g.requests
    TargetedReach-Holds no_step held = held
    TargetedReach-Holds (one_more r s) held = TargetedStep-Holds s (TargetedReach-Holds r held)

    -- All requests of a target are counted by the counter that the next one gets.
    running_of-counted :
        (target : Text) (rate : ℤ) (s : ExecuteState S) (es : List Targeted)
        → All (Holds s.map) es
        → running_of target es ≤ counted (enter m target rate s).0 (map untargeted es)
    running_of-counted target rate s [] held = omega arith
    running_of-counted target rate s ((u, (r, b)) ∷ es) held =
        elim (Bool-cases (text_eq u target)) [
          | inl t ↦
              let h : m.load target s.map ≡ some r =
                ap (λ j. m.load j s.map) (sym ((text_eq_iff u target).0 t)) ∙ held.0 in
              let same =
                (==_iff r (enter m target rate s).0).1 (sym (known_counter target rate s r h).0) in
              ground (arith, running_of-counted target rate s es held.1, same)
          | inr t ↦ ground (arith, running_of-counted target rate s es held.1, t)
        ]

    -- When a request for a target is admitted at a rate, no more requests for that target run than
    -- the rate, itself included, however requests for all targets came and went before: if at the
    -- start each counter counts the requests that hold it and each request holds its target's, the
    -- concurrent map keeps its laws, and no more requests are in flight than an int64 counts.
    pub running_of-le-rate :
        {f g : TargetedFlow S} (target : Text) (rate : ℤ)
        → IsCounted m (flow_of f)
        → All (Holds f.state.map) f.requests
        → TargetedReach f g
        → length g.requests + 1 < 2 ^ 63
        → (enter m target rate g.state).1 ≡ true
        → pos (running_of target ((target, ((enter m target rate g.state).0, true)) ∷ g.requests))
          ≤ℤ rate
    running_of-le-rate {f} {g} target rate i held reach h admitted =
        let few : length (map untargeted g.requests) + 1 < 2 ^ 63 =
          omega (arith, length-map untargeted g.requests, h) in
        let test =
          sym (
            enter_test m law (flow_of g) target rate
              (Reach-IsCounted m law i (TargetedReach-Reach reach)) few)
          ∙ admitted in
        within_rate rate (text_eq target target) (running_of target g.requests) _
          (running_of-counted target rate g.state g.requests (TargetedReach-Holds reach held)) test
