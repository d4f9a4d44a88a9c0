-- ===== src/V3Router/Allowed.antt =====
-- cluster/router/v3router: the invokers that the rules leave.
use incubator_dubbo_go.Prelude.{
  ℕ, zero, suc, ◌/◌, ◌+◌, ◌≡◌, refl, Bool, true, false, List, [], ◌∷◌, Option, none, some, All, ◌⊎◌,
  Bool-cases, Option-cases, inl, inr, length, get_elem?, Text, text_key, lookup,
}
use incubator_dubbo_go.Prelude.Int.{ℤ, pos, ltb_ℤ, ◌+ℤ◌, wrap64}
use incubator_dubbo_go.Url.{Url, is_empty, service_key}
use incubator_dubbo_go.Protocol.{Invoker, Invocation, Outcome, done, panic, Outcome-cases}
use incubator_dubbo_go.V3Router.Judger.{judge_url_label, Param}
use incubator_dubbo_go.V3Router.Rule.{
  Labels, WeightInvokersPair, DubboDestination, DubboRouteDetail, UniformRule, final, with_fallback,
  with_labels, of_subset, try_get_subset, by_weight, list_at, get_target_invokers, no_weight,
  subsets, get_rule_target_invokers, match_all, match_service, route_details, route_rule,
}

abbrev pub Among : List Invoker → Invoker → Type 0
Among [] j = ⊥
Among (i ∷ is) j = (j ≡ i) ⊎ Among is j

-- An invoker of the list that carries the labels of some subset.
abbrev pub Allowed : Labels → List Invoker → Invoker → Type 0
Allowed dest is j =
    Among is j
    × ((subset : Text) × (labels : List (Text × Text)) × (lookup subset dest ≡ some labels)
        × (judge_url_label j.url labels ≡ true))

All-weaken :
    {P Q : Invoker → Type 0} (js : List Invoker) → ((j : Invoker) → P j → Q j) → All P js → All Q js
All-weaken [] f a = tt
All-weaken (j ∷ js) f a = (f j a.0, All-weaken js f a.1)

abbrev pub Left : Outcome (List Invoker) → (Invoker → Type 0) → Type 0
Left panic P = Unit
Left (done is) P = All P is

-- Each invoker that the call returns is in P.
pub record OnReturn (o : Outcome (List Invoker)) (P : Invoker → Type 0) : Type 0 where
  pub left : Left o P

module _ {P : Invoker → Type 0} where
  OnReturn-done : (is : List Invoker) → All P is → OnReturn (done is) P
  OnReturn-done is a = record { left = a }

  OnReturn-panic : OnReturn panic P
  OnReturn-panic = record { left = tt }

module _ (P : Invoker → Type 0) where
  abbrev OfPair : Option WeightInvokersPair → Type 0
  OfPair none = Unit
  OfPair (some p) = All P p.invoker_list

  abbrev OfPairs : List WeightInvokersPair → Type 0
  OfPairs ps = All (λ (p : WeightInvokersPair). All P p.invoker_list) ps

  abbrev OfSome : Option (List WeightInvokersPair) → Type 0
  OfSome none = Unit
  OfSome (some ps) = OfPairs ps

  get_elem?-OfPairs : (ps : List WeightInvokersPair) (n : ℕ) → OfPairs ps → OfPair (get_elem? ps n)
  get_elem?-OfPairs [] n a = tt
  get_elem?-OfPairs (p ∷ ps) zero a = a.0
  get_elem?-OfPairs (p ∷ ps) (suc n) a = get_elem?-OfPairs ps n a.1

  list_at-OnReturn : (ps : List WeightInvokersPair) (n : ℕ) → OfPairs ps → OnReturn (list_at ps n) P
  unfolding list_at
  list_at-OnReturn ps n a = elim (Option-cases (get_elem? ps n)) [
    | inl e ↦ rw (e, list_at) OnReturn-panic
    | inr (p, e) ↦
        rw (e, list_at) (OnReturn-done p.invoker_list (rw e at (get_elem?-OfPairs ps n a)))
  ]

  abbrev OfList : Option (List Invoker) → Type 0
  OfList none = Unit
  OfList (some is) = All P is

  by_weight-OfList :
      (total : ℤ) (target : ℕ) (ps : List WeightInvokersPair)
      → OfPairs ps
      → OfList (by_weight total target ps)
  unfolding by_weight
  by_weight-OfList total target [] a = tt
  by_weight-OfList total target (p ∷ ps) a =
      elim (Bool-cases (ltb_ℤ (pos target) (wrap64 (total +ℤ p.weight)))) [
        | inl e ↦ rw e a.0
        | inr e ↦ rw e (by_weight-OfList (wrap64 (total +ℤ p.weight)) target ps a.1)
      ]

  get_target_invokers-OnReturn :
      (target : ℕ) (ps : List WeightInvokersPair)
      → OfPairs ps
      → OnReturn (get_target_invokers target ps) P
  unfolding get_target_invokers
  get_target_invokers-OnReturn target [] a = OnReturn-done [] tt
  get_target_invokers-OnReturn target (p ∷ []) a = OnReturn-done p.invoker_list a.0
  get_target_invokers-OnReturn target (p ∷ q ∷ ps) a = elim (Bool-cases (no_weight (p ∷ q ∷ ps))) [
    | inl e ↦ rw e (list_at-OnReturn (p ∷ q ∷ ps) (target / (100 / length (p ∷ q ∷ ps) + 1)) a)
    | inr e ↦ elim (Option-cases (by_weight (pos 0) target (p ∷ q ∷ ps))) [
      | inl f ↦ rw (e, f) (list_at-OnReturn (p ∷ q ∷ ps) 0 a)
      | inr (is, f) ↦
          rw (e, f) (OnReturn-done is (rw f at (by_weight-OfList (pos 0) target (p ∷ q ∷ ps) a)))
    ]
  ]

module _ (dest : Labels) where
  with_labels-All :
      (labels : List (Text × Text)) (is : List Invoker)
      → All (λ j. Among is j × (judge_url_label j.url labels ≡ true)) (with_labels labels is)
  unfolding with_labels
  with_labels-All labels [] = tt
  with_labels-All labels (i ∷ is) =
      let rest =
        All-weaken (with_labels labels is) (λ j a. (inr a.0, a.1)) (with_labels-All labels is) in
      elim (Bool-cases (judge_url_label i.url labels)) [
        | inl e ↦ rw e ((inl refl, e), rest)
        | inr e ↦ rw e rest
      ]

  of_subset-Allowed :
      (subset : Text) (is : List Invoker) → All (Allowed dest is) (of_subset dest subset is)
  unfolding of_subset
  of_subset-Allowed subset is = elim (Option-cases (lookup subset dest)) [
    | inl e ↦ rw (e, of_subset) tt
    | inr (labels, e) ↦
        rw (e, of_subset)
          (All-weaken (with_labels labels is) (λ j a. (a.0, (subset, labels, e, a.1)))
            (with_labels-All labels is))
  ]

  try_get_subset-Allowed :
      (d : DubboDestination) (is : List Invoker)
      → OfPair (Allowed dest is) (try_get_subset dest d is)
  unfolding try_get_subset
  try_get_subset-Allowed (final subset weight) is =
      elim (Bool-cases (is_empty (of_subset dest subset is))) [
        | inl e ↦ rw e tt
        | inr e ↦ rw e (of_subset-Allowed subset is)
      ]
  try_get_subset-Allowed (with_fallback subset weight next) is =
      elim (Bool-cases (is_empty (of_subset dest subset is))) [
        | inl e ↦ rw e (try_get_subset-Allowed next is)
        | inr e ↦ rw e (of_subset-Allowed subset is)
      ]

  subsets-Allowed :
      (ds : List DubboDestination) (is : List Invoker)
      → OfSome (Allowed dest is) (subsets dest ds is)
  unfolding subsets
  subsets-Allowed [] is = tt
  subsets-Allowed (d ∷ ds) is = elim (Option-cases (try_get_subset dest d is)) [
    | inl e ↦ rw (e, subsets) tt
    | inr (p, e) ↦ elim (Option-cases (subsets dest ds is)) [
      | inl f ↦ rw (e, f, subsets) tt
      | inr (ps, f) ↦
          rw (e, f, subsets)
            (rw e at (try_get_subset-Allowed d is), rw f at (subsets-Allowed ds is))
    ]
  ]

  get_rule_target_invokers-Allowed :
      (target : ℕ) (ds : List DubboDestination) (is : List Invoker)
      → OnReturn (get_rule_target_invokers target dest ds is) (Allowed dest is)
  unfolding get_rule_target_invokers
  get_rule_target_invokers-Allowed target ds is = elim (Option-cases (subsets dest ds is)) [
    | inl e ↦ rw (e, get_rule_target_invokers) (OnReturn-done [] tt)
    | inr (ps, e) ↦
        rw (e, get_rule_target_invokers)
          (get_target_invokers-OnReturn (Allowed dest is) target ps
            (rw e at (subsets-Allowed ds is)))
  ]

module _ (regexp : Text → Text → Bool) {F : Type 0} (u : Url) (inv : Invocation)
    (ps : List Param) where
  route_details-Allowed :
      (target : ℕ) (dest : Labels) (rs : List (DubboRouteDetail F)) (is : List Invoker)
      → OnReturn (route_details regexp target dest rs is u inv ps) (Allowed dest is)
  unfolding route_details
  route_details-Allowed target dest [] is = OnReturn-done [] tt
  route_details-Allowed target dest (r ∷ rs) is =
      elim (Outcome-cases (match_all regexp r.match u inv ps)) [
        | inl e ↦ rw (e, route_details) OnReturn-panic
        | inr (true, e) ↦
            rw (e, route_details) (get_rule_target_invokers-Allowed dest target r.router is)
        | inr (false, e) ↦ rw (e, route_details) (route_details-Allowed target dest rs is)
      ]

  -- A rule leaves invokers of the list only, each of which carries all labels of a subset that the
  -- rule knows, whatever the draw is.
  pub route_rule-Allowed :
      (target : ℕ) (r : UniformRule F) (is : List Invoker)
      → OnReturn (route_rule regexp target r is u inv ps) (Allowed r.destination_label_list_map is)
  unfolding route_rule
  route_rule-Allowed target r is =
      elim (Bool-cases (match_service regexp r.services (service_key u))) [
        | inl e ↦
            rw e
              (route_details-Allowed target r.destination_label_list_map r.virtual_service_rules is)
        | inr e ↦ rw e (OnReturn-done [] tt)
      ]
