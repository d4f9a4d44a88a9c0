-- ===== src/V3Router/Weights.antt =====
-- cluster/router/v3router/uniform_rule.go, getTargetInvokers: the weights of the destinations.
use native.Mathlib.Nat.{div-lt_iff_lt-mul, lt-mul-div-succ}
use incubator_dubbo_go.Prelude.{
  ℕ, ◌+◌, ◌/◌, ◌^◌, ◌<◌, ◌≤◌, ◌≡◌, refl, arith, false, List, [], ◌∷◌, ◌++◌, some, Bool-cases,
  Option-cases, inl, inr, length, get_elem?_within,
}
use incubator_dubbo_go.Prelude.Int.{pos, ◌+ℤ◌, wrap64, wrap64_fits}
use incubator_dubbo_go.Protocol.{Invoker, done}
use incubator_dubbo_go.V3Router.Rule.{
  WeightInvokersPair, no_weight, by_weight, list_at, get_target_invokers,
}

-- Destinations whose weights are not negative.
abbrev pub weighted : List (ℕ × List Invoker) → List WeightInvokersPair
weighted [] = []
weighted ((w, is) ∷ ds) = (record { weight = pos w; invoker_list = is }) ∷ weighted ds

abbrev pub destination_weights : List (ℕ × List Invoker) → ℕ
destination_weights [] = 0
destination_weights ((w, is) ∷ ds) = w + destination_weights ds

add_fits : (a b : ℕ) → a + b < 2 ^ 63 → wrap64 (pos a +ℤ pos b) ≡ pos (a + b)
unfolding ◌+ℤ◌
add_fits a b h =
    let e : pos a +ℤ pos b ≡ pos (a + b) = ground arith in
    rw e (wrap64_fits (pos (a + b)) (omega arith))

by_weight-interval :
    (total target : ℕ) (before after : List (ℕ × List Invoker)) (w : ℕ) (is : List Invoker)
    → total + destination_weights before ≤ target
    → target < total + destination_weights before + w
    → total + destination_weights before + w < 2 ^ 63
    → by_weight (pos total) target (weighted (before ++ (w, is) ∷ after)) ≡ some is
unfolding by_weight
by_weight-interval total target [] after w is lo hi fits =
    rw (add_fits total w (omega (arith, fits))) (ground (arith, hi))
by_weight-interval total target ((v, js) ∷ before) after w is lo hi fits =
    rw (add_fits total v (omega (arith, fits)))
      (ground (arith, lo, by_weight-interval (total + v) target before after w is))

no_weight-before :
    (before after : List (ℕ × List Invoker)) (w : ℕ) (is : List Invoker)
    → 0 < w
    → no_weight (weighted (before ++ (w, is) ∷ after)) ≡ false
unfolding no_weight
no_weight-before [] after w is h = ground arith
no_weight-before ((v, js) ∷ before) after w is h =
    ground (arith, no_weight-before before after w is)

-- Where the weights are not negative and the sum up to a destination fits an int64, that destination
-- is chosen by each draw that is not below the sum of the weights before it and less than its own
-- weight above that sum.
pub get_target_invokers-interval :
    (before after : List (ℕ × List Invoker)) (w : ℕ) (is : List Invoker) (target : ℕ)
    → destination_weights before ≤ target
    → target < destination_weights before + w
    → destination_weights before + w < 2 ^ 63
    → get_target_invokers target (weighted (before ++ (w, is) ∷ after)) ≡ done is
unfolding get_target_invokers
get_target_invokers-interval [] [] w is target lo hi fits = refl
get_target_invokers-interval [] ((v, js) ∷ after) w is target lo hi fits =
    rw
      (
        no_weight-before [] ((v, js) ∷ after) w is (omega (arith, lo, hi)),
        by_weight-interval 0 target [] ((v, js) ∷ after) w is (omega (arith, lo))
            (omega (arith, hi)) (omega (arith, fits)),
      )
      refl
get_target_invokers-interval ((v, js) ∷ []) after w is target lo hi fits =
    rw
      (
        no_weight-before ((v, js) ∷ []) after w is (omega (arith, lo, hi)),
        by_weight-interval 0 target ((v, js) ∷ []) after w is (omega (arith, lo))
            (omega (arith, hi)) (omega (arith, fits)),
      )
      refl
get_target_invokers-interval (p ∷ q ∷ before) after w is target lo hi fits =
    rw
      (
        no_weight-before (p ∷ q ∷ before) after w is (omega (arith, lo, hi)),
        by_weight-interval 0 target (p ∷ q ∷ before) after w is (omega (arith, lo))
            (omega (arith, hi)) (omega (arith, fits)),
      )
      refl

list_at-done :
    (ps : List WeightInvokersPair) (i : ℕ)
    → i < length ps
    → (is : List Invoker) × (list_at ps i ≡ done is)
unfolding list_at
list_at-done ps i h = let (p, e) = get_elem?_within ps i h in (p.invoker_list, rw (e, list_at) refl)

-- A draw below 100 falls into one of the n parts of length 100 / n + 1.
part_of_draw : (n target : ℕ) → 1 ≤ n → target < 100 → target / (100 / n + 1) < n
part_of_draw n target pos_n h =
    (div-lt_iff_lt-mul (omega arith)).1
      (omega (arith, lt-mul-div-succ 100 {b = n} (omega (arith, pos_n)), h))

-- With a draw of rand.Intn(100) the choice among the destinations never panics.
pub get_target_invokers-done :
    (target : ℕ) (ps : List WeightInvokersPair)
    → target < 100
    → (is : List Invoker) × (get_target_invokers target ps ≡ done is)
unfolding get_target_invokers
get_target_invokers-done target [] h = ([], refl)
get_target_invokers-done target (p ∷ []) h = (p.invoker_list, refl)
get_target_invokers-done target (p ∷ q ∷ ps) h = elim (Bool-cases (no_weight (p ∷ q ∷ ps))) [
  | inl e ↦ rw e (
      list_at-done (p ∷ q ∷ ps) (target / (100 / length (p ∷ q ∷ ps) + 1))
        (part_of_draw (length (p ∷ q ∷ ps)) target (omega arith) h))
  | inr e ↦ elim (Option-cases (by_weight (pos 0) target (p ∷ q ∷ ps))) [
    | inl f ↦ rw (e, f) (list_at-done (p ∷ q ∷ ps) 0 (omega arith))
    | inr (is, f) ↦ rw (e, f) (is, refl)
  ]
]
