-- ===== src/LoadBalance/Random.antt =====
-- cluster/loadbalance/random.

pub mod Weighted
use incubator_dubbo_go.Prelude.{
  ℕ, ◌+◌, ◌%◌, ◌≡◌, Bool, true, false, not, ◌&&◌, List, [], ◌∷◌, Option, none, some, map,
  if◌then◌else◌, length, get_elem?,
}
use incubator_dubbo_go.Prelude.Int.{ℤ, pos, ◌+ℤ◌, ◌-ℤ◌, ltb_ℤ, eqb_ℤ, wrap64, pos_part}
use incubator_dubbo_go.Protocol.{Invoker, Invocation, Outcome, done, panic}
use incubator_dubbo_go.LoadBalance.{get_weight}

unfoldable pub sum_weights : ℤ → List ℤ → ℤ
sum_weights total [] = total
sum_weights total (w ∷ ws) = sum_weights (wrap64 (total +ℤ w)) ws

-- `sameWeight` after the first loop.
unfoldable pub same_weights : ℤ → List ℤ → Bool
same_weights first [] = true
same_weights first (w ∷ ws) = eqb_ℤ w first && same_weights first ws

-- The loop that subtracts the weights from the offset; `none` when it runs to its end.
unfoldable pub pick_by_offset : (Invoker → ℤ) → ℤ → List Invoker → Option Invoker
pick_by_offset weigh offset [] = none
pick_by_offset weigh offset (i ∷ is) =
    let rest = wrap64 (offset -ℤ weigh i) in
    if ltb_ℤ rest (pos 0) then some i else pick_by_offset weigh rest is

-- `xs[i]`: an index out of range is a panic.
unfoldable pub index_of {ℓ} : {A : Type ℓ} → List A → ℕ → Outcome A
index_of xs i = elim (get_elem? xs i) [ none ↦ panic | some x ↦ done x ]

unfoldable pub evenly : ℕ → List Invoker → Outcome Invoker
unfolding index_of
evenly draw invokers = index_of invokers (draw % length invokers)

unfoldable pub or_evenly : Option Invoker → ℕ → List Invoker → Outcome Invoker
unfolding evenly
or_evenly none draw invokers = evenly draw invokers
or_evenly (some i) draw invokers = done i

-- Select over the weights `weigh`. Int63n(n) and Intn(n) are `draw % n` and `draw' % n` for two
-- draws of the generator.
unfoldable pub select_by : (Invoker → ℤ) → ℕ → ℕ → List Invoker → Outcome Invoker
unfolding sum_weights same_weights pick_by_offset or_evenly
select_by weigh draw draw' [] = panic
select_by weigh draw draw' (i ∷ []) = done i
select_by weigh draw draw' (i ∷ j ∷ is) =
    let ws = map weigh (j ∷ is) in
    let total = sum_weights (weigh i) ws in
    if ltb_ℤ (pos 0) total && not (same_weights (weigh i) ws)
    then or_evenly (pick_by_offset weigh (pos (draw % pos_part total)) (i ∷ j ∷ is)) draw'
        (i ∷ j ∷ is)
    else evenly draw' (i ∷ j ∷ is)

unfoldable pub select : ℤ → ℕ → ℕ → List Invoker → Invocation → Outcome Invoker
unfolding select_by
select now draw draw' invokers invocation =
    select_by (λ i. get_weight now i invocation) draw draw' invokers
