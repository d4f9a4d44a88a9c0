-- ===== src/LoadBalance/LeastActive.antt =====
-- cluster/loadbalance/leastactive.

pub mod Unique
use incubator_dubbo_go.Prelude.{
  ℕ, ◌+◌, ◌%◌, ◌≡◌, Bool, true, false, not, ◌&&◌, ◌||◌, List, [], ◌∷◌, ◌++◌, Option, none, some,
  if◌then◌else◌, length, get_elem?, ◌==◌, ltb, Text,
}
use incubator_dubbo_go.Prelude.Int.{
  ℤ, pos, negsuc, ◌+ℤ◌, ◌-ℤ◌, ltb_ℤ, leb_ℤ, eqb_ℤ, wrap64, pos_part,
}
use incubator_dubbo_go.Protocol.{Invoker, Invocation, Outcome, done, panic}
use incubator_dubbo_go.Protocol.Status.{Registry, get_method_status}
use incubator_dubbo_go.LoadBalance.{get_weight}
use incubator_dubbo_go.LoadBalance.Random.{index_of}

-- The variables of the first loop. `indexes` holds the `leastCount` entries of `leastIndexes` that
-- are in use.
pub record Scan : Type 0 where
  pub least_active : ℤ  -- int32
  pub total_weight : ℤ
  pub first_weight : ℤ
  pub indexes : List ℕ
  pub same_weight : Bool

abbrev pub scan_start : Scan
scan_start = record {
  least_active = negsuc 0;
  total_weight = pos 0;
  first_weight = pos 0;
  indexes = [];
  same_weight = true;
}

-- One round, for the invoker at `i` with its active count and its weight.
unfoldable pub scan_step : ℕ → ℤ → ℤ → Scan → Scan
scan_step i active weight s =
    if eqb_ℤ s.least_active (negsuc 0) || ltb_ℤ active s.least_active
    then record {
      least_active = active;
      total_weight = weight;
      first_weight = weight;
      indexes = i ∷ [];
      same_weight = true;
    }
    else if eqb_ℤ active s.least_active
    then record s {
      total_weight = wrap64 (s.total_weight +ℤ weight);
      indexes = s.indexes ++ i ∷ [];
      same_weight = s.same_weight && not (ltb 0 i && not (eqb_ℤ weight s.first_weight));
    }
    else s

module _ (active_of : Invoker → ℤ) (weigh : Invoker → ℤ) where
  unfoldable pub scan : ℕ → List Invoker → Scan → Scan
  unfolding scan_step
  scan i [] s = s
  scan i (ivk ∷ is) s = scan (i + 1) is (scan_step i (active_of ivk) (weigh ivk) s)

  -- The second loop. It subtracts the weight of the invoker at the loop's counter, not that of the
  -- invoker at the least index.
  unfoldable pub pick_least : List Invoker → ℤ → ℕ → List ℕ → Option (Outcome Invoker)
  unfolding index_of
  pick_least invokers offset i [] = none
  pick_least invokers offset i (least ∷ rest) = elim (get_elem? invokers i) [
    | none ↦ some panic
    | some ivk ↦
        let offset' = wrap64 (offset -ℤ weigh ivk) in
        if leb_ℤ offset' (pos 0)
        then some (index_of invokers least)
        else pick_least invokers offset' (i + 1) rest
  ]

  unfoldable pub any_least : List Invoker → ℕ → List ℕ → Outcome Invoker
  unfolding index_of
  any_least invokers draw indexes = elim (get_elem? indexes (draw % length indexes)) [
    | none ↦ panic
    | some i ↦ index_of invokers i
  ]

  unfoldable pub or_any : Option (Outcome Invoker) → List Invoker → ℕ → List ℕ → Outcome Invoker
  unfolding any_least
  or_any none invokers draw indexes = any_least invokers draw indexes
  or_any (some o) invokers draw indexes = o

  -- What follows the first loop; `first` is invokers[0].
  unfoldable pub choose : Invoker → List Invoker → ℕ → ℕ → Scan → Outcome Invoker
  unfolding pick_least any_least or_any
  choose first invokers draw draw' s =
      if length s.indexes == 1
      then done first
      else if not s.same_weight && ltb_ℤ (pos 0) s.total_weight
      then or_any (pick_least invokers (pos (draw % pos_part s.total_weight + 1)) 0 s.indexes)
          invokers draw' s.indexes
      else any_least invokers draw' s.indexes

  -- Select over the active counts and the weights: `none` is nil.
  unfoldable pub select_by : ℕ → ℕ → List Invoker → Outcome (Option Invoker)
  unfolding scan choose
  select_by draw draw' [] = done none
  select_by draw draw' (i ∷ []) = done (some i)
  select_by draw draw' (i ∷ j ∷ is) =
      elim (choose i (i ∷ j ∷ is) draw draw' (scan 0 (i ∷ j ∷ is) scan_start)) [
        | panic ↦ panic
        | done v ↦ done (some v)
      ]

-- GetMethodStatus makes the entries that are not there.
unfoldable pub touch_statuses : Registry → List Invoker → Text → Registry
touch_statuses g [] method = g
touch_statuses g (i ∷ is) method = touch_statuses (get_method_status g i.url method).1 is method

unfoldable pub select :
    ℤ → ℕ → ℕ → List Invoker → Invocation → Registry → Outcome (Option Invoker) × Registry
unfolding select_by touch_statuses
select now draw draw' invokers invocation g = (
  select_by (λ i. (get_method_status g i.url invocation.method_name).0.active)
      (λ i. get_weight now i invocation) draw draw' invokers,
  if ltb 1 (length invokers) then touch_statuses g invokers invocation.method_name else g,
)
