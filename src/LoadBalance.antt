-- ===== src/LoadBalance.antt =====
-- cluster/loadbalance: the weight of an invoker, and the interface of the strategies.
pub mod RoundRobin
pub mod ConsistentHash
pub mod Random
pub mod LeastActive
pub mod Warmup
use incubator_dubbo_go.Prelude.{
  ℕ, ◌+◌, ◌*◌, ◌/◌, ◌≡◌, Bool, true, false, List, Option, none, some, if◌then◌else◌, Text, codes,
  ◌++◌, ltb, leb, ◌&&◌,
}
use incubator_dubbo_go.Prelude.Int.{ℤ, pos, negsuc, ◌-ℤ◌, ltb_ℤ, leb_ℤ, wrap64, pos_part}
use incubator_dubbo_go.Url.{Url, get_param_bool, get_param_int, get_method_param_int64}
use incubator_dubbo_go.Protocol.{Invoker, Invocation, Outcome}

-- The weight while a provider warms up: `ww` is uptime / warmup / weight. The exact quotient stands
-- for the quotient of the floats; all three are positive here.
unfoldable pub warm_weight : ℕ → ℕ → ℕ → ℕ
warm_weight uptime warmup weight =
    if ltb uptime (warmup * weight)
    then 1
    else if leb (uptime / (warmup * weight)) weight
    then uptime / (warmup * weight)
    else weight

-- The warm-up of GetWeight, at the Unix time `now`.
unfoldable pub warmed_up : ℤ → Url → ℤ → ℤ
unfolding warm_weight
warmed_up now u weight =
    let timestamp = get_param_int u (codes "remote.timestamp") now in
    let uptime = wrap64 (now -ℤ timestamp) in
    let warmup = get_param_int u (codes "warmup") (pos 600) in
    if ltb_ℤ (pos 0) weight && (ltb_ℤ (pos 0) uptime && ltb_ℤ uptime warmup)
    then pos (warm_weight (pos_part uptime) (pos_part warmup) (pos_part weight))
    else weight

-- `if weight < 0 { weight = 0 }`
unfoldable pub at_least_zero : ℤ → ℤ
at_least_zero w = if ltb_ℤ w (pos 0) then pos 0 else w

unfoldable pub get_weight : ℤ → Invoker → Invocation → ℤ
unfolding warmed_up at_least_zero
get_weight now invoker invocation =
    let u = invoker.url in
    if get_param_bool u (codes "registry.label") false
    then at_least_zero (get_param_int u (codes "registry.weight") (pos 100))
    else at_least_zero (
        warmed_up now u
          (get_method_param_int64 u invocation.method_name (codes "weight") (pos 100)))

-- A strategy over a state `W`, which holds its caches and what it reads of the world. Select may
-- return nil.
pub record LoadBalance (W : Type 0) : Type 0 where
  pub select : List Invoker → Invocation → W → Outcome (Option Invoker × W)
