-- ===== src/LoadBalance/RoundRobin.antt =====
-- cluster/loadbalance/roundrobin: smooth weighted round robin over a cache of robins.
use incubator_dubbo_go.Prelude.{
  Bool, true, false, not, ◌&&◌, ◌||◌, List, [], ◌∷◌, ◌++◌, Option, none, some, if◌then◌else◌, Text,
  text_key, codes, lookup, insert,
}
use incubator_dubbo_go.Prelude.Int.{ℤ, pos, ◌+ℤ◌, ◌-ℤ◌, ltb_ℤ, eqb_ℤ, wrap64}
use incubator_dubbo_go.Url.{key, min_int64}
use incubator_dubbo_go.Protocol.{Invoker, Invocation}
use incubator_dubbo_go.LoadBalance.{get_weight, at_least_zero}

-- weightedRoundRobin. `last_update` is in nanoseconds; it is set before anything reads it.
pub record Robin : Type 0 where
  pub weight : ℤ
  pub current : ℤ
  pub last_update : ℤ

abbrev pub CachedInvokers : Type 0
CachedInvokers = List (Text × Robin)

unfoldable pub set_weight : ℤ → Robin → Robin
set_weight w r = record r { weight = w; current = pos 0 }

unfoldable pub increase_current : Robin → Robin
increase_current r = record r { current = wrap64 (r.current +ℤ r.weight) }

-- Current(delta) takes the delta off.
unfoldable pub current_minus : ℤ → Robin → Robin
current_minus delta r = record r { current = wrap64 (r.current +ℤ wrap64 (pos 0 -ℤ delta)) }

-- The variables of Select's loop. A robin is named by its identifier, the key in the cache.
pub record Round : Type 0 where
  pub cached : CachedInvokers
  pub clean : Bool
  pub total_weight : ℤ
  pub max_current_weight : ℤ
  pub selected : Option (Invoker × Text)

-- The robin of an invoker in this round, before its current weight grows.
unfoldable pub robin_for : ℤ → Option Robin → Robin
unfolding set_weight
robin_for weight none = record { weight = weight; current = pos 0; last_update = pos 0 }
robin_for weight (some r) = if eqb_ℤ r.weight weight then r else set_weight weight r

abbrev is_none {ℓ} : {A : Type ℓ} → Option A → Bool
is_none none = true
is_none (some _) = false

-- One round of the loop, for an invoker with its weight, at the time `now`.
unfoldable pub visit : ℤ → ℤ → Invoker → Round → Round
unfolding robin_for increase_current insert lookup
visit now weight invoker s =
    let identifier = key invoker.url in
    let loaded = lookup identifier s.cached in
    let robin = increase_current (robin_for weight loaded) in
    let t = record s {
      cached = insert identifier (record robin { last_update = now }) s.cached;
      clean = s.clean || is_none loaded;
      total_weight = wrap64 (s.total_weight +ℤ weight);
    } in
    if ltb_ℤ s.max_current_weight robin.current
    then record t { max_current_weight = robin.current; selected = some (invoker, identifier) }
    else t

-- cleanIfRequired. The recycle period is a minute; `updating` says that another call is cleaning.
unfoldable pub clean_if_required : Bool → Bool → ℤ → CachedInvokers → CachedInvokers
clean_if_required clean updating now [] = []
clean_if_required clean updating now ((k, r) ∷ m) =
    let rest = clean_if_required clean updating now m in
    if clean && not updating && ltb_ℤ (pos 60_000_000_000) (wrap64 (now -ℤ r.last_update))
    then rest
    else (k, r) ∷ rest

-- `selectedWeightRobin.Current(totalWeight)`, through the pointer into the cache.
unfoldable pub settle : Text → ℤ → CachedInvokers → CachedInvokers
unfolding current_minus lookup insert
settle identifier total m = elim (lookup identifier m) [
  | none ↦ m
  | some r ↦ insert identifier (current_minus total r) m
]

module _ (weigh : Invoker → ℤ) (now : ℤ) where
  unfoldable pub visit_all : List Invoker → Round → Round
  unfolding visit at_least_zero
  visit_all [] s = s
  visit_all (i ∷ is) s = visit_all is (visit now (at_least_zero (weigh i)) i s)

  abbrev pub round_start : CachedInvokers → Round
  round_start m = record {
    cached = m;
    clean = false;
    total_weight = pos 0;
    max_current_weight = min_int64;
    selected = none;
  }

  -- What follows the loop; `first` is invokers[0].
  unfoldable pub finish : Bool → Invoker → Round → Invoker × CachedInvokers
  unfolding clean_if_required settle
  finish updating first s =
      let m = clean_if_required s.clean updating now s.cached in
      elim s.selected [
        | none ↦ (first, m)
        | some (i, identifier) ↦ (i, settle identifier s.total_weight m)
      ]

  -- Select on the cache of its key.
  unfoldable pub select_by :
      Bool → Invoker → List Invoker → CachedInvokers → Invoker × CachedInvokers
  unfolding visit_all finish
  select_by updating first invokers m = finish updating first (visit_all invokers (round_start m))

abbrev pub or_empty : Option CachedInvokers → CachedInvokers
or_empty none = []
or_empty (some m) = m

-- The key of methodWeightMap.
abbrev pub weight_key : Invoker → Text → Text
weight_key i method = i.url.path ++ (codes "." ++ method)

-- Select, with methodWeightMap; `now` is in nanoseconds, `unix` in seconds.
unfoldable pub select :
    ℤ
    → ℤ
    → Bool
    → List Invoker
    → Invocation
    → List (Text × CachedInvokers)
    → Option Invoker × List (Text × CachedInvokers)
unfolding select_by lookup insert
select now unix updating [] invocation g = (none, g)
select now unix updating (i ∷ []) invocation g = (some i, g)
select now unix updating (i ∷ j ∷ is) invocation g =
    let k = weight_key i invocation.method_name in
    let (chosen, m) =
      select_by (λ v. get_weight unix v invocation) now updating i (i ∷ j ∷ is)
        (or_empty (lookup k g)) in
    (some chosen, insert k m g)
