-- ===== src/Tps/Limiter.antt =====
-- filter/tps/limiter/method_service.go: the limiter that keeps one strategy for each service or
-- method. The strategies are objects on a heap, since the map holds pointers to them.
pub mod Targets
use incubator_dubbo_go.Prelude.{
  ℕ, suc, ◌+◌, ◌<◌, ◌≡◌, refl, arith, Bool, true, false, not, ◌||◌, List, [], ◌∷◌, ◌++◌, Option,
  none, some, Option-cases, Bool-cases, inl, inr, if◌then◌else◌, ◌==◌, Text, codes, text_eq,
  text_eq_iff, lookup, insert, lookup-insert, nat_key,
}
use incubator_dubbo_go.Prelude.Int.{ℤ, pos, ltb_ℤ, leb_ℤ}
use incubator_dubbo_go.Strconv.{parse_int}
use incubator_dubbo_go.Url.{Url, get_param, service_key, is_empty}
use incubator_dubbo_go.Protocol.{Invocation, Outcome, done, panic}
use incubator_dubbo_go.Tps.{
  FixedWindow, SlidingWindow, create_fixed, create_sliding, fixed_allowable, sliding_allowable,
}

-- TpsLimitStrategy. The thread-safe fixed window is the fixed one behind a lock.
pub data Strategy : Type 0 where
  fixed : FixedWindow → Strategy
  sliding : SlidingWindow → Strategy

unfoldable pub strategy_allowable : ℤ → Strategy → Bool × Strategy
strategy_allowable now (fixed w) = let (b, w') = fixed_allowable now w in (b, fixed w')
strategy_allowable now (sliding w) = let (b, w') = sliding_allowable now w in (b, sliding w')

-- What the init functions register, with Create of each.
unfoldable pub create_strategy : Text → Option (ℤ → ℤ → ℤ → Strategy)
create_strategy name =
    if text_eq name (codes "default")
      || text_eq name (codes "fixedWindow")
      || text_eq name (codes "threadSafeFixedWindow")
    then some (λ now rate interval. fixed (create_fixed now rate interval))
    else if text_eq name (codes "slidingWindow")
    then some (λ now rate interval. sliding (create_sliding rate interval))
    else none

unfoldable pub parsed_or_panic : Option ℤ → Outcome ℤ
parsed_or_panic none = panic
parsed_or_panic (some n) = done n

-- getLimitConfig
unfoldable pub get_limit_config : Text → Url → Text → Text → Outcome ℤ
unfolding parsed_or_panic get_param
get_limit_config method_level u config_key default =
    if not (is_empty method_level)
    then parsed_or_panic (parse_int 0 64 method_level)
    else parsed_or_panic (parse_int 0 64 (get_param u config_key default))

unfoldable pub method_config : Url → Text → Text → Text
unfolding get_param
method_config u method config_key =
    get_param u (codes "methods." ++ method ++ codes "." ++ config_key) []

unfoldable pub limit_target : Url → Text → Text
unfolding method_config
limit_target u method =
    if not (is_empty (method_config u method (codes "tps.limit.interval")))
      || not (is_empty (method_config u method (codes "tps.limit.rate")))
    then service_key u ++ codes "#" ++ method
    else service_key u

unfoldable pub strategy_name : Url → Text → Text
unfolding get_param
strategy_name u method =
    get_param u (codes "methods." ++ method ++ codes ".tps.limit.strategy")
      (get_param u (codes "tps.limit.strategy") (codes "default"))

-- What the limiter uses of concurrent.Map, and what it relies on.
pub record ConcurrentMap (S : Type 0) : Type 0 where
  pub load : Text → S → Option ℕ
  pub load_or_store : Text → ℕ → S → ℕ × S

pub record IsMap {S : Type 0} (m : ConcurrentMap S) : Type 0 where
  pub loaded : (k : Text) (v r : ℕ) (s : S) → m.load k s ≡ some r → m.load_or_store k v s ≡ (r, s)
  pub stored : (k : Text) (v : ℕ) (s : S) → m.load k s ≡ none → (m.load_or_store k v s).0 ≡ v
  pub load-stored :
      (k j : Text) (v : ℕ) (s : S)
      → m.load k s ≡ none
      → m.load j (m.load_or_store k v s).1 ≡ (if text_eq k j then some v else m.load j s)

-- MethodServiceTpsLimiter and the heap; `next` is a reference that is not in use.
pub record Limiter (S : Type 0) : Type 0 where
  pub tps_state : S
  pub heap : List (ℕ × Strategy)
  pub next : ℕ

module _ {S : Type 0} (m : ConcurrentMap S) where
  -- The call of the strategy at a reference; the references of the map are never nil.
  unfoldable pub ask : ℤ → ℕ → Limiter S → Outcome (Bool × Limiter S)
  unfolding strategy_allowable
  ask now r l = elim (lookup r l.heap) [
    | none ↦ panic
    | some w ↦ done (
      (strategy_allowable now w).0,
      record l { heap = insert r (strategy_allowable now w).1 l.heap },
    )
  ]

  -- A new strategy, which the map takes unless it has one by now.
  unfoldable pub add_strategy : Text → Strategy → Limiter S → ℕ × Limiter S
  add_strategy target w l = (
    (m.load_or_store target l.next l.tps_state).0,
    record {
      tps_state = (m.load_or_store target l.next l.tps_state).1;
      heap = insert l.next w l.heap;
      next = suc l.next;
    },
  )

  -- The rest of IsAllowable where the target has no strategy yet; `created` is the time of Create
  -- and `now` that of the strategy's own IsAllowable.
  unfoldable pub first_request : ℤ → ℤ → Url → Text → Limiter S → Outcome (Bool × Limiter S)
  unfolding ask add_strategy
  first_request created now u method l =
      elim (get_limit_config (method_config u method (codes "tps.limit.rate")) u
        (codes "tps.limit.rate") (codes "-1")) [
          | panic ↦ panic
          | done rate ↦
              if ltb_ℤ rate (pos 0)
              then done (true, l)
              else elim (get_limit_config (method_config u method (codes "tps.limit.interval")) u
                  (codes "tps.limit.interval") (codes "60000")) [
                    | panic ↦ panic
                    | done interval ↦
                        if leb_ℤ interval (pos 0)
                        then panic
                        else elim (create_strategy (strategy_name u method)) [
                          | none ↦ panic
                          | some create ↦
                              let (r, l') =
                                add_strategy (limit_target u method) (create created rate interval)
                                  l in
                              ask now r l'
                        ]
                  ]
        ]

  -- IsAllowable
  unfoldable pub is_allowable : ℤ → ℤ → Url → Invocation → Limiter S → Outcome (Bool × Limiter S)
  unfolding ask first_request
  is_allowable created now u inv l = elim (m.load (limit_target u inv.method_name) l.tps_state) [
    | some r ↦ ask now r l
    | none ↦ first_request created now u inv.method_name l
  ]
