-- ===== src/Filter/ExecuteLimit.antt =====
-- filter/execlmt/filter.go: the limit of the requests that a service or method runs at once. The
-- counters are objects on a heap, since the map holds pointers to them.
pub mod Counts
pub mod Targets
use incubator_dubbo_go.Prelude.{
  ℕ, suc, Bool, true, false, not, List, [], ◌∷◌, ◌++◌, Option, none, some, if◌then◌else◌, Text,
  codes, lookup, insert, nat_key,
}
use incubator_dubbo_go.Prelude.Int.{ℤ, pos, negsuc, ◌+ℤ◌, ltb_ℤ, wrap64}
use incubator_dubbo_go.Strconv.{parse_int}
use incubator_dubbo_go.Url.{Url, get_param, method_key, service_key, is_empty}
use incubator_dubbo_go.Protocol.{Invocation, RpcResult, Outcome, done, panic, empty_result}
use incubator_dubbo_go.Tps.Limiter.{ConcurrentMap}
use incubator_dubbo_go.Filter.{Call, Handler}
use incubator_dubbo_go.Filter.Kinds.{rejected_execution}

-- executeState, the counters, and a reference that is not in use.
pub record ExecuteState (S : Type 0) : Type 0 where
  pub map : S
  pub counts : List (ℕ × ℤ)
  pub next : ℕ

unfoldable pub method_limit : Url → Text → Text
unfolding get_param method_key
method_limit u method = get_param u (method_key method (codes "execute.limit")) []

unfoldable pub limit_target : Url → Text → Text
unfolding method_limit
limit_target u method =
    if is_empty (method_limit u method)
    then service_key u
    else service_key u ++ (codes "#" ++ method)

unfoldable pub limit_rate : Url → Text → Option ℤ
unfolding method_limit get_param
limit_rate u method = parse_int 0 64 (
    if is_empty (method_limit u method)
    then get_param u (codes "execute.limit") (codes "-1")
    else method_limit u method)

unfoldable pub count_of : ℕ → List (ℕ × ℤ) → ℤ
unfolding lookup
count_of r counts = elim (lookup r counts) [ none ↦ pos 0 | some n ↦ n ]

-- increase and decrease
unfoldable pub increase : ℕ → List (ℕ × ℤ) → ℤ × List (ℕ × ℤ)
unfolding count_of insert
increase r counts = let n = wrap64 (count_of r counts +ℤ pos 1) in (n, insert r n counts)

unfoldable pub decrease : ℕ → List (ℕ × ℤ) → List (ℕ × ℤ)
unfolding count_of insert
decrease r counts = insert r (wrap64 (count_of r counts +ℤ negsuc 0)) counts

module _ {S : Type 0} (m : ConcurrentMap S) where
  -- LoadOrStore with a new counter at 0.
  unfoldable pub counter_of : Text → ExecuteState S → ℕ × ExecuteState S
  unfolding insert
  counter_of target s = (
    (m.load_or_store target s.next s.map).0,
    record {
      map = (m.load_or_store target s.next s.map).1;
      counts = insert s.next (pos 0) s.counts;
      next = suc s.next;
    },
  )

  -- The counting half of Invoke: the reference of the counter, whether the request may run, and the
  -- state with the request counted.
  unfoldable pub enter : Text → ℤ → ExecuteState S → ℕ × Bool × ExecuteState S
  unfolding counter_of increase
  enter target rate s =
      let (r, s') = counter_of target s in
      let (n, counts) = increase r s'.counts in
      (r, not (ltb_ℤ rate n), record s' { counts = counts })

  -- The deferred half.
  unfoldable pub leave : ℕ → ExecuteState S → ExecuteState S
  unfolding decrease
  leave r s = record s { counts = decrease r s.counts }

unfoldable pub rejected_handler : Url → Text → Text
unfolding get_param method_key
rejected_handler u method =
    get_param u (method_key method (codes "execute.limit.rejected.handler"))
      (get_param u (codes "execute.limit.rejected.handler") (codes "default"))

-- The filter, beside the rest of the world.
pub record Limited (S W : Type 0) : Type 0 where
  pub state : ExecuteState S
  pub rest : W

module _ {S W : Type 0} (m : ConcurrentMap S) where
  unfoldable pub leave_after :
      ℕ → Outcome (RpcResult × Call (Limited S W)) → Outcome (RpcResult × Call (Limited S W))
  leave_after r panic = panic
  leave_after r (done (result, c)) =
      done (result, record c { world = record (c.world) { state = leave m r c.world.state } })

  -- Invoke. The deferred decrease of a panic is left out, since nothing reads the state behind it.
  unfoldable pub limit_invoke :
      (Text → Option (Url → Handler (Limited S W)))
      → Url
      → Handler (Limited S W)
      → Handler (Limited S W)
  unfolding limit_rate limit_target enter leave_after
  limit_invoke handlers u next c = elim (limit_rate u c.inv.method_name) [
    | none ↦ done (empty_result, c)
    | some rate ↦
        if ltb_ℤ rate (pos 0)
        then next c
        else let (r, admitted, s) = enter m (limit_target u c.inv.method_name) rate c.world.state in
          let c' = record c { world = record (c.world) { state = s } } in
          leave_after r (
            if admitted
            then next c'
            else rejected_execution handlers (rejected_handler u c.inv.method_name) u c')
  ]
