-- ===== src/Cluster/Failback.antt =====
-- cluster/cluster/failback/cluster_invoker.go: a call that fails is put into a queue, and a ticker
-- calls again. The queue is of another library, and a parameter.
pub mod Retries
use incubator_dubbo_go.Prelude.{
  ℕ, zero, suc, ◌≡◌, Bool, true, false, ◌||◌, List, [], ◌∷◌, ◌++◌, Option, none, some,
  if◌then◌else◌, length, Text, codes,
}
use incubator_dubbo_go.Prelude.Int.{ℤ, pos, ◌+ℤ◌, ◌-ℤ◌, ltb_ℤ, leb_ℤ, wrap64}
use incubator_dubbo_go.Strconv.{atoi}
use incubator_dubbo_go.Url.{Url, get_param, get_param_int}
use incubator_dubbo_go.Protocol.{Invoker, Invocation, RpcResult, Outcome, done, panic, empty_result}
pub use incubator_dubbo_go.Stateful.{Stateful, ◌>>=◌, ◌>>◌, pure}
use incubator_dubbo_go.LoadBalance.{LoadBalance}
use incubator_dubbo_go.Cluster.{Env, State, M, list_invokers, invoke, not_nil}
use incubator_dubbo_go.Cluster.Select.{get_load_balance, do_select, none_listed}

-- retryTimerTask; times are in nanoseconds.
pub record RetryTimerTask (W : Type 0) : Type 0 where
  pub load_balance : LoadBalance W
  pub invocation : Invocation
  pub invokers : List Invoker
  pub last_invoker : Invoker
  pub retries : ℤ
  pub last_t : ℤ

-- newRetryTimerTask
unfoldable pub new_retry_timer_task :
    {W : Type 0} → LoadBalance W → Invocation → List Invoker → Invoker → ℤ → RetryTimerTask W
new_retry_timer_task lb inv is last now = record {
  load_balance = lb;
  invocation = inv;
  invokers = is;
  last_invoker = last;
  retries = pos 0;
  last_t = now;
}

-- What Peek returns.
pub data Peeked (T : Type 0) : Type 0 where
  disposed empty : Peeked T
  task : T → Peeked T

-- The queue; a Put or Get that fails leaves it as it is.
pub record Queue (Q T : Type 0) : Type 0 where
  pub new : Q
  pub len : Q → ℕ
  pub put : T → Q → Q
  pub peek : Q → Peeked T
  -- `none` is an error
  pub get : Q → Option Q
  pub dispose : Q → Q

-- What the queue promises: it is first in, first out, unless it is disposed.
pub record IsQueue {Q T : Type 0} (queue : Queue Q T) : Type 0 where
  pub items : Q → List T
  pub items_new : items queue.new ≡ []
  pub len_items : (q : Q) → queue.len q ≡ length (items q)
  pub items_put : (t : T) (q : Q) → queue.peek q ≡ empty → items (queue.put t q) ≡ items q ++ t ∷ []
  pub items_put_behind :
      (t u : T) (q : Q) → queue.peek q ≡ task u → items (queue.put t q) ≡ items q ++ t ∷ []
  pub items_put_disposed :
      (t : T) (q : Q) → queue.peek q ≡ disposed → items (queue.put t q) ≡ items q
  pub items_get :
      (t : T) (q : Q)
      → queue.peek q ≡ task t
      → (q' : Q) × (queue.get q ≡ some q') × (items q ≡ t ∷ items q')

-- The fields of clusterInvoker, and what its base reads and changes. `task_list` is nil until a
-- call has failed.
pub record Failback (W Q : Type 0) : Type 0 where
  pub cluster : State W
  pub task_list : Option Q
  pub max_retries : ℤ
  pub failback_tasks : ℤ

-- newClusterInvoker
unfoldable pub valid_retries : Option ℤ → ℤ
valid_retries none = pos 3
valid_retries (some n) = if ltb_ℤ n (pos 0) then pos 3 else n

unfoldable pub new_cluster_invoker : {W Q : Type 0} → Url → State W → Failback W Q
unfolding valid_retries get_param get_param_int
new_cluster_invoker u s =
    let tasks = get_param_int u (codes "failbacktasks") (pos 100) in
    record {
      cluster = s;
      task_list = none;
      max_retries = valid_retries (atoi (get_param u (codes "retries") (codes "3")));
      failback_tasks = if leb_ℤ tasks (pos 0) then pos 100 else tasks;
    }

abbrev pub Fm : Type 0 → Type 0 → Type 0 → Type 0
Fm W Q A = Stateful (Failback W Q) A

module _ {W Q : Type 0} where
  -- A call of the base.
  abbrev pub on_cluster : {A : Type 0} → M W A → Fm W Q A
  on_cluster m s = elim (m s.cluster) [
    | panic ↦ panic
    | done (a, c) ↦ done (a, record s { cluster = c })
  ]

-- How a tick of process ends: with no task that is due, with a queue that is disposed, with a Get
-- that fails, or, on fuel, not yet.
pub data Tick : Type 0 where
  no_task_due queue_disposed get_failed out_of_fuel : Tick

-- `clock` is time.Now.
module _ {W Q : Type 0} (env : Env W) (queue : Queue Q (RetryTimerTask W)) (clock : W → ℤ × W) where
  unfoldable pub time_now : Fm W Q ℤ
  time_now s =
      let (now, w) = clock s.cluster.world in
      done (now, record s { cluster = record (s.cluster) { world = w } })

  unfoldable pub put_task : RetryTimerTask W → Fm W Q (Unit {0})
  put_task t s = elim s.task_list [
    | none ↦ panic
    | some q ↦ done (tt, record s { task_list = some (queue.put t q) })
  ]

  -- once.Do: the queue is made at the first failure.
  unfoldable pub make_queue : Option Q → Q
  make_queue none = queue.new
  make_queue (some q) = q

  -- What Invoke does with a call that has failed.
  unfoldable pub remember_failure :
      LoadBalance W → Invocation → List Invoker → Invoker → Fm W Q RpcResult
  unfolding make_queue time_now new_retry_timer_task
  remember_failure lb inv is i s =
      let q = make_queue s.task_list in
      if leb_ℤ s.failback_tasks (pos (queue.len q))
      then done (empty_result, record s { task_list = some q })
      else let (now, w) = clock s.cluster.world in
        done (
          empty_result,
          record s {
            cluster = record (s.cluster) { world = w };
            task_list = some (queue.put (new_retry_timer_task lb inv is i now) q);
          },
        )

  unfoldable pub answer_or_remember :
      LoadBalance W → Invocation → List Invoker → Invoker → RpcResult → Fm W Q RpcResult
  unfolding remember_failure
  answer_or_remember lb inv is i r = elim r.err [
    | none ↦ pure r
    | some _ ↦ remember_failure lb inv is i
  ]

  -- Invoke
  unfoldable pub failback_invoke : Invocation → Fm W Q RpcResult
  unfolding answer_or_remember
  failback_invoke inv = do
    is ← on_cluster (list_invokers env inv)
    elim is [
      | [] ↦ do e ← on_cluster (none_listed env inv); pure empty_result
      | first ∷ rest ↦ do
        lb ← on_cluster (get_load_balance env first inv)
        v ← on_cluster (do_select env lb inv [] (first ∷ rest))
        i ← on_cluster (not_nil v)
        r ← on_cluster (invoke env i inv)
        answer_or_remember lb inv (first ∷ rest) i r
    ]

  -- checkRetry
  unfoldable pub put_again : ℤ → RetryTimerTask W → Fm W Q (Unit {0})
  unfolding put_task
  put_again now t s =
      let n = wrap64 (t.retries +ℤ pos 1) in
      if ltb_ℤ s.max_retries n
      then done (tt, s)
      else put_task (record t { retries = n; last_t = now }) s

  unfoldable pub check_retry : RetryTimerTask W → Fm W Q (Unit {0})
  unfolding time_now put_again
  check_retry t = do now ← time_now; put_again now t

  unfoldable pub retry_or_drop : RetryTimerTask W → Invoker → RpcResult → Fm W Q (Unit {0})
  unfolding check_retry
  retry_or_drop t i r = elim r.err [
    | none ↦ pure tt
    | some _ ↦ check_retry (record t { last_invoker = i })
  ]

  -- tryTimerTaskProc
  unfoldable pub try_timer_task_proc : RetryTimerTask W → Fm W Q (Unit {0})
  unfolding retry_or_drop
  try_timer_task_proc t = do
    v ← on_cluster (do_select env t.load_balance t.invocation (t.last_invoker ∷ []) t.invokers)
    i ← on_cluster (not_nil v)
    r ← on_cluster (invoke env i t.invocation)
    retry_or_drop t i r

  -- One tick of process; the goroutine of each task runs before the next task is looked at.
  -- time.Since does not wrap around.
  unfoldable pub process : ℕ → Fm W Q Tick
  unfolding time_now try_timer_task_proc
  process zero s = done (out_of_fuel, s)
  process (suc fuel) s = elim s.task_list [
    | none ↦ panic
    | some q ↦ elim (queue.peek q) [
      | disposed ↦ done (queue_disposed, s)
      | empty ↦ done (no_task_due, s)
      | task t ↦
          let (now, w) = clock s.cluster.world in
          let s1 = record s { cluster = record (s.cluster) { world = w } } in
          if ltb_ℤ (now -ℤ t.last_t) (pos 5_000_000_000)
          then done (no_task_due, s1)
          else elim (queue.get q) [
            | none ↦ done (get_failed, s1)
            | some q' ↦ elim (try_timer_task_proc t (record s1 { task_list = some q' })) [
              | panic ↦ panic
              | done (_, s2) ↦ process fuel s2
            ]
          ]
    ]
  ]

  -- Destroy, with the base's; `destroy_base` is its compare-and-swap and the directory's Destroy. A
  -- method of a nil queue panics.
  unfoldable pub failback_destroy : (W → W) → Fm W Q (Unit {0})
  failback_destroy destroy_base s = elim s.task_list [
    | none ↦ panic
    | some q ↦ done (
      tt,
      record s {
        cluster = record (s.cluster) { world = destroy_base s.cluster.world };
        task_list = some (queue.dispose q);
      },
    )
  ]
