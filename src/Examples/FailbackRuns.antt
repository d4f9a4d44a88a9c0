-- ===== src/Examples/FailbackRuns.antt =====
-- A tick of the failback cluster, on a queue as a list.
use incubator_dubbo_go.Prelude.{
  ℕ, ◌≡◌, refl, arith, ◌++◌, List, [], ◌∷◌, Option, none, some, length,
}
use incubator_dubbo_go.Prelude.Int.{ℤ, pos}
use incubator_dubbo_go.Cluster.LoadBalances.{random}
use incubator_dubbo_go.Cluster.Failback.{
  RetryTimerTask, Peeked, disposed, empty, task, Queue, IsQueue, Failback, process,
}
use incubator_dubbo_go.Cluster.Failback.Retries.{IsFine, Ends, process-Ends}
use incubator_dubbo_go.Examples.{
  sample_env, start, call, count_draws, first_invoker, second_invoker,
}

module _ {T : Type 0} where
  abbrev peek_list : List T → Peeked T
  peek_list [] = empty
  peek_list (t ∷ ts) = task t

  abbrev get_list : List T → Option (List T)
  get_list [] = none
  get_list (t ∷ ts) = some ts

  abbrev list_queue : Queue (List T) T
  list_queue = record {
    new = [];
    len = length;
    put = λ t q. q ++ t ∷ [];
    peek = peek_list;
    get = get_list;
    dispose = λ q. [];
  }

  not_disposed : (t : T) (q : List T) → peek_list q ≡ disposed → q ++ t ∷ [] ≡ q
  not_disposed t [] e = absurd (cc e)
  not_disposed t (u ∷ q) e = absurd (cc e)

  get_first :
      (t : T) (q : List T)
      → peek_list q ≡ task t
      → (q' : List T) × (get_list q ≡ some q') × (q ≡ t ∷ q')
  get_first t [] e = absurd (cc e)
  get_first t (u ∷ q) e = (q, refl, cc e)

  list_queue-IsQueue : IsQueue list_queue
  list_queue-IsQueue = record {
    items = λ q. q;
    items_new = refl;
    len_items = λ q. refl;
    items_put = λ t q e. refl;
    items_put_behind = λ t u q e. refl;
    items_put_disposed = not_disposed;
    items_get = get_first;
  }

-- A call of the first invoker that has failed, six seconds ago.
abbrev failed_call : RetryTimerTask ℕ
failed_call = record {
  load_balance = random count_draws;
  invocation = call;
  invokers = first_invoker ∷ second_invoker ∷ [];
  last_invoker = first_invoker;
  retries = pos 0;
  last_t = pos 0;
}

abbrev one_failed : Failback ℕ (List (RetryTimerTask ℕ))
one_failed = record {
  cluster = start;
  task_list = some (failed_call ∷ []);
  max_retries = pos 3;
  failback_tasks = pos 100;
}

abbrev six_seconds : ℕ → ℤ × ℕ
six_seconds w = (pos 6_000_000_000, w)

one_failed-IsFine : IsFine list_queue-IsQueue 3 one_failed (failed_call ∷ [])
unfolding list_queue-IsQueue
one_failed-IsFine = record { listed = refl; max_is = refl; tries = ((0, refl, omega arith), tt) }

process-Ends_example :
    Ends list_queue-IsQueue sample_env six_seconds 3
      (omega arith)
      (process sample_env list_queue six_seconds 5 one_failed)
unfolding list_queue-IsQueue
process-Ends_example =
    process-Ends list_queue-IsQueue sample_env six_seconds 3 (omega arith) 5 one_failed
      (failed_call ∷ []) one_failed-IsFine (omega arith)
