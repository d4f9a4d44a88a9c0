-- ===== src/Cluster/Forking.antt =====
-- cluster/cluster/forking/cluster_invoker.go: the fork, and the race for the first answer.
use incubator_dubbo_go.Prelude.{
  ℕ, zero, suc, ◌||◌, List, [], ◌∷◌, ◌++◌, Option, none, some, codes, if◌then◌else◌, length,
  get_elem?,
}
use incubator_dubbo_go.Prelude.Int.{pos, ltb_ℤ, pos_part}
use incubator_dubbo_go.Url.{get_param_by_int_value}
use incubator_dubbo_go.Protocol.{Invoker, Invocation, RpcResult, fork_timeout, error_result}
use incubator_dubbo_go.LoadBalance.{LoadBalance}
use incubator_dubbo_go.Cluster.{Env, M, ◌>>=◌, pure, list_invokers, invoke}
use incubator_dubbo_go.Cluster.Select.{
  none_listed, check_whether_destroyed, get_load_balance, do_select,
}

module _ {W : Type 0} (env : Env W) (inv : Invocation) where
  -- The loop that selects up to `forks` invokers.
  unfoldable pub select_forks : LoadBalance W → List Invoker → ℕ → List Invoker → M W (List Invoker)
  select_forks lb invokers zero selected = pure selected
  select_forks lb invokers (suc n) selected = do
    v ← do_select env lb inv selected invokers
    elim v [
      | none ↦ select_forks lb invokers n selected
      | some i ↦ select_forks lb invokers n (selected ++ i ∷ [])
    ]

  -- The invokers that are called.
  unfoldable pub selected_forks : Invoker → List Invoker → M W (List Invoker)
  selected_forks first invokers =
      let forks = get_param_by_int_value env.directory_url (codes "forks") (pos 2) in
      if ltb_ℤ forks (pos 0) || ltb_ℤ (pos (length invokers)) forks
      then pure invokers
      else do lb ← get_load_balance env first inv; select_forks lb invokers (pos_part forks) []

  -- The goroutines, in the order in which they are scheduled here; each puts its result.
  unfoldable pub run_forks : List Invoker → M W (List RpcResult)
  unfolding invoke
  run_forks [] = pure []
  run_forks (i ∷ is) = do r ← invoke env i inv; rs ← run_forks is; pure (r ∷ rs)

  -- `resultQ.Poll(1, timeout)`: `answered` says which of the results stood in the queue first when
  -- the time was over, if any did.
  unfoldable pub poll : Option ℕ → List RpcResult → RpcResult
  poll none results = error_result fork_timeout
  poll (some k) results = elim (get_elem? results k) [
    | none ↦ error_result fork_timeout
    | some r ↦ r
  ]

  unfoldable pub forking_invoke : Option ℕ → M W RpcResult
  forking_invoke answered = do
    d ← check_whether_destroyed env
    elim d [
      | some e ↦ pure (error_result e)
      | none ↦ do
        invokers ← list_invokers env inv
        elim invokers [
          | [] ↦ do e ← none_listed env inv; pure (error_result e)
          | i ∷ is ↦ do
            selected ← selected_forks i (i ∷ is)
            results ← run_forks selected
            pure (poll answered results)
        ]
    ]
