-- ===== src/Cluster/Failover.antt =====
-- cluster/cluster/failover/cluster_invoker.go.
pub mod Bounds
pub mod Distinct
use incubator_dubbo_go.Prelude.{
  ℕ, zero, suc, ◌+◌, Bool, true, false, not, ◌&&◌, ◌||◌, List, [], ◌∷◌, ◌++◌, Option, none, some,
  Text, codes, if◌then◌else◌, length, ltb,
}
use incubator_dubbo_go.Prelude.Int.{ℤ, pos, negsuc}
use incubator_dubbo_go.Strconv.{atoi}
use incubator_dubbo_go.Url.{is_empty, get_param, get_method_param}
use incubator_dubbo_go.Protocol.{
  Invoker, Invocation, RpcResult, Error, Outcome, done, panic, no_provider, no_provider_available,
  retries_failed, error_result,
}
use incubator_dubbo_go.LoadBalance.{LoadBalance}
use incubator_dubbo_go.Cluster.{Env, State, M, ◌>>=◌, ◌>>◌, pure, list_invokers, invoke}
use incubator_dubbo_go.Cluster.Select.{
  none_listed, check_invokers, check_whether_destroyed, get_load_balance, do_select,
}

-- The configured number of retries, before the bound by the number of invokers.
unfoldable pub parsed_retries : Option ℤ → ℕ
parsed_retries none = 2
parsed_retries (some (negsuc n)) = 2
parsed_retries (some (pos n)) = n

unfoldable pub get_retries : List Invoker → Text → ℕ
unfolding parsed_retries
get_retries [] method = 2
get_retries (i ∷ is) method =
    let v = get_method_param i.url method (codes "retries") [] in
    let config = if is_empty v then get_param i.url (codes "retries") (codes "2") else v in
    let retries = parsed_retries (atoi config) in
    if ltb (length (i ∷ is)) retries then length (i ∷ is) else retries

-- What the loop leaves: the result that it returned early, or its variables `ivk` and `result`.
pub data Left : Type 0 where
  returned : RpcResult → Left
  ran_out : Option Invoker → Option RpcResult → Left

-- `perrors.Wrap(result.Error(), …)`, whose message calls `result.Error().Error()`.
unfoldable pub wrap_error : {W : Type 0} → Invocation → Option Error → M W RpcResult
wrap_error inv none s = panic
wrap_error inv (some e) s = done (error_result (retries_failed inv.method_name e), s)

module _ {W : Type 0} (env : Env W) (inv : Invocation) where
  -- The error that lets a retry not start, and the invokers that it works on.
  unfoldable pub refresh : Bool → List Invoker → M W (Option Error × List Invoker)
  unfolding check_whether_destroyed list_invokers check_invokers
  refresh true invokers = pure (none, invokers)
  refresh false invokers = do
    d ← check_whether_destroyed env
    elim d [
      | some e ↦ pure (some e, invokers)
      | none ↦ do fresh ← list_invokers env inv; c ← check_invokers env fresh inv; pure (c, fresh)
    ]

  -- The loop, by the rounds that are left; `first` says that it is round 0.
  module _ (lb : LoadBalance W) where
    unfoldable pub attempts :
        ℕ → Bool → List Invoker → List Invoker → Option Invoker → Option RpcResult → M W Left
    unfolding refresh invoke
    attempts zero first invokers invoked ivk result = pure (ran_out ivk result)
    attempts (suc n) first invokers invoked ivk result = do
      (e, fresh) ← refresh first invokers
      elim e [
        | some err ↦ pure (returned (error_result err))
        | none ↦ do
          chosen ← do_select env lb inv invoked fresh
          elim chosen [
            | none ↦ attempts n false fresh invoked none result
            | some v ↦ do
              r ← invoke env v inv
              elim r.err [
                | none ↦ pure (returned r)
                | some err ↦ attempts n false fresh (invoked ++ v ∷ []) (some v) (some r)
              ]
          ]
      ]

  -- What Invoke returns behind the loop; with an invoker but no result it reads a nil result.
  unfoldable pub conclude : Left → M W RpcResult
  unfolding wrap_error
  conclude (returned r) s = done (r, s)
  conclude (ran_out none result) s = done (error_result no_provider_available, s)
  conclude (ran_out (some v) none) s = panic
  conclude (ran_out (some v) (some r)) s = wrap_error inv r.err s

  unfoldable pub failover : M W RpcResult
  failover = do
    invokers ← list_invokers env inv
    elim invokers [
      | [] ↦ do e ← none_listed env inv; pure (error_result e)
      | i ∷ is ↦ do
        lb ← get_load_balance env i inv
        left ← attempts lb (get_retries (i ∷ is) inv.method_name + 1) true (i ∷ is) [] none none
        conclude left
    ]
