-- ===== src/Cluster/Strategies.antt =====
-- cluster/cluster: the strategies available, broadcast, failfast, failsafe and zoneaware.
pub mod Broadcast
pub mod Errors
use incubator_dubbo_go.Prelude.{
  Bool, true, false, not, ◌&&◌, ◌||◌, List, [], ◌∷◌, ◌++◌, Option, none, some, Text, codes,
  if◌then◌else◌, text_eq,
}
use incubator_dubbo_go.Url.{is_empty, get_param}
use incubator_dubbo_go.Protocol.{
  Invoker, Invocation, RpcResult, Error, Outcome, done, panic, no_provider, no_provider_available,
  no_registry_in_zone, error_result, empty_result, attachments_by_key,
}
use incubator_dubbo_go.LoadBalance.{LoadBalance}
use incubator_dubbo_go.Cluster.{
  Env, State, M, ◌>>=◌, ◌>>◌, pure, list_invokers, available, invoke, not_nil,
}
use incubator_dubbo_go.Cluster.Select.{
  none_listed, check_invokers, check_whether_destroyed, get_load_balance, do_select,
}

module _ {W : Type 0} (env : Env W) (inv : Invocation) where
  abbrev fail : Error → M W RpcResult
  fail e = pure (error_result e)

  -- The loop that calls the first invoker that is available.
  unfoldable pub first_available : List Invoker → M W (Option RpcResult)
  unfolding available invoke
  first_available [] = pure none
  first_available (i ∷ is) = do
    a ← available env i
    (if a then (do r ← invoke env i inv; pure (some r)) else first_available is)

  unfoldable pub or_fail : Error → Option RpcResult → M W RpcResult
  or_fail e none = fail e
  or_fail e (some r) = pure r

  unfoldable pub available_invoke : M W RpcResult
  available_invoke = do
    invokers ← list_invokers env inv
    c ← check_invokers env invokers inv
    elim c [
      | some e ↦ fail e
      | none ↦ do
        d ← check_whether_destroyed env
        elim d [
          | some e ↦ fail e
          | none ↦ do r ← first_available invokers; or_fail no_provider_available r
        ]
    ]

  -- The loop of broadcast: the last error and the last result.
  unfoldable pub call_all :
      List Invoker → Option Error → Option RpcResult → M W (Option Error × Option RpcResult)
  unfolding invoke
  call_all [] err result = pure (err, result)
  call_all (i ∷ is) err result = do
    r ← invoke env i inv
    call_all is (elim r.err [ none ↦ err | some e ↦ some e ]) (some r)

  -- `result` is nil only if there was no invoker.
  unfoldable pub broadcast_result : Option Error × Option RpcResult → M W RpcResult
  broadcast_result (some e, result) s = done (error_result e, s)
  broadcast_result (none, some r) s = done (r, s)
  broadcast_result (none, none) s = panic

  unfoldable pub broadcast_invoke : M W RpcResult
  broadcast_invoke = do
    invokers ← list_invokers env inv
    c ← check_invokers env invokers inv
    elim c [
      | some e ↦ fail e
      | none ↦ do
        d ← check_whether_destroyed env
        elim d [ some e ↦ fail e | none ↦ do p ← call_all invokers none none; broadcast_result p ]
    ]

  -- The call of the selected invoker: on nil it panics.
  unfoldable pub call_selected : Option Invoker → M W RpcResult
  unfolding not_nil invoke
  call_selected v = do i ← not_nil v; invoke env i inv

  unfoldable pub failfast_invoke : M W RpcResult
  failfast_invoke = do
    invokers ← list_invokers env inv
    elim invokers [
      | [] ↦ do e ← none_listed env inv; fail e
      | i ∷ is ↦ do
        lb ← get_load_balance env i inv
        d ← check_whether_destroyed env
        elim d [ some e ↦ fail e | none ↦ do v ← do_select env lb inv [] (i ∷ is); call_selected v ]
    ]

  -- An error is logged and becomes an empty result.
  unfoldable pub ignore_error : RpcResult → RpcResult
  ignore_error r = elim r.err [ none ↦ r | some _ ↦ empty_result ]

  unfoldable pub failsafe_invoke : M W RpcResult
  failsafe_invoke = do
    invokers ← list_invokers env inv
    elim invokers [
      | [] ↦ do e ← none_listed env inv; pure empty_result
      | i ∷ is ↦ do
        lb ← get_load_balance env i inv
        v ← do_select env lb inv [] (i ∷ is)
        r ← call_selected v
        pure (ignore_error r)
    ]
