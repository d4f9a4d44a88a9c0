-- ===== src/Cluster/ZoneAware.antt =====
-- cluster/cluster/zoneaware/cluster_invoker.go.
use incubator_dubbo_go.Prelude.{
  Bool, ◌&&◌, List, [], ◌∷◌, Option, none, some, Text, codes, if◌then◌else◌, text_eq,
}
use incubator_dubbo_go.Url.{is_empty, get_param}
use incubator_dubbo_go.Protocol.{
  Invoker, Invocation, RpcResult, Outcome, done, panic, no_provider_available, no_registry_in_zone,
  error_result, attachments_by_key,
}
use incubator_dubbo_go.Cluster.{Env, M, ◌>>=◌, pure, list_invokers, available, invoke}
use incubator_dubbo_go.Cluster.Select.{none_listed, get_load_balance, do_select}
use incubator_dubbo_go.Cluster.Strategies.{first_available, or_fail}

-- matchParam: target, key, default.
unfoldable pub match_param : Text → Text → Text → Invoker → Bool
unfolding text_eq get_param
match_param target key def i = text_eq target (get_param i.url key def)

unfoldable pub lift_outcome : {W A : Type 0} → Outcome A → M W A
lift_outcome panic s = panic
lift_outcome (done a) s = done (a, s)

module _ {W : Type 0} (env : Env W) (inv : Invocation) where
  -- The loop that calls the first invoker that is available and matches. IsAvailable is asked first.
  unfoldable pub first_match : Text → Text → Text → List Invoker → M W (Option RpcResult)
  unfolding available invoke match_param
  first_match target key def [] = pure none
  first_match target key def (i ∷ is) = do
    a ← available env i
    (if a && match_param target key def i
        then (do r ← invoke env i inv; pure (some r))
        else first_match target key def is)

  -- The second step, for a zone that the invocation names. Its error is final if the zone is forced.
  unfoldable pub in_zone : Text → List Invoker → M W (Option RpcResult)
  unfolding first_match attachments_by_key lift_outcome text_eq
  in_zone zone invokers = if is_empty zone then pure none else do
    r ← first_match zone (codes "registry.zone") [] invokers
    elim r [
      | some v ↦ pure (some v)
      | none ↦ do
        force ← lift_outcome (attachments_by_key inv (codes "registry.zone.force") [])
        pure (
            if text_eq (codes "true") force
            then some (error_result (no_registry_in_zone zone))
            else none)
    ]

  -- The call of the selected registry, if it is there and available.
  unfoldable pub call_if_available : Option Invoker → M W (Option RpcResult)
  unfolding available invoke
  call_if_available none = pure none
  call_if_available (some i) = do
    a ← available env i
    (if a then (do r ← invoke env i inv; pure (some r)) else pure none)

  -- The last two steps: the load balance among all registries, and then any that is available.
  unfoldable pub by_load_balance : Invoker → List Invoker → M W RpcResult
  by_load_balance first invokers = do
    lb ← get_load_balance env first inv
    v ← do_select env lb inv [] invokers
    r ← call_if_available v
    elim r [
      | some res ↦ pure res
      | none ↦ do
        last ← first_available env inv invokers
        or_fail env inv no_provider_available last
    ]

  unfoldable pub zone_aware_invoke : M W RpcResult
  zone_aware_invoke = do
    invokers ← list_invokers env inv
    elim invokers [
      | [] ↦ do e ← none_listed env inv; pure (error_result e)
      | i ∷ is ↦ do
        preferred ← first_match (codes "true") (codes "registry.preferred") (codes "false") (i ∷ is)
        elim preferred [
          | some r ↦ pure r
          | none ↦ do
            zone ← lift_outcome (attachments_by_key inv (codes "registry.zone") [])
            zoned ← in_zone zone (i ∷ is)
            elim zoned [ some r ↦ pure r | none ↦ by_load_balance i (i ∷ is) ]
        ]
    ]
