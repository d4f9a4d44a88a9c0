-- ===== src/Cluster/Select.antt =====
-- cluster/cluster/base/cluster_invoker.go: the choice of an invoker, with the sticky one and the
-- reselection.

pub mod Member
pub mod Available
use incubator_dubbo_go.Prelude.{
  ℕ, zero, suc, Bool, true, false, not, ◌&&◌, ◌||◌, List, [], ◌∷◌, ◌++◌, Option, none, some, Text,
  codes, if◌then◌else◌,
}
use incubator_dubbo_go.Url.{
  Url, sub_url, is_empty, get_param, get_param_bool, get_method_param, get_method_param_bool,
}
use incubator_dubbo_go.Protocol.{
  Invoker, same_invoker, Invocation, RpcResult, Error, Outcome, done, panic, no_provider, destroyed,
}
use incubator_dubbo_go.LoadBalance.{LoadBalance}
use incubator_dubbo_go.Cluster.{
  Env, State, M, ◌>>=◌, ◌>>◌, pure, not_nil, set_sticky, mark_unhealthy, select_with, available,
  is_destroyed, got_load_balance, gets,
}

unfoldable pub is_invoked : Invoker → List Invoker → Bool
is_invoked selected [] = false
is_invoked selected (i ∷ is) = same_invoker i selected || is_invoked selected is

unfoldable pub get_other_invokers : List Invoker → Invoker → List Invoker
get_other_invokers [] ivk = []
get_other_invokers (i ∷ is) ivk =
    let rest = get_other_invokers is ivk in if same_invoker i ivk then rest else i ∷ rest

-- The name that GetLoadBalance looks up.
unfoldable pub load_balance_name : Invoker → Invocation → Text
load_balance_name i inv =
    let lb = get_param i.url (codes "loadbalance") (codes "random") in
    let v = get_method_param i.url inv.method_name (codes "loadbalance") [] in
    if is_empty v then lb else v

unfoldable pub is_sticky : Invoker → Invocation → Bool
is_sticky first inv =
    get_method_param_bool first.url inv.method_name (codes "sticky")
      (get_param_bool first.url (codes "sticky") false)

module _ {W : Type 0} (env : Env W) where
  -- The error of CheckInvokers, whose message reads the key of the directory URL's SubURL: a panic
  -- if that one is nil.
  unfoldable pub none_listed : Invocation → M W Error
  unfolding sub_url
  none_listed inv s = elim (sub_url env.directory_url) [
    | none ↦ panic
    | some u ↦ done (no_provider inv.method_name, s)
  ]

  -- CheckInvokers.
  unfoldable pub check_invokers : List Invoker → Invocation → M W (Option Error)
  unfolding none_listed
  check_invokers [] inv = do e ← none_listed inv; pure (some e)
  check_invokers (_ ∷ _) inv = pure none

  unfoldable pub get_load_balance : Invoker → Invocation → M W (LoadBalance W)
  unfolding got_load_balance load_balance_name
  get_load_balance i inv = got_load_balance (env.load_balance (load_balance_name i inv))

  unfoldable pub check_whether_destroyed : M W (Option Error)
  unfolding is_destroyed
  check_whether_destroyed = do d ← is_destroyed env; pure (if d then some destroyed else none)

  module _ (lb : LoadBalance W) (inv : Invocation) (invoked : List Invoker) where
    -- The loop of at most three reselections.
    unfoldable pub reselect : ℕ → List Invoker → M W (Option Invoker)
    unfolding select_with not_nil is_invoked available mark_unhealthy get_other_invokers
    reselect zero others = pure none
    reselect (suc n) [] = pure none
    reselect (suc n) (o ∷ os) = do
      v ← select_with lb (o ∷ os) inv
      r ← not_nil v
      (if is_invoked r invoked then reselect n (get_other_invokers (o ∷ os) r) else do
        a ← available env r
        (if a
            then pure (some r)
            else do mark_unhealthy r; reselect n (get_other_invokers (o ∷ os) r)))

    -- doSelectInvoker. The black list's refresh, which it starts in a goroutine of its own, is
    -- another call, of Protocol.Status.
    unfoldable pub do_select_invoker : List Invoker → M W (Option Invoker)
    unfolding reselect
    do_select_invoker [] = pure none
    do_select_invoker (i ∷ []) = do
      a ← available env i
      (if a then pure (some i) else (do mark_unhealthy i; pure none))
    do_select_invoker (i ∷ j ∷ is) = do
      v ← select_with lb (i ∷ j ∷ is) inv
      selected ← not_nil v
      a ← available env selected
      check ← gets (λ (t : State W). t.available_check)
      (if (not a && check) || is_invoked selected invoked
          then (do mark_unhealthy selected; reselect 3 (get_other_invokers (i ∷ j ∷ is) selected))
          else pure (some selected))

    -- A sticky invoker that the directory no longer lists is forgotten.
    unfoldable pub drop_sticky : List Invoker → Option Invoker → M W (Option Invoker)
    unfolding is_invoked set_sticky
    drop_sticky invokers none = pure none
    drop_sticky invokers (some v) =
        if is_invoked v invokers then pure (some v) else do set_sticky none; pure none

    -- The sticky invoker, where it may be used: IsAvailable is asked only if the rest allows it.
    unfoldable pub usable_sticky : Bool → Option Invoker → M W (Option Invoker)
    unfolding available is_invoked
    usable_sticky sticky none = pure none
    usable_sticky sticky (some v) = do
      check ← gets (λ (t : State W). t.available_check)
      (if sticky && check
          then (do
            a ← available env v
            pure (if a && not (is_invoked v invoked) then some v else none))
          else pure none)

    unfoldable pub or_select : List Invoker → Bool → Option Invoker → M W (Option Invoker)
    unfolding do_select_invoker set_sticky
    or_select invokers sticky (some v) = pure (some v)
    or_select invokers sticky none = do
      selected ← do_select_invoker invokers
      (if sticky then (do set_sticky selected; pure selected) else pure selected)

    -- DoSelect.
    unfoldable pub do_select : List Invoker → M W (Option Invoker)
    unfolding is_sticky drop_sticky usable_sticky or_select
    do_select [] = pure none
    do_select (i ∷ is) = do
      old ← gets (λ (t : State W). t.sticky_invoker)
      kept ← drop_sticky (i ∷ is) old
      usable ← usable_sticky (is_sticky i inv) kept
      or_select (i ∷ is) (is_sticky i inv) usable
