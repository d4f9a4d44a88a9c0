-- ===== src/Cluster.antt =====
-- cluster/cluster: what a cluster invoker reads and changes, and the calls that its strategies are
-- made of.
pub mod Ensures
pub mod Select
pub mod LoadBalances
pub mod Failover
pub mod Strategies
pub mod ZoneAware
pub mod Forking
pub mod Failback
use incubator_dubbo_go.Prelude.{Bool, true, false, List, [], ◌∷◌, ◌++◌, Option, none, some, Text}
use incubator_dubbo_go.Url.{Url}
use incubator_dubbo_go.Protocol.{Invoker, Invocation, RpcResult, Outcome, done, panic}
use incubator_dubbo_go.Protocol.Status.{Registry, set_invoker_unhealthy_status}
pub use incubator_dubbo_go.Stateful.{Stateful, ◌>>=◌, ◌>>◌, pure, gets}
use incubator_dubbo_go.LoadBalance.{LoadBalance}

-- What stands behind the interfaces Directory, Invoker and LoadBalance. `W` is the state of all of
-- it, which each call may change, as may any other goroutine in the meantime.
pub record Env (W : Type 0) : Type 1 where
  pub directory_url : Url
  pub list : Invocation → W → List Invoker × W
  pub is_available : Invoker → W → Bool × W
  pub invoke : Invoker → Invocation → W → RpcResult × W
  pub destroyed : W → Bool
  -- extension.GetLoadbalance: a name that is not registered is a panic.
  pub load_balance : Text → Option (LoadBalance W)

-- ClusterInvoker's fields, the package variables of protocol/rpc_status.go, and the invokers that
-- have been called so far, in order, which the program does not keep.
pub record State (W : Type 0) : Type 0 where
  pub world : W
  pub available_check : Bool
  pub sticky_invoker : Option Invoker
  pub registry : Registry
  pub calls : List Invoker

abbrev pub M : Type 0 → Type 0 → Type 0
M W A = Stateful (State W) A

module _ {W : Type 0} where
  -- A call of the world, which leaves the rest of the state alone.
  abbrev pub world_call : {A : Type 0} → (W → A × W) → M W A
  world_call f s = let (a, w) = f s.world in done (a, record s { world = w })

  -- A method call on a nil interface is a panic.
  unfoldable pub not_nil : Option Invoker → M W Invoker
  not_nil none s = panic
  not_nil (some i) s = done (i, s)

  unfoldable pub set_sticky : Option Invoker → M W (Unit {0})
  set_sticky v s = done (tt, record s { sticky_invoker = v })

  unfoldable pub mark_unhealthy : Invoker → M W (Unit {0})
  mark_unhealthy i s = done (tt, record s { registry = set_invoker_unhealthy_status i s.registry })

  unfoldable pub select_with : LoadBalance W → List Invoker → Invocation → M W (Option Invoker)
  select_with lb invokers inv s = elim (lb.select invokers inv s.world) [
    | panic ↦ panic
    | done (v, w) ↦ done (v, record s { world = w })
  ]

  unfoldable pub got_load_balance : Option (LoadBalance W) → M W (LoadBalance W)
  got_load_balance none s = panic
  got_load_balance (some lb) s = done (lb, s)

module _ {W : Type 0} (env : Env W) where
  unfoldable pub list_invokers : Invocation → M W (List Invoker)
  list_invokers inv = world_call (env.list inv)

  unfoldable pub available : Invoker → M W Bool
  available i = world_call (env.is_available i)

  unfoldable pub is_destroyed : M W Bool
  is_destroyed s = done (env.destroyed s.world, s)

  -- `ivk.Invoke`, with the record of the call.
  unfoldable pub invoke : Invoker → Invocation → M W RpcResult
  invoke i inv s =
      let (r, w) = env.invoke i inv s.world in
      done (r, record s { world = w; calls = s.calls ++ i ∷ [] })
