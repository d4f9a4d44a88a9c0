-- ===== src/Directory.antt =====
-- registry/directory/directory.go: the directory that keeps the invokers of a service as the
-- registry reports its providers.
pub mod Event
pub mod Cache
pub mod Refresh
pub mod Static
pub mod Keys
use incubator_dubbo_go.Prelude.{Bool, List, [], ◌∷◌, ◌++◌, Option, none, some, Text}
use incubator_dubbo_go.Url.{Url}
use incubator_dubbo_go.Protocol.{Invoker, Invocation, Outcome, done, panic}
use incubator_dubbo_go.Protocol.Status.{Registry}
pub use incubator_dubbo_go.Stateful.{Stateful, ◌>>=◌, ◌>>◌, pure, fail, lift, gets, modify}
use incubator_dubbo_go.Router.{RouterChain}

-- A Configurator, as it changes a URL.
abbrev pub Configurator : Type 0
Configurator = Url → Url

-- What stands behind the interfaces and packages that the directory uses.
pub record Env (W : Type 0) : Type 0 where
  -- copier.Copy, as Clone needs it
  pub copy : Url → Url × Bool
  -- the time stamp in a PrimitiveURL
  pub timestamp_of : Text → Text
  -- Refer of the protocol with filters: `none` is nil
  pub refer : Url → W → Option Invoker × W
  pub compare_url_equal : Url → Url → Bool
  pub default_configurator : Url → Configurator
  -- the configurators of the two configuration listeners
  pub listener_configurators : W → List Configurator
  -- GetCluster, which panics on a name that is not registered, and Join over a static directory
  pub cluster : Text → Option (List Invoker → W → Invoker × W)
  -- whether BuildRouterChain finds routers
  pub has_routers : W → Bool
  pub is_available : Invoker → W → Bool × W

-- RegistryDirectory, the package variables of protocol/rpc_status.go, and the invokers that have
-- been destroyed, in order, which the program does not keep.
pub record RegistryDirectory (W : Type 0) : Type 0 where
  pub directory_url : Url
  pub cache_invokers : List Invoker
  pub cache_invokers_map : List (Text × Invoker)
  pub cache_origin_url : Option Url
  pub configurators : List Configurator
  pub router_chain : Option RouterChain
  pub is_destroyed : Bool
  pub registry : Registry
  pub destroyed : List Invoker
  pub world : W

abbrev pub Dm : Type 0 → Type 0 → Type 0
Dm W A = Stateful (RegistryDirectory W) A

module _ {W : Type 0} where
  abbrev pub world_call : {A : Type 0} → (W → A × W) → Dm W A
  world_call f d = let (a, w) = f d.world in done (a, record d { world = w })
