-- ===== src/RegistryProtocol.antt =====
-- registry/protocol/protocol.go: the protocol "registry", which exports services to a registry and
-- refers to them through one.
pub mod Urls
pub mod Export
pub mod Notify
pub mod Once
use incubator_dubbo_go.Prelude.{
  ℕ, Bool, true, false, List, [], ◌∷◌, ◌++◌, Option, none, some, Text, codes, lookup, insert,
  text_key,
}
use incubator_dubbo_go.Url.{Url, Values}
use incubator_dubbo_go.Protocol.{Invoker, Outcome, done, panic}
pub use incubator_dubbo_go.Stateful.{Stateful, ◌>>=◌, ◌>>◌, pure, fail, lift, gets, modify}

-- An Exporter: the object, and its invoker.
pub record Exporter : Type 0 where
  pub ref : ℕ
  pub invoker : Invoker

-- overrideSubscribeListener; its configurator is that of a URL.
pub record OverrideListener : Type 0 where
  pub url : Url
  pub origin_invoker : Invoker
  pub configurator : Option Url

-- What stands behind the packages that the protocol calls. Registries are numbers.
pub record Env (W : Type 0) : Type 0 where
  -- copier.Copy, as Clone needs it
  pub copy : Url → Url × Bool
  -- Values.Encode
  pub encode : Values → Text
  pub local_ip : Text
  -- extension.GetRegistry: `none` is an error
  pub get_registry : Url → W → Option ℕ × W
  -- Register: whether there was no error
  pub register : ℕ → Url → W → Bool × W
  -- Subscribe, of the listener with this number
  pub subscribe : ℕ → Url → ℕ → W → W
  -- GetDefaultRegistryDirectory: `none` is an error
  pub directory : Url → ℕ → W → Option ℕ × W
  -- GetCluster, which panics on a name that is not registered, and Join
  pub cluster : Text → Option (ℕ → W → Invoker × W)
  -- Export of the protocol with filters, of a wrapped invoker
  pub export : Invoker → W → Exporter × W
  pub unexport : Exporter → W → W
  -- registerServiceMap, whose error is only logged
  pub register_service_map : Url → W → W
  -- Configurators of the listeners for the provider and for a service
  pub provider_configurators : W → List Url
  pub service_configurators : Text → W → List Url
  pub registry_is_available : ℕ → W → Bool
  pub registry_destroy : ℕ → W → W
  -- the object of a wrapped invoker
  pub wrap : Invoker → Url → ℕ

-- registryProtocol, with the listeners in the order in which they were made, and the number of the
-- listener that each service's configuration listener notifies.
pub record RegistryProtocol (W : Type 0) : Type 0 where
  pub invokers : List Invoker
  pub registries : List (Text × ℕ)
  pub bounds : List (Text × Exporter)
  pub override_listeners : List OverrideListener
  pub service_configuration_listeners : List (Text × ℕ)
  pub world : W

abbrev pub Rp : Type 0 → Type 0 → Type 0
Rp W A = Stateful (RegistryProtocol W) A

module _ {W : Type 0} where
  abbrev pub on_world : {A : Type 0} → (W → A × W) → Rp W A
  on_world f s = let (a, w) = f s.world in done (a, record s { world = w })

  abbrev pub change_world : (W → W) → Rp W (Unit {0})
  change_world f s = done (tt, record s { world = f s.world })
