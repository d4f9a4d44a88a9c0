-- ===== src/RegistryProtocol/Once.antt =====
-- registry/protocol/protocol.go, Export: a service is exported once.
use incubator_dubbo_go.Prelude.{
  ◌≡◌, Option, none, some, if◌then◌else◌, Text, text_eq, text_key, lookup,
}
use incubator_dubbo_go.Url.{Url}
use incubator_dubbo_go.Stateful.Leads.{Leads}
use incubator_dubbo_go.RegistryProtocol.{Exporter, Env, RegistryProtocol}

module _ {W : Type 0} (env : Env W) where
  -- The exporters are as they were.
  abbrev Kept : {A : Type 0} → RegistryProtocol W → A → RegistryProtocol W → Type 0
  Kept s a s' = s'.bounds ≡ s.bounds

  -- The exporter for the key is in the map, where it was if the map had one; for other keys the map
  -- is as it was.
  abbrev pub Bound : Text → RegistryProtocol W → Exporter → RegistryProtocol W → Type 0
  Bound k s e s' =
      ((j : Text) → lookup j s'.bounds ≡ (if text_eq k j then some e else lookup j s.bounds))
      × ((old : Exporter) → lookup k s.bounds ≡ some old → e ≡ old)

  -- What an export does with the exporters: it refuses and leaves them, or its exporter is bound.
  abbrev pub Exports : Text → RegistryProtocol W → Option Exporter → RegistryProtocol W → Type 0
  Exports k s none s' = s'.bounds ≡ s.bounds
  Exports k s (some e) s' = Bound k s e s'
