-- ===== src/RegistryProtocol/Export.antt =====
-- registry/protocol/protocol.go: Refer, Export, reExport and Destroy.
use incubator_dubbo_go.Prelude.{
  ℕ, List, [], ◌∷◌, ◌++◌, Option, none, some, if◌then◌else◌, length, Text, codes, text_key, lookup,
  insert, erase,
}
use incubator_dubbo_go.Url.{Url, sub_url, get_param, key, service_key, is_empty}
use incubator_dubbo_go.Protocol.{Invoker, done}
use incubator_dubbo_go.Configurator.{configure_all}
use incubator_dubbo_go.RegistryProtocol.{
  Exporter, OverrideListener, Env, RegistryProtocol, Rp, ◌>>=◌, ◌>>◌, pure, lift, gets, modify,
  on_world, change_world,
}
use incubator_dubbo_go.RegistryProtocol.Urls.{
  registry_url, provider_url, cache_key, url_to_registry, subscribed_override_url,
}

module _ {W : Type 0} (env : Env W) where
  -- The registry of a URL, from the map or made by getRegistry, which panics on an error.
  unfoldable pub store_registry : Text → ℕ → Rp W ℕ
  unfolding insert
  store_registry k r s = done (r, record s { registries = insert k r s.registries })

  unfoldable pub known_or_made : Url → Option ℕ → Rp W ℕ
  unfolding store_registry key
  known_or_made u (some r) = pure r
  known_or_made u none = do
    made ← on_world (env.get_registry u)
    r ← lift made
    store_registry (key u) r

  unfoldable pub registry_for : Url → Rp W ℕ
  unfolding known_or_made lookup key
  registry_for u s = known_or_made u (lookup (key u) s.registries) s

  -- The invoker over a directory, which the protocol remembers.
  unfoldable pub join_directory : Url → ℕ → Rp W (Option Invoker)
  unfolding get_param
  join_directory service d = do
    join ← lift (env.cluster (get_param service (codes "cluster") (codes "failover")))
    i ← on_world (join d)
    modify (λ s. record s { invokers = s.invokers ++ i ∷ [] })
    pure (some i)

  -- Refer: `none` is nil. Without a SubURL it panics, here before it does anything.
  unfoldable pub refer : Url → Rp W (Option Invoker)
  unfolding registry_for join_directory registry_url sub_url
  refer u = do
    service ← lift (sub_url u)
    reg ← registry_for (registry_url u)
    dir ← on_world (env.directory (registry_url u) reg)
    elim dir [
      | none ↦ pure none
      | some d ↦ do _ ← on_world (env.register reg service); join_directory service d
    ]

  -- The number of a new override listener.
  unfoldable pub add_listener : OverrideListener → Rp W ℕ
  add_listener l s = done (
    length s.override_listeners,
    record s { override_listeners = s.override_listeners ++ l ∷ [] },
  )

  unfoldable pub override_by : (W → List Url) → Url → Rp W Url
  unfolding configure_all
  override_by configurators u s =
      lift (configure_all env.copy env.local_ip (configurators s.world) u) s

  unfoldable pub store_service_listener : Text → ℕ → Rp W (Unit {0})
  unfolding insert
  store_service_listener k n s = done (
    tt,
    record s { service_configuration_listeners = insert k n s.service_configuration_listeners },
  )

  -- The registration of a provider: its registry, if it has one, or `none` if that refuses.
  unfoldable pub register_provider : Url → Url → Rp W (Option (Option ℕ))
  unfolding registry_for url_to_registry
  register_provider provider registry = if is_empty registry.protocol then pure (some none) else (do
    reg ← registry_for registry
    u ← lift (url_to_registry env.copy provider registry)
    registered ← on_world (env.register reg u)
    pure (if registered then some (some reg) else none))

  abbrev pub wrapped : Invoker → Url → Invoker
  wrapped i u = record { ref = env.wrap i u; url = u }

  unfoldable pub store_exporter : Text → Exporter → Rp W Exporter
  unfolding insert
  store_exporter k e s = done (e, record s { bounds = insert k e s.bounds })

  -- The exporter for a key, from the map or of the wrapped invoker.
  unfoldable pub bound_or_exported : Text → Invoker → Option Exporter → Rp W Exporter
  unfolding store_exporter
  bound_or_exported k i (some e) = pure e
  bound_or_exported k i none = do e ← on_world (env.export i); store_exporter k e

  unfoldable pub exporter_for : Text → Invoker → Rp W Exporter
  unfolding bound_or_exported lookup
  exporter_for k i s = bound_or_exported k i (lookup k s.bounds) s

  unfoldable pub subscribe_to : Option ℕ → Url → ℕ → Rp W (Unit {0})
  subscribe_to none u n = pure tt
  subscribe_to (some reg) u n = change_world (env.subscribe reg u n)

  -- Export, behind the registration.
  unfoldable pub finish_export :
      Option (Option ℕ) → Invoker → Url → Url → ℕ → Rp W (Option Exporter)
  unfolding cache_key exporter_for subscribe_to
  finish_export none i provider overrider n = pure none
  finish_export (some reg) i provider overrider n = do
    k ← lift (cache_key env.copy env.encode i.url)
    e ← exporter_for k (wrapped i provider)
    subscribe_to reg overrider n
    pure (some e)

  -- Export: `none` is nil.
  unfoldable pub export : Invoker → Rp W (Option Exporter)
  unfolding provider_url subscribed_override_url add_listener override_by store_service_listener
      service_key register_provider finish_export registry_url
  export i = do
    provider ← lift (provider_url env.copy i.url)
    overrider ← lift (subscribed_override_url env.copy provider)
    n ← add_listener (record { url = overrider; origin_invoker = i; configurator = none })
    provider1 ← override_by env.provider_configurators provider
    store_service_listener (service_key provider1) n
    provider2 ← override_by (env.service_configurators (service_key provider1)) provider1
    registered ← register_provider provider2 (registry_url i.url)
    finish_export registered i provider2 overrider n

  unfoldable pub drop_exporter : Text → Rp W (Unit {0})
  unfolding erase
  drop_exporter k s = done (tt, record s { bounds = erase k s.bounds })

  -- reExport
  unfoldable pub re_export : Invoker → Url → Rp W (Unit {0})
  unfolding cache_key drop_exporter export lookup provider_url
  re_export i new_url = do
    k ← lift (cache_key env.copy env.encode i.url)
    bound ← gets (λ s. lookup k s.bounds)
    elim bound [
      | none ↦ pure tt
      | some old ↦ do
        change_world (env.unexport old)
        drop_exporter k
        provider ← lift (provider_url env.copy i.url)
        change_world (env.register_service_map provider)
        _ ← export (wrapped i new_url)
        pure tt
    ]

  -- Destroy
  unfoldable pub destroy_registries : List (Text × ℕ) → W → W
  destroy_registries [] w = w
  destroy_registries ((k, r) ∷ rs) w =
      destroy_registries rs (if env.registry_is_available r w then env.registry_destroy r w else w)

  unfoldable pub destroy_protocol : RegistryProtocol W → RegistryProtocol W
  unfolding destroy_registries
  destroy_protocol s = record s {
    invokers = [];
    bounds = [];
    registries = [];
    world = destroy_registries s.registries s.world;
  }
