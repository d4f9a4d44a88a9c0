-- ===== src/Directory/Cache.antt =====
-- registry/directory/directory.go: what one event does to the cache.
use incubator_dubbo_go.Prelude.{
  ◌||◌, Bool, true, false, List, [], ◌∷◌, ◌++◌, Option, none, some, if◌then◌else◌, Text, codes,
  text_eq, text_key, lookup, insert, erase,
}
use incubator_dubbo_go.Url.{Url, get_param, sub_url, is_empty}
use incubator_dubbo_go.Url.Merge.{merge_url}
use incubator_dubbo_go.Protocol.{Invoker, done}
use incubator_dubbo_go.Protocol.Status.{remove_url_key_unhealthy_status}
use incubator_dubbo_go.Directory.{
  Configurator, Env, RegistryDirectory, Dm, ◌>>=◌, ◌>>◌, pure, lift, gets, modify, world_call,
}
use incubator_dubbo_go.Directory.Event.{
  add, delete, update, other, ServiceEvent, update_event, event_key,
}

-- doOverrideUrl
unfoldable pub do_override_url : List Configurator → Url → Url
do_override_url [] u = u
do_override_url (c ∷ cs) u = do_override_url cs (c u)

module _ {W : Type 0} (env : Env W) where
  -- overrideUrl
  unfoldable pub override_url : Url → RegistryDirectory W → Url
  unfolding do_override_url
  override_url u d =
      do_override_url (env.listener_configurators d.world) (do_override_url d.configurators u)

  unfoldable pub override_directory_url : Dm W (Unit {0})
  unfolding override_url
  override_directory_url = modify (λ d. record d { directory_url = override_url d.directory_url d })

  -- `GetDirectoryUrl().SubURL`, which the code reads without a check for nil.
  unfoldable pub reference_url : Dm W Url
  unfolding sub_url
  reference_url d = lift (sub_url d.directory_url) d

  -- MergeURL of a URL with the reference, overridden.
  unfoldable pub merged_url : Url → Url → Dm W Url
  unfolding merge_url override_url
  merged_url u reference = do
    merged ← lift (merge_url env.copy u reference)
    gets (override_url merged)

  -- convertUrl: an override:// or router:// URL is none of a provider.
  unfoldable pub convert_url : Url → Dm W (Option Url)
  unfolding get_param text_eq
  convert_url u =
      let category = get_param u (codes "category") (codes "providers") in
      if text_eq u.protocol (codes "override") || text_eq category (codes "configurators")
      then (do
        modify
            (λ d. record d { configurators = d.configurators ++ env.default_configurator u ∷ [] })
        pure none)
      else if text_eq u.protocol (codes "router") || text_eq category (codes "category")
      then pure none
      else pure (some u)

  -- uncacheInvokerWithKey
  unfoldable pub uncache_invoker_with_key : Text → Dm W (Option Invoker)
  unfolding lookup erase remove_url_key_unhealthy_status
  uncache_invoker_with_key k d = done (
    lookup k d.cache_invokers_map,
    record d {
      registry = remove_url_key_unhealthy_status k d.registry;
      cache_invokers_map = erase k d.cache_invokers_map;
    },
  )

  unfoldable pub uncache_invoker : ServiceEvent → Dm W (Option Invoker)
  unfolding uncache_invoker_with_key
  uncache_invoker e = uncache_invoker_with_key (event_key env.timestamp_of e).0

  -- The new invoker for a key, if Refer makes one.
  unfoldable pub store_invoker : Text → Option Invoker → RegistryDirectory W → RegistryDirectory W
  unfolding insert
  store_invoker k none d = d
  store_invoker k (some i) d = record d { cache_invokers_map = insert k i d.cache_invokers_map }

  unfoldable pub refer_for : Text → Url → Dm W (Option Invoker)
  unfolding store_invoker
  refer_for k u = do i ← world_call (env.refer u); modify (store_invoker k i); pure i

  -- doCacheInvoker: the invoker that was replaced, and whether it was found.
  unfoldable pub do_cache_invoker : Url → ServiceEvent → Dm W (Option Invoker × Bool)
  unfolding lookup
  do_cache_invoker u e = do
    let k = (event_key env.timestamp_of e).0
    cached ← gets (λ d. lookup k d.cache_invokers_map)
    elim cached [
      | none ↦ do _ ← refer_for k u; pure (none, false)
      | some old ↦ if env.compare_url_equal u old.url then pure (none, true) else (do
        new ← refer_for k u
        elim new [ none ↦ pure (none, false) | some _ ↦ pure (some old, true) ])
    ]

  -- The URL of an event: its own, or the one that was cached before if it has none.
  unfoldable pub remember_url : Option Url → Dm W (Option Url)
  remember_url (some u) d = done (some u, record d { cache_origin_url = some u })
  remember_url none d = done (d.cache_origin_url, d)

  -- cacheInvoker: the invoker that was replaced.
  unfoldable pub cache_invoker : Option Url → ServiceEvent → Dm W (Option Invoker)
  unfolding override_directory_url reference_url remember_url merged_url do_cache_invoker text_eq
      update_event
  cache_invoker u e = do
    override_directory_url
    reference ← reference_url
    origin ← remember_url u
    elim origin [
      | none ↦ pure none
      | some url ↦
          if text_eq url.protocol reference.protocol || is_empty reference.protocol
          then (do
            new ← merged_url url reference
            p ← do_cache_invoker new (update_event new e)
            pure (if p.1 then p.0 else none))
          else pure none
    ]

  -- cacheInvokerByEvent; an event of another type is an error, which the caller drops.
  unfoldable pub cache_invoker_by_event : ServiceEvent → Dm W (Option Invoker)
  unfolding convert_url cache_invoker uncache_invoker
  cache_invoker_by_event e = elim e.action [
    | add ↦ do u ← convert_url e.service; cache_invoker u e
    | update ↦ do u ← convert_url e.service; cache_invoker u e
    | delete ↦ uncache_invoker e
    | other ↦ pure none
  ]
