-- ===== src/Directory/Refresh.antt =====
-- registry/directory/directory.go: Notify, NotifyAll, List, IsAvailable and Destroy.
use incubator_dubbo_go.Prelude.{
  ◌||◌, Bool, true, false, List, [], ◌∷◌, ◌++◌, Option, none, some, if◌then◌else◌, Text, codes,
  text_eq, text_key, lookup, insert,
}
use incubator_dubbo_go.Url.{Url, get_param}
use incubator_dubbo_go.Protocol.{Invoker, Invocation, Outcome, done, panic}
use incubator_dubbo_go.Router.{RouterChain, route, set_invokers}
use incubator_dubbo_go.Directory.{
  Env, RegistryDirectory, Dm, ◌>>=◌, ◌>>◌, pure, fail, lift, gets, modify, world_call,
}
use incubator_dubbo_go.Directory.Event.{EventType, update, ServiceEvent, update_event, event_key}
use incubator_dubbo_go.Directory.Cache.{
  override_directory_url, reference_url, merged_url, convert_url, uncache_invoker_with_key,
  do_cache_invoker, cache_invoker_by_event,
}

-- The invokers of each group, in the order in which they are found.
unfoldable pub add_to_group :
    Text → Invoker → List (Text × List Invoker) → List (Text × List Invoker)
unfolding lookup insert
add_to_group group i groups = elim (lookup group groups) [
  | none ↦ insert group (i ∷ []) groups
  | some is ↦ insert group (is ++ i ∷ []) groups
]

unfoldable pub group_invokers :
    List (Text × Invoker) → List (Text × List Invoker) → List (Text × List Invoker)
unfolding add_to_group get_param
group_invokers [] groups = groups
group_invokers ((k, i) ∷ cache) groups =
    group_invokers cache (add_to_group (get_param i.url (codes "group") []) i groups)

abbrev pub option_list : Option Invoker → List Invoker
option_list none = []
option_list (some i) = i ∷ []

abbrev pub is_update : EventType → Bool
is_update update = true
is_update _ = false

module _ {W : Type 0} (env : Env W) where
  unfoldable pub cluster_name : Dm W Text
  unfolding reference_url get_param
  cluster_name = do
    reference ← reference_url env
    pure (get_param reference (codes "cluster") (codes "failover"))

  -- Each group as the invoker of a cluster over it; a group without routers is left out.
  unfoldable pub join_groups : List (Text × List Invoker) → Dm W (List Invoker)
  unfolding cluster_name
  join_groups [] = pure []
  join_groups ((group, is) ∷ groups) = do
    name ← cluster_name
    join ← lift (env.cluster name)
    has ← gets (λ d. env.has_routers d.world)
    joined ← (if has then (do i ← world_call (join is); pure (i ∷ [])) else pure [])
    rest ← join_groups groups
    pure (joined ++ rest)

  -- toGroupInvokers: a single group needs no cluster of its own.
  unfoldable pub to_group_invokers : List (Text × List Invoker) → Dm W (List Invoker)
  unfolding join_groups
  to_group_invokers ((group, is) ∷ []) = pure is
  to_group_invokers groups = join_groups groups

  unfoldable pub set_chain : List Invoker → Option RouterChain → Outcome (Option RouterChain)
  unfolding set_invokers
  set_chain is none = panic
  set_chain is (some c) = done (some (set_invokers is c))

  -- setNewInvokers
  unfoldable pub put_invokers : List Invoker → Dm W (Unit {0})
  unfolding set_chain
  put_invokers is d = elim (set_chain is d.router_chain) [
    | panic ↦ panic
    | done c ↦ done (tt, record d { cache_invokers = is; router_chain = c })
  ]

  unfoldable pub set_new_invokers : Dm W (Unit {0})
  unfolding group_invokers to_group_invokers put_invokers
  set_new_invokers = do
    cache ← gets (λ d. d.cache_invokers_map)
    is ← to_group_invokers (group_invokers cache [])
    put_invokers is

  unfoldable pub destroy_all : List Invoker → RegistryDirectory W → RegistryDirectory W
  destroy_all is d = record d { destroyed = d.destroyed ++ is }

  -- refreshInvokers, which Notify calls with its event, and the configuration listeners with nil.
  unfoldable pub refresh_invokers : Option ServiceEvent → Dm W (Unit {0})
  unfolding cache_invoker_by_event set_new_invokers destroy_all
  refresh_invokers none = set_new_invokers
  refresh_invokers (some e) = do
    old ← cache_invoker_by_event env e
    set_new_invokers
    modify (destroy_all (option_list old))

  -- The first loop of refreshAllInvokers: each event gets its merged URL and its key. An event of
  -- another type panics, and so does one whose URL is none of a provider.
  unfoldable pub merge_event : Url → ServiceEvent → Dm W ServiceEvent
  unfolding convert_url merged_url update_event
  merge_event reference e =
      if is_update e.action
      then (do
        converted ← convert_url env e.service
        url ← lift converted
        new ← merged_url env url reference
        pure (update_event new e))
      else fail

  unfoldable pub merge_events : Url → List ServiceEvent → Dm W (List ServiceEvent)
  unfolding merge_event
  merge_events reference [] = pure []
  merge_events reference (e ∷ es) = do
    e' ← merge_event reference e
    es' ← merge_events reference es
    pure (e' ∷ es')

  -- eventMatched, of events whose URLs are merged.
  unfoldable pub event_matched : Text → List ServiceEvent → Bool
  event_matched k [] = false
  event_matched k (e ∷ es) = text_eq (event_key env.timestamp_of e).0 k || event_matched k es

  -- The cached invokers that no event names leave the cache. Range runs over the entries at its
  -- start.
  unfoldable pub drop_unmatched : List ServiceEvent → List (Text × Invoker) → Dm W (List Invoker)
  unfolding event_matched uncache_invoker_with_key
  drop_unmatched es [] = pure []
  drop_unmatched es ((k, _) ∷ entries) =
      if event_matched k es then drop_unmatched es entries else (do
        old ← uncache_invoker_with_key env k
        olds ← drop_unmatched es entries
        pure (option_list old ++ olds))

  -- The events whose keys are not in the cache.
  unfoldable pub added_events : List ServiceEvent → List (Text × Invoker) → List ServiceEvent
  unfolding lookup
  added_events [] cache = []
  added_events (e ∷ es) cache =
      let rest = added_events es cache in
      elim (lookup (event_key env.timestamp_of e).0 cache) [ some _ ↦ rest | none ↦ e ∷ rest ]

  unfoldable pub cache_events : List ServiceEvent → Dm W (List Invoker)
  unfolding do_cache_invoker
  cache_events [] = pure []
  cache_events (e ∷ es) = do
    p ← do_cache_invoker env e.service e
    olds ← cache_events es
    pure (option_list p.0 ++ olds)

  -- The locked part of refreshAllInvokers: the cache after the events, and what leaves it.
  unfoldable pub refresh_cache : List ServiceEvent → Dm W (List Invoker)
  unfolding drop_unmatched added_events cache_events
  refresh_cache es = do
    before ← gets (λ d. d.cache_invokers_map)
    dropped ← drop_unmatched es before
    kept ← gets (λ d. d.cache_invokers_map)
    replaced ← cache_events (added_events es kept)
    pure (dropped ++ replaced)

  -- refreshAllInvokers, without its callback.
  unfoldable pub refresh_all_invokers : List ServiceEvent → Dm W (Unit {0})
  unfolding override_directory_url reference_url merge_events refresh_cache set_new_invokers
      destroy_all
  refresh_all_invokers events = do
    override_directory_url env
    reference ← reference_url env
    es ← merge_events reference events
    olds ← refresh_cache es
    set_new_invokers
    modify (destroy_all olds)

  -- List
  unfoldable pub list : Url → Invocation → RegistryDirectory W → List Invoker
  unfolding route
  list consumer_url inv d = elim d.router_chain [
    | none ↦ d.cache_invokers
    | some c ↦ route c consumer_url inv
  ]

  unfoldable pub any_available : List Invoker → Dm W Bool
  any_available [] = pure false
  any_available (i ∷ is) = do
    a ← world_call (env.is_available i)
    (if a then pure true else any_available is)

  -- IsAvailable
  unfoldable pub directory_is_available : Dm W Bool
  unfolding any_available
  directory_is_available d =
      if d.is_destroyed then done (false, d) else any_available d.cache_invokers d

  -- Destroy
  unfoldable pub destroy_directory : RegistryDirectory W → RegistryDirectory W
  destroy_directory d = if d.is_destroyed then d else record d {
    is_destroyed = true;
    cache_invokers = [];
    destroyed = d.destroyed ++ d.cache_invokers;
  }
