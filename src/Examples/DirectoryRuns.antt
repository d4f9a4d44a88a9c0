-- ===== src/Examples/DirectoryRuns.antt =====
-- The registry directory on two providers.
use incubator_dubbo_go.Prelude.{ℕ, suc, refl, true, false, [], ◌∷◌, none, some}
use incubator_dubbo_go.Url.{Url}
use incubator_dubbo_go.Directory.{Env, RegistryDirectory}
use incubator_dubbo_go.Directory.Event.{update, ServiceEvent}
use incubator_dubbo_go.Directory.Refresh.{event_matched, refresh_cache}
use incubator_dubbo_go.Directory.Keys.{Refers, Caches, refresh_cache-Caches}
use incubator_dubbo_go.Examples.{plain_url, url_at, empty_registry, first_invoker}
use incubator_dubbo_go.Prelude.{codes}

-- Refer numbers the invokers that it makes.
abbrev directory_env : Env ℕ
directory_env = record {
  copy = λ u. (u, true);
  timestamp_of = λ t. t;
  refer = λ u w. (some (record { ref = w; url = u }), suc w);
  compare_url_equal = λ u v. false;
  default_configurator = λ u v. v;
  listener_configurators = λ w. [];
  cluster = λ name. none;
  has_routers = λ w. false;
  is_available = λ i w. (true, w);
}

abbrev provider_at : Url → ServiceEvent
provider_at u = record {
  action = update;
  service = u;
  cached_key = [];
  updated = true;
  key_func = none;
}

-- One provider is cached, under a key of its own.
abbrev one_provider : RegistryDirectory ℕ
one_provider = record {
  directory_url = plain_url;
  cache_invokers = first_invoker ∷ [];
  cache_invokers_map = (codes "gone", first_invoker) ∷ [];
  cache_origin_url = none;
  configurators = [];
  router_chain = none;
  is_destroyed = false;
  registry = empty_registry;
  destroyed = [];
  world = 2;
}

sample_refers : Refers directory_env
sample_refers u w = (record { ref = w; url = u }, refl)

refresh_cache-Caches_example :
    Caches directory_env
      (refresh_cache directory_env
        (provider_at (url_at (codes "10.0.0.2")) ∷ provider_at (url_at (codes "10.0.0.3")) ∷ []))
      one_provider
      (λ k.
        event_matched directory_env k
          (provider_at (url_at (codes "10.0.0.2")) ∷ provider_at (url_at (codes "10.0.0.3")) ∷ []))
refresh_cache-Caches_example =
    refresh_cache-Caches directory_env
      (provider_at (url_at (codes "10.0.0.2")) ∷ provider_at (url_at (codes "10.0.0.3")) ∷ [])
      one_provider sample_refers
