-- ===== src/RegistryProtocol/Notify.antt =====
-- registry/protocol/protocol.go: what the listeners do when overriding rules change.
use incubator_dubbo_go.Prelude.{
  ℕ, zero, suc, ◌&&◌, Bool, true, false, List, [], ◌∷◌, Option, none, some, if◌then◌else◌,
  get_elem?, set, length, text_eq, text_key, lookup,
}
use incubator_dubbo_go.Url.{Url, service_key}
use incubator_dubbo_go.Url.Merge.{clone}
use incubator_dubbo_go.Url.Compare.{url_string}
use incubator_dubbo_go.Protocol.{Invoker, done}
use incubator_dubbo_go.Configurator.{configure}
use incubator_dubbo_go.Directory.Event.{EventType, add, ServiceEvent}
use incubator_dubbo_go.RegistryProtocol.{OverrideListener, Env, Rp, ◌>>=◌, ◌>>◌, pure, lift, gets}
use incubator_dubbo_go.RegistryProtocol.Urls.{
  provider_url, cache_key, set_provider_url, is_matched, with_category,
}
use incubator_dubbo_go.RegistryProtocol.Export.{override_by, re_export}

abbrev pub is_add : EventType → Bool
is_add add = true
is_add _ = false

module _ {W : Type 0} (env : Env W) where
  unfoldable pub listener_at : ℕ → Rp W OverrideListener
  listener_at n s = lift (get_elem? s.override_listeners n) s

  unfoldable pub configure_if_some : Option Url → Url → Option Url
  unfolding configure
  configure_if_some none u = some u
  configure_if_some (some conf) u = configure env.copy env.local_ip conf u

  unfoldable pub override_by_service : Url → Rp W Url
  unfolding override_by service_key lookup
  override_by_service u = do
    known ← gets (λ s. lookup (service_key u) s.service_configuration_listeners)
    elim known [
      | none ↦ pure u
      | some _ ↦ override_by env (env.service_configurators (service_key u)) u
    ]

  unfoldable pub re_export_if_changed : Url → Url → Invoker → Rp W (Unit {0})
  unfolding url_string text_eq clone re_export set_provider_url
  re_export_if_changed current provider i =
      if text_eq (url_string env.encode current) (url_string env.encode provider)
      then pure tt
      else (do c ← lift (clone env.copy i.url); re_export env i (set_provider_url c provider))

  -- doOverrideIfNecessary, of the listener with a number
  unfoldable pub do_override_if_necessary : ℕ → Rp W (Unit {0})
  unfolding listener_at provider_url cache_key configure_if_some override_by override_by_service
      re_export_if_changed lookup
  do_override_if_necessary n = do
    l ← listener_at n
    provider ← lift (provider_url env.copy l.origin_invoker.url)
    k ← lift (cache_key env.copy env.encode l.origin_invoker.url)
    bound ← gets (λ s. lookup k s.bounds)
    elim bound [
      | none ↦ pure tt
      | some e ↦ do
        provider1 ← lift (configure_if_some l.configurator provider)
        provider2 ← override_by env env.provider_configurators provider1
        provider3 ← override_by_service provider2
        re_export_if_changed e.invoker.url provider3 l.origin_invoker
    ]

  unfoldable pub set_configurator : ℕ → OverrideListener → Url → Rp W (Unit {0})
  set_configurator n l u s = done (
    tt,
    record s {
      override_listeners = set s.override_listeners n (record l { configurator = some u });
    },
  )

  -- Notify
  unfoldable pub notify : ℕ → ServiceEvent → Rp W (Unit {0})
  unfolding listener_at is_matched with_category set_configurator do_override_if_necessary
  notify n e = do
    l ← listener_at n
    if is_matched e.service l.url && is_add e.action
        then (do set_configurator n l (with_category e.service); do_override_if_necessary n)
        else pure tt

  -- NotifyAll, without its callback.
  unfoldable pub notify_all : ℕ → List ServiceEvent → Rp W (Unit {0})
  unfolding notify
  notify_all n [] = pure tt
  notify_all n (e ∷ es) = do notify n e; notify_all n es

  -- Process of the provider's configuration listener: of each listener that is there at its start.
  unfoldable pub override_all : ℕ → ℕ → Rp W (Unit {0})
  unfolding do_override_if_necessary
  override_all n zero = pure tt
  override_all n (suc more) = do do_override_if_necessary n; override_all (suc n) more

  unfoldable pub process_provider : Rp W (Unit {0})
  unfolding override_all
  process_provider = do count ← gets (λ s. length s.override_listeners); override_all 0 count
