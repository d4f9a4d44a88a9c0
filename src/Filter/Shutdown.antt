-- ===== src/Filter/Shutdown.antt =====
-- filter/gshutdown/filter.go: the filter of the graceful shutdown.
use incubator_dubbo_go.Prelude.{
  ◌≡◌, refl, ◌∙◌, ◌&&◌, Bool, true, false, List, [], ◌∷◌, Option, none, some, if◌then◌else◌, Text,
  codes, text_eq, Bool-cases, inl, inr,
}
use incubator_dubbo_go.Prelude.Int.{ℤ, pos, negsuc, ◌+ℤ◌, wrap32, leb_ℤ}
use incubator_dubbo_go.Url.{Url, is_empty}
use incubator_dubbo_go.Protocol.{Invocation, RpcResult, done}
use incubator_dubbo_go.Filter.{Handler}
use incubator_dubbo_go.Filter.Kinds.{rejected_execution}

pub record ShutdownConfig : Type 0 where
  pub reject_request_handler : Text
  pub reject_request : Bool
  pub requests_finished : Bool

-- What Set is given: a *ShutdownConfig, or a value of another type.
pub data Setting : Type 0 where
  shutdown_config : ShutdownConfig → Setting
  other_value : Setting

-- The filter, beside the rest of the world.
pub record Shutdown (W : Type 0) : Type 0 where
  pub active_count : ℤ  -- int32
  pub config : Option ShutdownConfig
  pub rest : W

unfoldable pub reject_new_request : Option ShutdownConfig → Bool
reject_new_request none = false
reject_new_request (some s) = s.reject_request

unfoldable pub reject_handler : Option ShutdownConfig → Text
reject_handler none = codes "default"
reject_handler (some s) =
    if is_empty s.reject_request_handler then codes "default" else s.reject_request_handler

unfoldable pub mark_finished : ℤ → Option ShutdownConfig → Option ShutdownConfig
mark_finished active none = none
mark_finished active (some s) =
    some (
      if s.reject_request && leb_ℤ active (pos 0) then record s { requests_finished = true } else s)

-- The type assertion of Set: its value is installed where it fails, and is nil then.
unfoldable pub set_config : Setting → Option ShutdownConfig → Option ShutdownConfig
set_config (shutdown_config s) old = old
set_config other_value old = none

module _ {W : Type 0} where
  -- Set
  unfoldable pub set_shutdown : Text → Setting → Shutdown W → Shutdown W
  unfolding set_config text_eq
  set_shutdown name conf f =
      if text_eq name (codes "GracefulShutdownFilterShutdownConfig")
      then record f { config = set_config conf f.config }
      else f

  -- Invoke
  unfoldable pub shutdown_invoke :
      (Text → Option (Url → Handler (Shutdown W)))
      → Url
      → Handler (Shutdown W)
      → Handler (Shutdown W)
  unfolding reject_new_request reject_handler rejected_execution
  shutdown_invoke handlers u next c =
      if reject_new_request c.world.config
      then rejected_execution handlers (reject_handler c.world.config) u c
      else next (record c {
        world = record (c.world) { active_count = wrap32 (c.world.active_count +ℤ pos 1) };
      })

  -- OnResponse
  unfoldable pub shutdown_response : Url → RpcResult → Handler (Shutdown W)
  unfolding mark_finished
  shutdown_response u r c =
      let active = wrap32 (c.world.active_count +ℤ negsuc 0) in
      done (
        r,
        record c {
          world = record (c.world) {
            active_count = active;
            config = mark_finished active c.world.config;
          };
        },
      )

  -- The settings that a process makes, in order.
  unfoldable pub set_all : List (Text × Setting) → Shutdown W → Shutdown W
  unfolding set_shutdown
  set_all [] f = f
  set_all ((name, conf) ∷ settings) f = set_all settings (set_shutdown name conf f)

set_config-none : (conf : Setting) (o : Option ShutdownConfig) → o ≡ none → set_config conf o ≡ none
unfolding set_config
set_config-none (shutdown_config s) o e = e
set_config-none other_value o e = refl

module _ {W : Type 0} where
  set_shutdown-config :
      (name : Text) (conf : Setting) (f : Shutdown W)
      → f.config ≡ none
      → ((set_shutdown name conf f).config ≡ none)
        × ((set_shutdown name conf f).active_count ≡ f.active_count)
  unfolding set_shutdown
  set_shutdown-config name conf f e =
      elim (Bool-cases (text_eq name (codes "GracefulShutdownFilterShutdownConfig"))) [
        | inl t ↦ rw (t, set_shutdown) (set_config-none conf f.config e, refl)
        | inr t ↦ rw (t, set_shutdown) (e, refl)
      ]

  set_all-config :
      (settings : List (Text × Setting)) (f : Shutdown W)
      → f.config ≡ none
      → ((set_all settings f).config ≡ none) × ((set_all settings f).active_count ≡ f.active_count)
  unfolding set_all
  set_all-config [] f e = (e, refl)
  set_all-config ((name, conf) ∷ settings) f e =
      let (e', n) = set_shutdown-config name conf f e in
      let (e'', n') = set_all-config settings (set_shutdown name conf f) e' in (e'', n' ∙ n)

  -- Whatever configurations are set on a filter that has none, it never rejects a request: it
  -- counts the request and hands it on.
  pub shutdown_invoke-set_all :
      (handlers : Text → Option (Url → Handler (Shutdown W))) (settings : List (Text × Setting))
      → (u : Url) (next : Handler (Shutdown W)) (inv : Invocation) (f : Shutdown W)
      → f.config ≡ none
      → shutdown_invoke handlers u next (record { inv = inv; world = set_all settings f })
        ≡ next (record {
          inv = inv;
          world = record (set_all settings f) { active_count = wrap32 (f.active_count +ℤ pos 1) };
        })
  unfolding shutdown_invoke
  shutdown_invoke-set_all handlers settings u next inv f e =
      let (none_yet, count) = set_all-config settings f e in
      rw (none_yet, count, shutdown_invoke) refl
