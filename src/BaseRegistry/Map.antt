-- ===== src/BaseRegistry/Map.antt =====
-- registry/base_registry.go: Register and UnRegister as the operations of a map from keys to URLs.
use incubator_dubbo_go.Prelude.{
  ◌≡◌, refl, sym, ap, ◌∙◌, Bool, true, false, List, [], ◌∷◌, Option, none, some, if◌then◌else◌,
  Text, text_eq, text_key, lookup, insert, erase, lookup-insert, lookup-erase, Bool-cases, inl, inr,
  text_eq_iff,
}
use incubator_dubbo_go.Url.{Url, key}
use incubator_dubbo_go.Stateful.Leads.{Leads, Leads-same, Leads-done, Leads-bind}
use incubator_dubbo_go.BaseRegistry.{
  Env, BaseRegistry, Br, ◌>>=◌, pure, register_url, unregister_url, registered_address,
  store_service, register_unless, register, drop_service, restore_service, unregister_known,
  un_register,
}
use incubator_dubbo_go.BaseRegistry.Services.{process_url-Kept}

-- A map of services, without its representation.
abbrev pub View : Type 0
View = Text → Option Url

-- The map with one service more, and with one less.
abbrev pub with_service : Url → View → View
with_service u m k = if text_eq (key u) k then some u else m k

abbrev pub without_service : Url → View → View
without_service u m k = if text_eq (key u) k then none else m k

-- What a registration does to a map: it adds a service that was not there, or is refused.
abbrev pub Registers : Url → Bool → View → View → Type 0
Registers u true m m' = (m (key u) ≡ none) × (m' ≡ with_service u m)
Registers u false m m' = m' ≡ m

-- What its end does: it removes a service that was there, or is refused.
abbrev pub Unregisters : Url → Bool → View → View → Type 0
Unregisters u true m m' = ((old : Url) × (m (key u) ≡ some old)) × (m' ≡ without_service u m)
Unregisters u false m m' = m' ≡ m

same_view : {m m' : View} → ((k : Text) → m k ≡ m' k) → m ≡ m'
same_view h i k = h k i

view-erase :
    (c : Url) (m : List (Text × Url))
    → (λ k. lookup k (erase (key c) m)) ≡ without_service c (λ k. lookup k m)
view-erase c m = same_view (λ k. lookup-erase (key c) k m)

abbrev put_service : Url → Url → View → View
put_service c u m k = if text_eq (key c) k then some u else m k

view-insert :
    (c u : Url) (m : List (Text × Url))
    → (λ k. lookup k (insert (key c) u m)) ≡ put_service c u (λ k. lookup k m)
view-insert c u m = same_view (λ k. lookup-insert (key c) k u m)

-- Erasing a key changes nothing that is put back.
absent :
    (c : Url) (m : List (Text × Url)) (o : Option Url)
    → lookup (key c) m ≡ o
    → (k : Text)
    → (if text_eq (key c) k then o else (if text_eq (key c) k then none else lookup k m))
      ≡ lookup k m
absent c m o n k = elim (Bool-cases (text_eq (key c) k)) [
  | inl e ↦ rw e (sym (rw ((text_eq_iff (key c) k).0 e) at n))
  | inr e ↦ rw e refl
]

absent_none :
    (c : Url) (m : List (Text × Url))
    → lookup (key c) m ≡ none
    → (k : Text) → (if text_eq (key c) k then none else lookup k m) ≡ lookup k m
absent_none c m n k = elim (Bool-cases (text_eq (key c) k)) [
  | inl e ↦ rw e (sym (rw ((text_eq_iff (key c) k).0 e) at n))
  | inr e ↦ rw e refl
]

module _ {W : Type 0} (env : Env W) where
  abbrev pub view : BaseRegistry W → View
  view s k = lookup k s.services

  view-Kept : (s s' : BaseRegistry W) → s'.services ≡ s.services → view s' ≡ view s
  view-Kept s s' e = same_view (λ k. ap (lookup k) e)

  store_service-Registers :
      (c : Url) (ok : Bool) (s s1 : BaseRegistry W)
      → view s1 ≡ view s
      → lookup (key c) s.services ≡ none
      → Leads (store_service env c ok) s1 (λ b s'. Registers c b (view s) (view s'))
  unfolding store_service
  store_service-Registers c false s s1 k n =
      Leads-done (store_service env c false) s1 false s1 refl k
  store_service-Registers c true s s1 k n = elim (Bool-cases s1.is_done) [
    | inl e ↦ record { ends = inl (rw (e, store_service) refl) }
    | inr e ↦
        Leads-done (store_service env c true) s1 true
          (record s1 { services = insert (key c) c s1.services }) (rw (e, store_service) refl)
          (n, view-insert c c s1.services ∙ ap (with_service c) k)
  ]

  register_unless-Registers :
      (c : Url) (o : Option Url) (s : BaseRegistry W)
      → lookup (key c) s.services ≡ o
      → Leads (register_unless env o c) s (λ b s'. Registers c b (view s) (view s'))
  unfolding register_unless register_url
  register_unless-Registers c (some old) s n =
      Leads-done (register_unless env (some old) c) s false s refl refl
  register_unless-Registers c none s n =
      Leads-bind (register_url env c) _ s (process_url-Kept env env.do_register true c s)
        (λ ok s1 k. store_service-Registers c ok s s1 (view-Kept s s1 k) n)

  register-Registers :
      (c : Url) (s : BaseRegistry W)
      → Leads (register env c) s (λ b s'. Registers (registered_address env c) b (view s) (view s'))
  unfolding register
  register-Registers c s =
      let c' = registered_address env c in
      Leads-same (register env c) (register_unless env (lookup (key c') s.services) c') s refl
        (register_unless-Registers c' (lookup (key c') s.services) s refl)

  restore_service-Unregisters :
      (c old : Url) (ok : Bool) (s s1 : BaseRegistry W)
      → s1.services ≡ erase (key c) s.services
      → lookup (key c) s.services ≡ some old
      → Leads (restore_service env c old ok) s1 (λ b s'. Unregisters c b (view s) (view s'))
  unfolding restore_service
  restore_service-Unregisters c old true s s1 k n =
      Leads-done (restore_service env c old true) s1 true s1 refl
        ((old, n), same_view (λ j. ap (lookup j) k) ∙ view-erase c s.services)
  restore_service-Unregisters c old false s s1 k n =
      Leads-done (restore_service env c old false) s1 false
        (record s1 { services = insert (key c) old s1.services }) refl
        (view-insert c old s1.services
          ∙ same_view (λ j.
            ap (λ (x : Option Url). if text_eq (key c) j then some old else x)
              (ap (lookup j) k ∙ lookup-erase (key c) j s.services))
          ∙ same_view (absent c s.services (some old) n))

  unregister_known-Unregisters :
      (c : Url) (o : Option Url) (s : BaseRegistry W)
      → lookup (key c) s.services ≡ o
      → Leads (unregister_known env c o) s (λ b s'. Unregisters c b (view s) (view s'))
  unfolding unregister_known drop_service unregister_url
  unregister_known-Unregisters c none s n =
      Leads-done (unregister_known env c none) s false
        (record s { services = erase (key c) s.services }) refl
        (view-erase c s.services ∙ same_view (absent_none c s.services n))
  unregister_known-Unregisters c (some old) s n =
      let s0 : BaseRegistry W = record s { services = erase (key c) s.services } in
      let h =
        Leads-bind (unregister_url env c) (λ ok. restore_service env c old ok) s0
          (process_url-Kept env env.do_unregister false c s0)
          (λ ok s1 k. restore_service-Unregisters c old ok s s1 k n) in
      record { ends = h.ends }

  un_register-Unregisters :
      (c : Url) (s : BaseRegistry W)
      → Leads (un_register env c) s (λ b s'. Unregisters c b (view s) (view s'))
  unfolding un_register
  un_register-Unregisters c s =
      Leads-same (un_register env c) (unregister_known env c (lookup (key c) s.services)) s refl
        (unregister_known-Unregisters c (lookup (key c) s.services) s refl)

-- What a client asks of a registry.
pub data Change : Type 0 where
  registers unregisters : Url → Change

module _ {W : Type 0} (env : Env W) where
  -- The changes in order, with what they return.
  abbrev pub run : List Change → Br W (List Bool)
  run [] = pure []
  run (registers u ∷ cs) = do ok ← register env u; oks ← run cs; pure (ok ∷ oks)
  run (unregisters u ∷ cs) = do ok ← un_register env u; oks ← run cs; pure (ok ∷ oks)

  -- The same on a map that has no representation, where each answer is given.
  abbrev pub Follows : List Change → List Bool → View → View → Type 0
  Follows [] [] m m' = m' ≡ m
  Follows [] (ok ∷ oks) m m' = ⊥
  Follows (c ∷ cs) [] m m' = ⊥
  Follows (registers u ∷ cs) (ok ∷ oks) m m' =
      (m1 : View) × Registers (registered_address env u) ok m m1 × Follows cs oks m1 m'
  Follows (unregisters u ∷ cs) (ok ∷ oks) m m' =
      (m1 : View) × Unregisters u ok m m1 × Follows cs oks m1 m'

  -- Whatever a client asks, and whatever the facade refuses or changes elsewhere, either a call panics,
  -- as it may behind Destroy, or the services that a registry keeps are those of a map: what was registered with success and has not been
  -- unregistered with success since. No key is registered twice in a row, and a refused call leaves
  -- the services as they were.
  pub run-Follows :
      (cs : List Change) (s : BaseRegistry W)
      → Leads (run cs) s (λ oks s'. Follows cs oks (view env s) (view env s'))
  run-Follows [] s = Leads-done (run []) s [] s refl refl
  run-Follows (registers u ∷ cs) s =
      Leads-bind (register env u) _ s (register-Registers env u s) (λ ok s1 h.
        Leads-bind (run cs) _ s1 (run-Follows cs s1)
          (λ oks s2 k. Leads-done (pure (ok ∷ oks)) s2 (ok ∷ oks) s2 refl (view env s1, h, k)))
  run-Follows (unregisters u ∷ cs) s =
      Leads-bind (un_register env u) _ s (un_register-Unregisters env u s) (λ ok s1 h.
        Leads-bind (run cs) _ s1 (run-Follows cs s1)
          (λ oks s2 k. Leads-done (pure (ok ∷ oks)) s2 (ok ∷ oks) s2 refl (view env s1, h, k)))
