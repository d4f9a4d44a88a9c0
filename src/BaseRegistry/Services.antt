-- ===== src/BaseRegistry/Services.antt =====
-- registry/base_registry.go: the services that Register and UnRegister keep.
use incubator_dubbo_go.Prelude.{
  ◌≡◌, refl, ◌∙◌, Bool, true, false, ◌||◌, [], Option, none, some, if◌then◌else◌, ◌==◌, Text, codes,
  text_key, Bool-cases, inl, inr,
}
use incubator_dubbo_go.Prelude.Int.{ℤ, pos, negsuc}
use incubator_dubbo_go.Url.{Url, Values, values_add, is_empty}
use incubator_dubbo_go.Url.Merge.{range_params}
use incubator_dubbo_go.Stateful.Leads.{
  Leads, Leads-same, Leads-done, Leads-lift, Leads-bind, Leads-weaken,
}
use incubator_dubbo_go.BaseRegistry.{
  Env, BaseRegistry, Br, ◌>>=◌, pure, lift, on_world, make_path, dubbo_path, provider_raw_url,
  consumer_raw_url, provider_registry, providers_path, consumer_registry, call_found, add_all,
  role_of, registry_of_role, process_url,
}

module _ {W : Type 0} (env : Env W) where
  -- The services, and whether the registry is closed, are as they were.
  abbrev pub Kept : {A : Type 0} → BaseRegistry W → A → BaseRegistry W → Type 0
  Kept s a s' = (s'.services ≡ s.services)

  on_world-Kept : (f : W → Bool × W) (s : BaseRegistry W) → Leads (on_world env f) s (Kept s)
  on_world-Kept f s =
      Leads-done (on_world env f) s (f s.world).0 (record s { world = (f s.world).1 }) refl refl

  make_path-Kept :
      (b : Bool) (path : Text) (s : BaseRegistry W) → Leads (make_path env b path) s (Kept s)
  unfolding make_path
  make_path-Kept true path s = on_world-Kept (env.create_path path) s
  make_path-Kept false path s = Leads-done (make_path env false path) s true s refl refl

  -- What kept the services of a state that had those of an earlier one.
  after :
      {A : Type 0} {m : Br W A} {s1 : BaseRegistry W} (s : BaseRegistry W)
      → s1.services ≡ s.services
      → Leads m s1 (Kept s1)
      → Leads m s1 (Kept s)
  after s k h = Leads-weaken h (λ a s' e. e ∙ k)

  provider_registry-Kept :
      (b : Bool) (c : Url) (ps : Values) (s : BaseRegistry W)
      → Leads (provider_registry env b c ps) s (Kept s)
  unfolding provider_registry
  provider_registry-Kept b c ps s = elim (Bool-cases (is_empty c.path || is_empty c.methods)) [
    | inl e ↦
        Leads-done (provider_registry env b c ps) s none s (rw (e, provider_registry) refl) refl
    | inr e ↦
        let path = dubbo_path env c (codes "providers") in
        let m : Br W (Option (Text × Text)) =
          make_path env b path
          >>= (λ ok. pure (if ok then some (path, provider_raw_url env c ps) else none)) in
        Leads-same (provider_registry env b c ps) m s (rw (e, provider_registry) refl) (
          Leads-bind (make_path env b path) _ s (make_path-Kept b path s) (λ ok s1 k1.
            Leads-done (pure (if ok then some (path, provider_raw_url env c ps) else none)) s1 _ s1
              refl k1))
  ]

  providers_path-Kept :
      (ok b : Bool) (c : Url) (ps : Values) (s : BaseRegistry W)
      → Leads (providers_path env ok b c ps) s (Kept s)
  unfolding providers_path
  providers_path-Kept false b c ps s =
      Leads-done (providers_path env false b c ps) s none s refl refl
  providers_path-Kept true b c ps s =
      let path = dubbo_path env c (codes "providers") in
      Leads-bind (make_path env b path) _ s (make_path-Kept b path s) (λ ok s1 k1.
        Leads-done
          (pure (
            if ok
            then some (dubbo_path env c (codes "consumers"), consumer_raw_url env c ps)
            else none))
          s1 _ s1 refl k1)

  consumer_registry-Kept :
      (b : Bool) (c : Url) (ps : Values) (s : BaseRegistry W)
      → Leads (consumer_registry env b c ps) s (Kept s)
  unfolding consumer_registry
  consumer_registry-Kept b c ps s =
      let path = dubbo_path env c (codes "consumers") in
      Leads-bind (make_path env b path) _ s (make_path-Kept b path s)
        (λ ok s1 k1. after s k1 (providers_path-Kept ok b c ps s1))

  registry_of_role-Kept :
      (r : ℤ) (b : Bool) (c : Url) (ps : Values) (s : BaseRegistry W)
      → Leads (registry_of_role env r b c ps) s (Kept s)
  unfolding registry_of_role
  registry_of_role-Kept (pos n) b c ps s = elim (Bool-cases (n == 3)) [
    | inl e ↦
        Leads-same (registry_of_role env (pos n) b c ps) (provider_registry env b c ps) s
          (rw (e, registry_of_role) refl) (provider_registry-Kept b c ps s)
    | inr e ↦ elim (Bool-cases (n == 0)) [
      | inl f ↦
          Leads-same (registry_of_role env (pos n) b c ps) (consumer_registry env b c ps) s
            (rw (e, f, registry_of_role) refl) (consumer_registry-Kept b c ps s)
      | inr f ↦
          Leads-done (registry_of_role env (pos n) b c ps) s none s
            (rw (e, f, registry_of_role) refl) refl
    ]
  ]
  registry_of_role-Kept (negsuc n) b c ps s =
      Leads-done (registry_of_role env (negsuc n) b c ps) s none s refl refl

  call_found-Kept :
      (f : Text → Text → W → Bool × W) (o : Option (Text × Text)) (s : BaseRegistry W)
      → Leads (call_found env f o) s (Kept s)
  unfolding call_found
  call_found-Kept f none s = Leads-done (call_found env f none) s false s refl refl
  call_found-Kept f (some (path, raw)) s =
      on_world-Kept (f (env.escape_dollar path) (env.query_escape raw)) s

  pub process_url-Kept :
      (f : Text → Text → W → Bool × W) (b : Bool) (c : Url) (s : BaseRegistry W)
      → Leads (process_url env f b c) s (Kept s)
  unfolding process_url
  process_url-Kept f b c s =
      Leads-bind (lift (range_params c.params)) _ s
        (Leads-lift (range_params c.params) s (λ r e. refl))
        (λ r s1 k1.
          let ps =
            values_add (values_add (add_all r []) (codes "pid") env.process_id) (codes "ip")
              env.local_ip in
          Leads-bind (registry_of_role env (role_of env c) b c ps) _ s1
            (registry_of_role-Kept (role_of env c) b c ps s1)
            (λ o s2 k2. after s (k2 ∙ k1) (call_found-Kept f o s2)))
