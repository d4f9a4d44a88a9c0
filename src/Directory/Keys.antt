-- ===== src/Directory/Keys.antt =====
-- registry/directory/directory.go, refreshAllInvokers: which providers are in the cache.
use incubator_dubbo_go.Prelude.{
  ◌≡◌, refl, ap, ◌∙◌, ◌&&◌, ◌||◌, Bool, true, false, not, List, [], ◌∷◌, ◌++◌, Option, none, some,
  Option-cases, Bool-cases, inl, inr, if◌then◌else◌, Text, text_eq, text_eq_iff, text_key, lookup,
  insert, erase, lookup-insert, lookup-erase, arith,
}
use incubator_dubbo_go.Url.{Url}
use incubator_dubbo_go.Protocol.{Invoker, done}
use incubator_dubbo_go.Protocol.Status.{remove_url_key_unhealthy_status}
use incubator_dubbo_go.Directory.{Env, RegistryDirectory, Dm, ◌>>=◌, gets}
use incubator_dubbo_go.Directory.Event.{ServiceEvent, event_key}
use incubator_dubbo_go.Directory.Cache.{
  store_invoker, refer_for, do_cache_invoker, uncache_invoker_with_key,
}
use incubator_dubbo_go.Directory.Refresh.{
  option_list, event_matched, drop_unmatched, added_events, cache_events, refresh_cache,
}

abbrev pub is_some {ℓ} : {A : Type ℓ} → Option A → Bool
is_some none = false
is_some (some x) = true

abbrev has_key : Text → List (Text × Invoker) → Bool
has_key k [] = false
has_key k ((j, i) ∷ m) = text_eq j k || has_key k m

has_key_lem : (k : Text) (m : List (Text × Invoker)) → has_key k m ≡ is_some (lookup k m)
unfolding lookup
has_key_lem k [] = refl
has_key_lem k ((j, i) ∷ m) = ground (arith, has_key_lem k m)

same_test :
    (j k : Text) (has : Bool) (matched : Text → Bool) (x : Bool)
    → matched j ≡ true
    → ((not has || matched k) && x) ≡ ((not (text_eq j k || has) || matched k) && x)
same_test j k has matched x e = elim (Bool-cases (text_eq j k)) [
  | inl t ↦ let m : matched k ≡ true = rw ((text_eq_iff j k).0 t) at e in ground (arith, m)
  | inr t ↦ rw t refl
]

dropped_test :
    (j k : Text) (has : Bool) (matched : Text → Bool) (o : Option Invoker)
    → matched j ≡ false
    → ((not has || matched k) && is_some (if text_eq j k then none else o))
      ≡ ((not (text_eq j k || has) || matched k) && is_some o)
dropped_test j k has matched o e = elim (Bool-cases (text_eq j k)) [
  | inl t ↦ let m : matched k ≡ false = rw ((text_eq_iff j k).0 t) at e in ground (arith, m, t)
  | inr t ↦ rw t refl
]

either_first : (a b c : Bool) → (a || (b || c)) ≡ ((b || a) || c)
either_first true true c = refl
either_first true false c = refl
either_first false true c = refl
either_first false false c = refl

either_last : (a b : Bool) → (a || ((not b || a) && b)) ≡ a
either_last true b = refl
either_last false true = refl
either_last false false = refl

either_ahead : (b x y c : Bool) → (x || c) ≡ (y || c) → ((b || x) || c) ≡ ((b || y) || c)
either_ahead true x y c e = refl
either_ahead false x y c e = e

-- A key that is in the cache already need not be asked for.
either_cached :
    (j k : Text) (i : Invoker) (cache : List (Text × Invoker)) (a : Bool)
    → lookup j cache ≡ some i
    → (a || is_some (lookup k cache)) ≡ ((text_eq j k || a) || is_some (lookup k cache))
either_cached j k i cache a c = elim (Bool-cases (text_eq j k)) [
  | inl t ↦
      let s : lookup k cache ≡ some i = rw ((text_eq_iff j k).0 t) at c in rw (t, s) (or_true a)
  | inr t ↦ rw t refl
]
  where
    or_true : (a : Bool) → (a || true) ≡ true
    or_true true = refl
    or_true false = refl

module _ {W : Type 0} (env : Env W) where
  -- Refer makes an invoker for each URL.
  abbrev pub Refers : Type 0
  Refers = (u : Url) (w : W) → (i : Invoker) × ((env.refer u w).0 ≡ some i)

  -- The call returns, and a key is in the cache behind it exactly if the test says so.
  abbrev pub Caches : {A : Type 0} → Dm W A → RegistryDirectory W → (Text → Bool) → Type 0
  Caches {A} m d test =
      (a : A) × (d' : RegistryDirectory W) × (m d ≡ done (a, d'))
      × ((k : Text) → is_some (lookup k d'.cache_invokers_map) ≡ test k)

  drop_unmatched-Caches :
      (es : List ServiceEvent) (entries : List (Text × Invoker)) (d : RegistryDirectory W)
      → Caches (drop_unmatched env es entries) d (λ k.
        (not (has_key k entries) || event_matched env k es)
        && is_some (lookup k d.cache_invokers_map))
  unfolding drop_unmatched uncache_invoker_with_key
  drop_unmatched-Caches es [] d = ([], d, refl, λ k. refl)
  drop_unmatched-Caches es ((j, i) ∷ entries) d = elim (Bool-cases (event_matched env j es)) [
    | inl e ↦
        let (olds, d', run, keys) = drop_unmatched-Caches es entries d in
        (
          olds,
          d',
          rw (e, drop_unmatched) run,
          λ k.
              keys k
              ∙ same_test j k (has_key k entries) (λ x. event_matched env x es)
                  (is_some (lookup k d.cache_invokers_map)) e,
        )
    | inr e ↦
        let d1 = record d {
          registry = remove_url_key_unhealthy_status j d.registry;
          cache_invokers_map = erase j d.cache_invokers_map;
        } in
        let (olds, d', run, keys) = drop_unmatched-Caches es entries d1 in
        (
          option_list (lookup j d.cache_invokers_map) ++ olds,
          d',
          rw (e, run, drop_unmatched, ◌>>=◌) refl,
          λ k.
              keys k
              ∙ ap
                  (λ (o : Option Invoker).
                    (not (has_key k entries) || event_matched env k es) && is_some o)
                  (lookup-erase j k d.cache_invokers_map)
              ∙ dropped_test j k (has_key k entries) (λ x. event_matched env x es)
                  (lookup k d.cache_invokers_map) e,
        )
  ]

  stored-is_some :
      (j k : Text) (i : Invoker) (m : List (Text × Invoker))
      → is_some (lookup k (insert j i m)) ≡ (text_eq j k || is_some (lookup k m))
  stored-is_some j k i m = ap is_some (lookup-insert j k i m) ∙ (ground arith)

  refer_for-Caches :
      (j : Text) (u : Url) (d : RegistryDirectory W)
      → Refers
      → (i : Invoker) × (d' : RegistryDirectory W) × (refer_for env j u d ≡ done (some i, d'))
        × (d'.cache_invokers_map ≡ insert j i d.cache_invokers_map)
  unfolding refer_for store_invoker
  refer_for-Caches j u d refers =
      let (i, e) = refers u d.world in
      (
        i,
        record d {
          world = (env.refer u d.world).1;
          cache_invokers_map = insert j i d.cache_invokers_map;
        },
        rw (e, refer_for, store_invoker) refl,
        refl,
      )

  do_cache_invoker-Caches :
      (u : Url) (e : ServiceEvent) (d : RegistryDirectory W)
      → Refers
      → Caches (do_cache_invoker env u e) d (λ k.
        text_eq (event_key env.timestamp_of e).0 k || is_some (lookup k d.cache_invokers_map))
  unfolding do_cache_invoker
  do_cache_invoker-Caches u e d refers =
      let j = (event_key env.timestamp_of e).0 in
      let (i, d', run, put) = refer_for-Caches j u d refers in
      let keys : (k : Text)
          → is_some (lookup k d'.cache_invokers_map)
            ≡ (text_eq j k || is_some (lookup k d.cache_invokers_map)) =
        λ k. ap (λ m. is_some (lookup k m)) put ∙ stored-is_some j k i d.cache_invokers_map in
      elim (Option-cases (lookup j d.cache_invokers_map)) [
        | inl c ↦ ((none, false), d', rw (c, run, do_cache_invoker, ◌>>=◌, gets) refl, keys)
        | inr (old, c) ↦ elim (Bool-cases (env.compare_url_equal u old.url)) [
          | inl q ↦ (
            (none, true),
            d,
            rw (c, q, do_cache_invoker, ◌>>=◌, gets) refl,
            λ k. found_test j k old d.cache_invokers_map c,
          )
          | inr q ↦ ((some old, true), d', rw (c, q, run, do_cache_invoker, ◌>>=◌, gets) refl, keys)
        ]
      ]
    where
      found_test :
          (j k : Text) (old : Invoker) (m : List (Text × Invoker))
          → lookup j m ≡ some old
          → is_some (lookup k m) ≡ (text_eq j k || is_some (lookup k m))
      found_test j k old m c = elim (Bool-cases (text_eq j k)) [
        | inl t ↦ rw t (ap is_some (rw ((text_eq_iff j k).0 t) at c))
        | inr t ↦ rw t refl
      ]

  cache_events-Caches :
      (es : List ServiceEvent) (d : RegistryDirectory W)
      → Refers
      → Caches
          (cache_events env es)
          d
          (λ k. event_matched env k es || is_some (lookup k d.cache_invokers_map))
  unfolding cache_events event_matched
  cache_events-Caches [] d refers = ([], d, refl, λ k. refl)
  cache_events-Caches (e ∷ es) d refers =
      let (p, d1, run, keys) = do_cache_invoker-Caches e.service e d refers in
      let (olds, d2, run', keys') = cache_events-Caches es d1 refers in
      (
        option_list p.0 ++ olds,
        d2,
        rw (run, run', cache_events, ◌>>=◌) refl,
        λ k.
            keys' k
            ∙ (rw (keys k) (
                either_first (event_matched env k es) (text_eq (event_key env.timestamp_of e).0 k)
                  (is_some (lookup k d.cache_invokers_map)))),
      )

  added_events-matched :
      (es : List ServiceEvent) (cache : List (Text × Invoker)) (k : Text)
      → (event_matched env k (added_events env es cache) || is_some (lookup k cache))
        ≡ (event_matched env k es || is_some (lookup k cache))
  unfolding added_events event_matched
  added_events-matched [] cache k = refl
  added_events-matched (e ∷ es) cache k =
      let j = (event_key env.timestamp_of e).0 in
      elim (Option-cases (lookup j cache)) [
        | inl c ↦
            rw (c, added_events)
              (either_ahead (text_eq j k) (event_matched env k (added_events env es cache))
                (event_matched env k es) (is_some (lookup k cache))
                (added_events-matched es cache k))
        | inr (i, c) ↦
            rw (c, added_events)
              (added_events-matched es cache k
                ∙ either_cached j k i cache (event_matched env k es) c)
      ]

  -- If Refer makes an invoker for each URL, the part of refreshAllInvokers that works on the cache,
  -- given its events with their merged URLs, does not panic, and behind it exactly the keys that these
  -- events name are in the cache, whatever was in it.
  pub refresh_cache-Caches :
      (es : List ServiceEvent) (d : RegistryDirectory W)
      → Refers
      → Caches (refresh_cache env es) d (λ k. event_matched env k es)
  unfolding refresh_cache
  refresh_cache-Caches es d refers =
      let (dropped, d1, run, keys) = drop_unmatched-Caches es d.cache_invokers_map d in
      let (replaced, d2, run', keys') =
        cache_events-Caches (added_events env es d1.cache_invokers_map) d1 refers in
      (
        dropped ++ replaced,
        d2,
        rw (run, run', refresh_cache, ◌>>=◌, gets) refl,
        λ k.
            keys' k
            ∙ added_events-matched es d1.cache_invokers_map k
            ∙ (rw (keys k, has_key_lem k d.cache_invokers_map)
                (either_last (event_matched env k es) (is_some (lookup k d.cache_invokers_map)))),
      )
