-- ===== src/Configurator/Reserved.antt =====
-- config_center/configurator/override.go: what Configure leaves alone.
use incubator_dubbo_go.Prelude.{
  ◌≡◌, refl, sym, ap, ◌∙◌, Bool, true, false, List, [], ◌∷◌, ◌++◌, All, codes, Option, none, some,
  if◌then◌else◌, Text, text_eq, text_eq_iff, text_key, lookup, insert, lookup-insert, same_refl,
  Bool-cases, Option-cases, inl, inr,
}
use incubator_dubbo_go.Strings.{has_prefix}
use incubator_dubbo_go.Url.{Values, Url, with_params, values_get, set_param, first_value}
use incubator_dubbo_go.Url.Merge.{range_params, set_all}
use incubator_dubbo_go.Url.Compare.{Entries, drop_keys, clone_except_params, set_params}
use incubator_dubbo_go.Configurator.{
  is_excluded, is_in, is_condition, any_rejects, put_config, configure_if_match_internal,
  configure_if_match, configure_deprecated, configure_side, configure, configure_all,
}

-- A URL that has the other's fields, and its values of the condition keys.
abbrev pub Reserves : Url → Url → Type 0
Reserves u v =
    (with_params v [] ≡ with_params u [])
    × ((k : Text) → is_excluded k ≡ true → values_get v.params k ≡ values_get u.params k)

abbrev pub Configured : Url → Option Url → Type 0
Configured u none = Unit
Configured u (some v) = Reserves u v

-- The keys that no configurator may write.
abbrev pub kept_keys : List Text
kept_keys =
    codes "category"
    ∷ codes "check"
    ∷ codes "enabled"
    ∷ codes "group"
    ∷ codes "version"
    ∷ codes "application"
    ∷ codes "side"
    ∷ codes "configVersion"
    ∷ codes "compatible_config"
    ∷ []

abbrev pub KeepsParameters : Url → Url → Type 0
KeepsParameters u v =
    All (λ k. values_get v.params k ≡ values_get u.params k) kept_keys
    × ((k : Text) → values_get v.params (codes "~" ++ k) ≡ values_get u.params (codes "~" ++ k))

abbrev pub Keeps : Url → Option Url → Type 0
Keeps u none = Unit
Keeps u (some v) = (with_params v [] ≡ with_params u []) × KeepsParameters u v

Reserves-refl : (u : Url) → Reserves u u
Reserves-refl u = (refl, λ k e. refl)

Reserves-trans : (u v w : Url) → Reserves u v → Reserves v w → Reserves u w
Reserves-trans u v w h i = (i.0 ∙ h.0, λ k e. i.1 k e ∙ h.1 k e)

-- No condition key is in the map.
abbrev Free : Values → Type 0
Free m = (k : Text) → is_excluded k ≡ true → lookup k m ≡ none

set_param-Reserves : (u : Url) (j v : Text) → is_excluded j ≡ false → Reserves u (set_param u j v)
unfolding set_param values_get
set_param-Reserves u j v n = (refl, λ k e. ap first_value (kept k e))
  where
    apart : (k : Text) → is_excluded k ≡ true → text_eq j k ≡ false
    apart k e = elim (Bool-cases (text_eq j k)) [
      | inl t ↦
          let f : is_excluded k ≡ false = rw ((text_eq_iff j k).0 t) at n in absurd (cc (sym f ∙ e))
      | inr t ↦ t
    ]

    kept :
        (k : Text)
        → is_excluded k ≡ true
        → lookup k (insert j (v ∷ []) u.params) ≡ lookup k u.params
    kept k e = lookup-insert j k (v ∷ []) u.params ∙ (rw (apart k e) refl)

-- The head of a map without condition keys is none of them.
Free-head : (j : Text) (vs : List Text) (m : Values) → Free ((j, vs) ∷ m) → is_excluded j ≡ false
unfolding lookup
Free-head j vs m h = elim (Bool-cases (is_excluded j)) [
  | inl e ↦ let f : none ≡ some vs = sym (h j e) ∙ (rw (same_refl j) refl) in absurd (cc f)
  | inr e ↦ e
]

Free-tail : (j : Text) (vs : List Text) (m : Values) → Free ((j, vs) ∷ m) → Free m
unfolding lookup
Free-tail j vs m h k e = elim (Bool-cases (text_eq j k)) [
  | inl t ↦ let f : some vs ≡ none = (rw t refl) ∙ h k e in absurd (cc f)
  | inr t ↦ rw t at (h k e)
]

set_params-Reserves : (m : Values) (u : Url) → Free m → Reserves u (set_params m u)
unfolding set_params
set_params-Reserves [] u f = Reserves-refl u
set_params-Reserves ((j, vs) ∷ m) u f =
    let v = values_get ((j, vs) ∷ m) j in
    Reserves-trans u (set_param u j v) (set_params m (set_param u j v))
      (set_param-Reserves u j v (Free-head j vs m f))
      (set_params-Reserves m (set_param u j v) (Free-tail j vs m f))

set_all-Free : (r : Entries) (m : Values) → Free m → Free (set_all (drop_keys is_excluded r) m)
unfolding set_all drop_keys
set_all-Free [] m f = f
set_all-Free ((j, v) ∷ r) m f = elim (Bool-cases (is_excluded j)) [
  | inl e ↦ rw e (set_all-Free r m f)
  | inr e ↦ rw e (
      set_all-Free r (insert j (v ∷ []) m)
        (λ k t. lookup-insert j k (v ∷ []) m ∙ (rw (apart k t e) (f k t))))
]
  where
    apart : (k : Text) → is_excluded k ≡ true → is_excluded j ≡ false → text_eq j k ≡ false
    apart k t e = elim (Bool-cases (text_eq j k)) [
      | inl s ↦
          let g : is_excluded k ≡ false = rw ((text_eq_iff j k).0 s) at e in absurd (cc (sym g ∙ t))
      | inr s ↦ s
    ]

if_Configured :
    (b : Bool) (u : Url) (x y : Option Url)
    → Configured u x
    → Configured u y
    → Configured u (if b then x else y)
if_Configured true u x y hx hy = hx
if_Configured false u x y hx hy = hy

module _ (copy : Url → Url × Bool) (copies : (u : Url) → (copy u).1 ≡ true) where
  put_config-Configured : (conf u : Url) → Configured u (put_config copy conf u)
  unfolding put_config clone_except_params
  put_config-Configured conf u = elim (Option-cases (range_params conf.params)) [
    | inl e ↦ rw (copies conf, e, put_config, clone_except_params) tt
    | inr (r, e) ↦
        rw (copies conf, e, put_config, clone_except_params)
          (set_params-Reserves (set_all (drop_keys is_excluded r) []) u
            (set_all-Free r [] (λ k t. refl)))
  ]

  ranged-Configured :
      (conf u : Url)
      → Configured u (elim (range_params conf.params) [
        | none ↦ none
        | some r ↦ if any_rejects conf u r then some u else put_config copy conf u
      ])
  ranged-Configured conf u = elim (Option-cases (range_params conf.params)) [
    | inl e ↦ rw e tt
    | inr (r, e) ↦ rw e (
        if_Configured (any_rejects conf u r) u (some u) (put_config copy conf u) (Reserves-refl u)
          (put_config-Configured conf u))
  ]

  configure_if_match_internal-Configured :
      (conf u : Url) → Configured u (configure_if_match_internal copy conf u)
  unfolding configure_if_match_internal
  configure_if_match_internal-Configured conf u =
      search (if_Configured, ranged-Configured, Reserves-refl)

  configure_if_match-Configured :
      (host : Text) (conf u : Url) → Configured u (configure_if_match copy host conf u)
  unfolding configure_if_match
  configure_if_match-Configured host conf u =
      if_Configured _ u _ (some u) (configure_if_match_internal-Configured conf u) (Reserves-refl u)

  module _ (local_ip : Text) where
    configure_deprecated-Configured :
        (conf u : Url) → Configured u (configure_deprecated copy local_ip conf u)
    unfolding configure_deprecated
    configure_deprecated-Configured conf u =
        search (if_Configured, configure_if_match-Configured, Reserves-refl)

    configure_side-Configured : (conf u : Url) → Configured u (configure_side copy local_ip conf u)
    unfolding configure_side
    configure_side-Configured conf u =
        search (if_Configured, configure_if_match-Configured, Reserves-refl)

    configure-Configured : (conf u : Url) → Configured u (configure copy local_ip conf u)
    unfolding configure
    configure-Configured conf u =
        search
          (if_Configured, configure_side-Configured, configure_deprecated-Configured, Reserves-refl)

    configure_all-Configured :
        (confs : List Url) (u : Url) → Configured u (configure_all copy local_ip confs u)
    unfolding configure_all
    configure_all-Configured [] u = Reserves-refl u
    configure_all-Configured (conf ∷ confs) u =
        elim (Option-cases (configure copy local_ip conf u)) [
          | inl e ↦ rw (e, configure_all) tt
          | inr (v, e) ↦
              let h : Reserves u v = rw e at (configure-Configured conf u) in
              rw (e, configure_all)
                (onward u v (configure_all copy local_ip confs v) h
                  (configure_all-Configured confs v))
        ]
      where
        onward : (u v : Url) (o : Option Url) → Reserves u v → Configured v o → Configured u o
        onward u v none h i = tt
        onward u v (some w) h i = Reserves-trans u v w h i

    kept_parameters : (u v : Url) → Reserves u v → KeepsParameters u v
    unfolding is_excluded is_in is_condition has_prefix text_eq
    kept_parameters u v h = (
      (
        h.1 (codes "category") refl,
        (
          h.1 (codes "check") refl,
          (
            h.1 (codes "enabled") refl,
            (
              h.1 (codes "group") refl,
              (
                h.1 (codes "version") refl,
                (
                  h.1 (codes "application") refl,
                  (
                    h.1 (codes "side") refl,
                    (h.1 (codes "configVersion") refl, (h.1 (codes "compatible_config") refl, tt)),
                  ),
                ),
              ),
            ),
          ),
        ),
      ),
      λ k. h.1 (codes "~" ++ k) refl,
    )

    -- Whatever configurators a URL goes through, if no copy of a URL fails: nothing of it but
    -- parameters is changed, and among these neither category, check, enabled, group, version,
    -- application, side, configVersion and compatible_config, nor a key that begins with a tilde.
    pub configure_all-Keeps :
        (confs : List Url) (u : Url) → Keeps u (configure_all copy local_ip confs u)
    configure_all-Keeps confs u =
        keeps u (configure_all copy local_ip confs u) (configure_all-Configured confs u)
      where
        keeps : (u : Url) (o : Option Url) → Configured u o → Keeps u o
        keeps u none h = tt
        keeps u (some v) h = (h.0, kept_parameters u v h)
