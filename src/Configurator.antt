-- ===== src/Configurator.antt =====
-- config_center/configurator/override.go and registry/base_configuration_listener.go: the overriding
-- of a URL's parameters by the URLs of a configuration centre.
pub mod Reserved
pub mod Rule
use incubator_dubbo_go.Prelude.{
  ◌&&◌, ◌||◌, Bool, true, false, not, List, [], ◌∷◌, ◌++◌, Option, none, some, if◌then◌else◌, Text,
  codes, text_eq,
}
use incubator_dubbo_go.Strings.{has_prefix, trim_prefix, contains}
use incubator_dubbo_go.Url.{Url, get_param, del_param, is_empty}
use incubator_dubbo_go.Url.Merge.{range_params}
use incubator_dubbo_go.Url.Compare.{Entries, clone_except_params, set_params}

-- The keys that are always condition keys.
abbrev pub condition_keys : List Text
condition_keys =
    codes "category"
    ∷ codes "check"
    ∷ codes "enabled"
    ∷ codes "group"
    ∷ codes "version"
    ∷ codes "application"
    ∷ codes "side"
    ∷ codes "configVersion"
    ∷ codes "compatible_config"
    ∷ []

unfoldable pub is_in : Text → List Text → Bool
unfolding text_eq
is_in k [] = false
is_in k (j ∷ js) = text_eq j k || is_in k js

unfoldable pub is_condition : Text → Bool
unfolding has_prefix text_eq
is_condition k =
    has_prefix k (codes "~") || text_eq k (codes "application") || text_eq k (codes "side")

-- The set of condition keys behind the loop, of the keys that the configurator's URL has.
unfoldable pub is_excluded : Text → Bool
unfolding is_condition is_in
is_excluded k = is_in k condition_keys || is_condition k

-- One round of the loop over the configurator's parameters: whether the URL fails the condition.
unfoldable pub rejects : Url → Url → Text → Bool
unfolding is_condition get_param trim_prefix text_eq
rejects conf u k =
    let value = get_param conf k [] in
    is_condition k
    && (not (is_empty value)
        && (not (text_eq value (codes "*"))
            && not (text_eq value (get_param u (trim_prefix k (codes "~")) []))))

unfoldable pub any_rejects : Url → Url → Entries → Bool
unfolding rejects
any_rejects conf u [] = false
any_rejects conf u ((k, v) ∷ r) = rejects conf u k || any_rejects conf u r

-- `copy` is copier.Copy, and `none` the panic of RangeParams.
module _ (copy : Url → Url × Bool) where
  unfoldable pub put_config : Url → Url → Option Url
  unfolding clone_except_params is_excluded set_params
  put_config conf u = elim (clone_except_params copy is_excluded conf) [
    | none ↦ none
    | some c ↦ some (set_params c.params u)
  ]

  -- configureIfMatchInternal
  unfoldable pub configure_if_match_internal : Url → Url → Option Url
  unfolding get_param text_eq range_params any_rejects put_config
  configure_if_match_internal conf u =
      let config_app = get_param conf (codes "application") conf.username in
      let current_app = get_param u (codes "application") u.username in
      if is_empty config_app || text_eq config_app (codes "*") || text_eq config_app current_app
      then elim (range_params conf.params) [
        | none ↦ none
        | some r ↦ if any_rejects conf u r then some u else put_config conf u
      ]
      else some u

  -- configureIfMatch
  unfoldable pub configure_if_match : Text → Url → Url → Option Url
  unfolding configure_if_match_internal get_param contains text_eq
  configure_if_match host conf u =
      let providers = get_param conf (codes "providerAddresses") [] in
      if (text_eq (codes "0.0.0.0") conf.ip || text_eq host conf.ip)
        && (is_empty providers
            || contains providers u.location
            || contains providers (codes "0.0.0.0"))
      then configure_if_match_internal conf u
      else some u

  module _ (local_ip : Text) where
    -- configureDeprecated
    unfoldable pub configure_deprecated : Url → Url → Option Url
    unfolding configure_if_match get_param text_eq
    configure_deprecated conf u =
        if not (text_eq conf.port (codes "0"))
        then (if text_eq u.port conf.port then configure_if_match u.ip conf u else some u)
        else if text_eq (get_param u (codes "side") []) (codes "consumer")
        then configure_if_match local_ip conf u
        else configure_if_match (codes "0.0.0.0") conf u

    -- Configure with a version, which is that of 2.7.
    unfoldable pub configure_side : Url → Url → Option Url
    unfolding configure_if_match get_param text_eq
    configure_side conf u =
        let current_side = get_param u (codes "side") [] in
        let side = get_param conf (codes "side") [] in
        if text_eq current_side side
          && text_eq (codes "consumer") current_side
          && text_eq conf.port (codes "0")
        then configure_if_match local_ip conf u
        else if text_eq current_side side
            && text_eq (codes "provider") current_side
            && text_eq conf.port u.port
        then configure_if_match u.ip conf u
        else some u

    -- Configure
    unfoldable pub configure : Url → Url → Option Url
    unfolding configure_deprecated configure_side get_param text_eq
    configure conf u =
        if text_eq (get_param conf (codes "enabled") (codes "true")) (codes "false")
          || is_empty conf.location
        then some u
        else if not (is_empty (get_param conf (codes "configVersion") []))
        then configure_side conf u
        else configure_deprecated conf u

    -- OverrideUrl: each configurator in turn, as its URL.
    unfoldable pub configure_all : List Url → Url → Option Url
    unfolding configure
    configure_all [] u = some u
    configure_all (conf ∷ confs) u = elim (configure conf u) [
      | none ↦ none
      | some u' ↦ configure_all confs u'
    ]

-- ToConfigurators, with the configurators as their URLs: the loop with what it has so far.
unfoldable pub add_configurators : List Url → List Url → List Url
unfolding del_param text_eq
add_configurators [] configurators = configurators
add_configurators (u ∷ us) configurators =
    let u' = del_param u (codes "anyhost") in
    let next = if is_empty u'.params then configurators else configurators ++ u' ∷ [] in
    let rest = add_configurators us next in if text_eq u.protocol (codes "empty") then [] else rest

unfoldable pub to_configurators : List Url → List Url
unfolding add_configurators
to_configurators us = add_configurators us []

-- Process of the listener: `parse` is Parser().ParseToUrls.
unfoldable pub process_rule : (Text → Option (List Url)) → Bool → Text → List Url → List Url
unfolding to_configurators
process_rule parse true value configurators = []
process_rule parse false value configurators = elim (parse value) [
  | none ↦ configurators
  | some us ↦ to_configurators us
]
