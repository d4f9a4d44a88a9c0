-- ===== src/RegistryProtocol/Urls.antt =====
-- registry/protocol/protocol.go: the URLs that it makes, and which override URLs match which services.
use incubator_dubbo_go.Prelude.{
  ◌&&◌, ◌||◌, Bool, true, false, not, List, [], ◌∷◌, Option, none, some, if◌then◌else◌, Text, codes,
  text_eq,
}
use incubator_dubbo_go.Strings.{has_prefix, contains}
use incubator_dubbo_go.Url.{
  Url, Values, sub_url, get_param, get_param_bool, set_param, add_param, is_empty,
}
use incubator_dubbo_go.Url.Merge.{clone}
use incubator_dubbo_go.Url.Compare.{
  clone_except_params, clone_with_params, is_match_category, url_string,
}

-- reserveParams
abbrev pub reserve_keys : List Text
reserve_keys =
    codes "application"
    ∷ codes "codec"
    ∷ codes "exchanger"
    ∷ codes "serialization"
    ∷ codes "cluster"
    ∷ codes "connections"
    ∷ codes "deprecated"
    ∷ codes "group"
    ∷ codes "loadbalance"
    ∷ codes "mock"
    ∷ codes "path"
    ∷ codes "timeout"
    ∷ codes "token"
    ∷ codes "version"
    ∷ codes "warmup"
    ∷ codes "weight"
    ∷ codes "timestamp"
    ∷ codes "dubbo"
    ∷ codes "release"
    ∷ codes "interface"
    ∷ codes "registry.role"
    ∷ []

abbrev pub with_protocol : Text → Url → Url
with_protocol p u = record u { own = record (u.own) { protocol = p } }

-- getRegistryUrl, and the first lines of Refer. It changes the invoker's own URL, and changes it no
-- more when it is called again, unless the parameter says "registry".
unfoldable pub registry_url : Url → Url
unfolding get_param text_eq
registry_url u =
    if text_eq u.protocol (codes "registry")
    then with_protocol (get_param u (codes "registry") []) u
    else u

-- setProviderUrl
unfoldable pub set_provider_url : Url → Url → Url
set_provider_url registry provider = record {
  own = registry.own;
  subs = provider.own ∷ provider.subs;
}

-- isMatched, behind the change of an override URL without a category.
unfoldable pub with_category : Url → Url
unfolding get_param add_param text_eq
with_category provider =
    if is_empty (get_param provider (codes "category") [])
      && text_eq provider.protocol (codes "override")
    then add_param provider (codes "category") (codes "configurators")
    else provider

unfoldable pub same_interface : Url → Url → Bool
unfolding get_param text_eq
same_interface provider consumer =
    let c = get_param consumer (codes "interface") consumer.path in
    let p = get_param provider (codes "interface") provider.path in
    text_eq (codes "*") c || text_eq (codes "*") p || text_eq p c

unfoldable pub is_enabled : Url → Url → Bool
unfolding get_param get_param_bool text_eq
is_enabled provider consumer =
    get_param_bool provider (codes "enabled") true
    || text_eq (get_param consumer (codes "enabled") []) (codes "*")

unfoldable pub same_group : Url → Url → Bool
unfolding get_param text_eq contains
same_group provider consumer =
    let c = get_param consumer (codes "group") [] in
    let p = get_param provider (codes "group") [] in
    text_eq c (codes "*") || text_eq c p || contains c p

unfoldable pub same_version : Url → Url → Bool
unfolding get_param text_eq
same_version provider consumer =
    let c = get_param consumer (codes "version") [] in
    text_eq c (codes "*") || text_eq c (get_param provider (codes "version") [])

unfoldable pub same_classifier : Url → Url → Bool
unfolding get_param text_eq
same_classifier provider consumer =
    let c = get_param consumer (codes "classifier") [] in
    is_empty c || text_eq c (codes "*") || text_eq c (get_param provider (codes "classifier") [])

unfoldable pub matches : Url → Url → Bool
unfolding same_interface is_match_category is_enabled same_group same_version same_classifier
    get_param
matches provider consumer =
    if not (same_interface provider consumer)
    then false
    else if not (
        is_match_category (get_param provider (codes "category") (codes "providers"))
          (get_param consumer (codes "category") (codes "providers")))
    then false
    else if not (is_enabled provider consumer)
    then false
    else same_group provider consumer
      && same_version provider consumer
      && same_classifier provider consumer

unfoldable pub is_matched : Url → Url → Bool
unfolding with_category matches
is_matched provider consumer = matches (with_category provider) consumer

module _ (copy : Url → Url × Bool) where
  -- getProviderUrl; a SubURL that is nil is a panic.
  unfoldable pub provider_url : Url → Option Url
  unfolding sub_url clone
  provider_url u = elim (sub_url u) [ none ↦ none | some s ↦ clone copy s ]

  unfoldable pub is_dynamic : Text → Bool
  unfolding text_eq
  is_dynamic k = text_eq k (codes "dynamic") || text_eq k (codes "enabled")

  -- getCacheKey
  unfoldable pub cache_key : (Values → Text) → Url → Option Text
  unfolding provider_url clone_except_params is_dynamic url_string
  cache_key encode u = elim (provider_url u) [
    | none ↦ none
    | some p ↦ elim (clone_except_params copy is_dynamic p) [
      | none ↦ none
      | some c ↦ some (url_string encode c)
    ]
  ]

  unfoldable pub is_hidden : Text → Bool
  unfolding has_prefix
  is_hidden k = has_prefix k (codes ".")

  -- filterHideKey
  unfoldable pub filter_hide_key : Url → Option Url
  unfolding clone_except_params is_hidden
  filter_hide_key u = clone_except_params copy is_hidden u

  -- getUrlToRegistry
  unfoldable pub url_to_registry : Url → Url → Option Url
  unfolding get_param_bool clone_with_params filter_hide_key
  url_to_registry provider registry =
      if get_param_bool registry (codes "simplified") false
      then some (clone_with_params provider reserve_keys)
      else filter_hide_key provider

  -- getSubscribedOverrideUrl
  unfoldable pub subscribed_override_url : Url → Option Url
  unfolding clone set_param
  subscribed_override_url provider = elim (clone copy provider) [
    | none ↦ none
    | some u ↦ some (
        set_param
          (set_param (with_protocol (codes "provider") u) (codes "category")
            (codes "configurators"))
          (codes "check") (codes "false"))
  ]
