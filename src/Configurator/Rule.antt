-- ===== src/Configurator/Rule.antt =====
-- config_center/parser/configuration_parser.go: the override URLs of a configurator's rule.
pub mod Texts
pub mod Kept
use incubator_dubbo_go.Prelude.{
  ℕ, zero, suc, ◌||◌, Bool, true, false, List, [], ◌∷◌, ◌++◌, Option, none, some, if◌then◌else◌,
  Text, codes, text_eq, take, drop,
}
use incubator_dubbo_go.Strings.{index_byte, join}
use incubator_dubbo_go.Url.{Url, is_empty}

-- The parameters are in the order in which Go visits the map, taken to be the same in all visits.
pub record ConfigItem : Type 0 where
  pub kind : Text
  pub enabled : Bool
  pub addresses : List Text
  pub provider_addresses : List Text
  pub services : List Text
  pub applications : List Text
  pub parameters : List (Text × Text)
  pub side : Text

pub record ConfiguratorConfig : Type 0 where
  pub config_version : Text
  pub scope : Text
  pub key : Text
  pub enabled : Bool
  pub configs : List ConfigItem

pub data RuleError : Type 0 where
  not_yaml : RuleError
  null_service : RuleError
  no_parameter : RuleError
  bad_url : RuleError

-- A value or an error.
pub data Parsed {ℓ} (A : Type ℓ) : Type ℓ where
  failed : RuleError → Parsed A
  parsed : A → Parsed A

unfoldable pub then_with {ℓ κ} : {A : Type ℓ} {B : Type κ} → Parsed A → (A → Parsed B) → Parsed B
then_with (failed e) f = failed e
then_with (parsed x) f = f x

-- The loops that append what each round yields and stop at the first error.
unfoldable pub collect {ℓ κ} :
    {A : Type ℓ} {B : Type κ} → (A → Parsed (List B)) → List A → Parsed (List B)
unfolding then_with
collect f [] = parsed []
collect f (x ∷ xs) =
    let rest = collect f xs in then_with (f x) (λ ys. then_with rest (λ zs. parsed (ys ++ zs)))

abbrev pub or_single : List Text → Text → List Text
or_single [] t = t ∷ []
or_single (x ∷ xs) t = x ∷ xs

-- What is before the first `sep` of a service, unless it is the first byte, and what is behind.
unfoldable pub cut_at : ℕ → Text → Option (Text × Text)
unfolding index_byte
cut_at sep s = elim (index_byte sep s) [
  | none ↦ none
  | some i ↦ elim i [ zero ↦ none | suc n ↦ some (take (suc n) s, drop (suc (suc n)) s) ]
]

unfoldable pub group_part : Text → Text × Text
unfolding cut_at
group_part s = elim (cut_at 47 s) [
  | none ↦ ([], s)
  | some p ↦ (codes "group=" ++ p.0 ++ codes "&", p.1)
]

unfoldable pub version_part : Text → Text × Text
unfolding cut_at
version_part s = elim (cut_at 58 s) [
  | none ↦ ([], s)
  | some p ↦ (codes "version=" ++ p.1 ++ codes "&", p.0)
]

-- The text of a service that is not empty.
unfoldable pub service_string : Text → Text
unfolding group_part version_part
service_string s =
    let g = group_part s in let v = version_part g.1 in v.1 ++ codes "?" ++ g.0 ++ v.0

unfoldable pub get_service_string : Text → Parsed Text
unfolding service_string
get_service_string s = if is_empty s then failed null_service else parsed (service_string s)

unfoldable pub param_entries : List (Text × Text) → Text
param_entries [] = []
param_entries ((k, v) ∷ ps) = codes "&" ++ k ++ codes "=" ++ v ++ param_entries ps

unfoldable pub side_part : Text → Text
side_part side = if is_empty side then [] else codes "&side=" ++ side

-- The parameters of an item that has one.
unfoldable pub param_string : ConfigItem → Text
unfolding param_entries side_part
param_string item =
    codes "category="
    ++ codes "dynamicconfigurators"
    ++ side_part item.side
    ++ param_entries item.parameters
    ++ codes "&"
    ++ codes "providerAddresses"
    ++ codes "="
    ++ join item.provider_addresses (codes ",")

unfoldable pub get_param_string : ConfigItem → Parsed Text
unfolding param_string
get_param_string item =
    if is_empty item.parameters then failed no_parameter else parsed (param_string item)

unfoldable pub format_bool : Bool → Text
format_bool b = if b then codes "true" else codes "false"

unfoldable pub get_enabled_string : ConfigItem → ConfiguratorConfig → Text
unfolding format_bool text_eq
get_enabled_string item config =
    codes "&enabled="
    ++ (if is_empty item.kind || text_eq item.kind (codes "general")
        then format_bool config.enabled
        else format_bool item.enabled)

unfoldable pub override_prefix : Text → Text
override_prefix address = codes "override://" ++ address ++ codes "/"

unfoldable pub version_suffix : Text → ConfiguratorConfig → Text
version_suffix category config =
    codes "&category=" ++ category ++ codes "&configVersion=" ++ config.config_version

-- What a service of an application's rule adds behind its own text.
unfoldable pub app_suffix : ConfigItem → ConfiguratorConfig → Text → Text
unfolding get_enabled_string version_suffix
app_suffix item config params =
    params
    ++ codes "&application="
    ++ config.key
    ++ get_enabled_string item config
    ++ version_suffix (codes "appdynamicconfigurators") config

-- `new_url` is NewURL of common/url.go, which parses with net/url; none is its error.
module _ (new_url : Text → Option Url) where
  unfoldable pub read_url : Text → Parsed (List Url)
  read_url t = elim (new_url t) [ none ↦ failed bad_url | some u ↦ parsed (u ∷ []) ]

  -- The URLs of one text, for each application or for all.
  unfoldable pub application_urls : List Text → Text → Parsed (List Url)
  unfolding collect read_url
  application_urls [] t = read_url t
  application_urls (a ∷ more) t =
      collect (λ app. read_url (t ++ codes "&application" ++ app)) (a ∷ more)

  unfoldable pub service_item_to_urls : ConfigItem → ConfiguratorConfig → Parsed (List Url)
  unfolding collect then_with get_service_string get_param_string get_enabled_string override_prefix
      version_suffix application_urls
  service_item_to_urls item config =
      collect
        (λ address. then_with (get_service_string config.key) (λ service.
          then_with (get_param_string item) (λ params. application_urls item.applications (
            override_prefix address
            ++ service
            ++ params
            ++ get_enabled_string item config
            ++ version_suffix (codes "dynamicconfigurators") config))))
        (or_single item.addresses (codes "0.0.0.0"))

  -- The services of one address. The text is kept from one service to the next.
  unfoldable pub app_services :
      ConfigItem → ConfiguratorConfig → Text → List Text → Parsed (List Url)
  unfolding then_with get_service_string get_param_string app_suffix read_url
  app_services item config t [] = parsed []
  app_services item config t (s ∷ ss) = then_with (get_service_string s) (λ service.
      then_with (get_param_string item) (λ params.
        let next = t ++ service ++ app_suffix item config params in
        then_with (read_url next)
          (λ us. then_with (app_services item config next ss) (λ vs. parsed (us ++ vs)))))

  unfoldable pub app_item_to_urls : ConfigItem → ConfiguratorConfig → Parsed (List Url)
  unfolding collect override_prefix app_services
  app_item_to_urls item config =
      collect
        (λ address.
          app_services item config (override_prefix address) (or_single item.services (codes "*")))
        (or_single item.addresses (codes "0.0.0.0"))

  -- `unmarshal` is yaml.Unmarshal at the configuration's type; none is its error.
  unfoldable pub parse_to_urls : (Text → Option ConfiguratorConfig) → Text → Parsed (List Url)
  unfolding collect service_item_to_urls app_item_to_urls text_eq
  parse_to_urls unmarshal content = elim (unmarshal content) [
    | none ↦ failed not_yaml
    | some config ↦
        if text_eq config.scope (codes "application")
        then collect (λ item. app_item_to_urls item config) config.configs
        else collect (λ item. service_item_to_urls item config) config.configs
  ]
