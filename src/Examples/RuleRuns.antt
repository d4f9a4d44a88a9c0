-- ===== src/Examples/RuleRuns.antt =====
-- The override URLs of sample rules, and the services of a sample metadata.
use incubator_dubbo_go.Prelude.{
  ◌≡◌, refl, true, false, [], ◌∷◌, ◌++◌, Option, some, none, if◌then◌else◌, Text, codes, All, Any,
  text_eq, text_key, lookup,
}
use incubator_dubbo_go.Url.{Url, empty_fields, is_empty}
use incubator_dubbo_go.Configurator.Rule.{
  ConfigItem, ConfiguratorConfig, failed, parsed, null_service, no_parameter, collect, then_with,
  or_single, override_prefix, service_string, group_part, version_part, cut_at, read_url,
  service_item_to_urls, app_item_to_urls, app_services, get_service_string, get_param_string,
  param_string, param_entries, side_part, app_suffix, get_enabled_string, version_suffix,
  format_bool,
}
use incubator_dubbo_go.Configurator.Rule.Texts.{service_texts, service_item_to_urls-texts}
use incubator_dubbo_go.Configurator.Rule.Kept.{FromFirst, app_item_to_urls-first}
use incubator_dubbo_go.Strings.{index_byte, join}
use incubator_dubbo_go.Metadata.{
  new_metadata_inf_with_app, new_service_info_with_url, add_service, remove_service,
}
use incubator_dubbo_go.Metadata.Exported.{remove_service-add_service}
use incubator_dubbo_go.Examples.{plain_url, url_with}

-- A parser that keeps the text as the path.
abbrev text_url : Text → Option Url
text_url t = some (record { own = record empty_fields { path = t }; subs = [] })

abbrev timeout_item : ConfigItem
timeout_item = record {
  kind = [];
  enabled = false;
  addresses = codes "10.0.0.1" ∷ codes "10.0.0.2" ∷ [];
  provider_addresses = [];
  services = codes "a" ∷ codes "b" ∷ [];
  applications = codes "shop" ∷ [];
  parameters = (codes "timeout", codes "5") ∷ [];
  side = codes "provider";
}

abbrev sample_rule : ConfiguratorConfig
sample_rule = record {
  config_version = codes "v2.7";
  scope = codes "service";
  key = codes "g/user:1.0";
  enabled = true;
  configs = timeout_item ∷ [];
}

user_service : service_string (codes "g/user:1.0") ≡ codes "user?group=g&version=1.0&"
unfolding service_string group_part version_part cut_at index_byte
user_service = refl

service_item_to_urls-texts_example : service_item_to_urls text_url timeout_item sample_rule ≡ (
    if is_empty sample_rule.key
    then failed null_service
    else if is_empty timeout_item.parameters
    then failed no_parameter
    else collect (read_url text_url) (service_texts timeout_item sample_rule))
service_item_to_urls-texts_example = service_item_to_urls-texts text_url timeout_item sample_rule

abbrev shop_item : ConfigItem
shop_item = record timeout_item { addresses = codes "10.0.0.1" ∷ [] }

abbrev text_of_first : Text
text_of_first =
    codes
      "override://10.0.0.1/a?category=dynamicconfigurators&side=provider&timeout=5&providerAddresses=&application=shop&enabled=true&category=appdynamicconfigurators&configVersion=v2.7"

abbrev text_of_second : Text
text_of_second =
    text_of_first
    ++ codes
        "b?category=dynamicconfigurators&side=provider&timeout=5&providerAddresses=&application=shop&enabled=true&category=appdynamicconfigurators&configVersion=v2.7"

abbrev url_at : Text → Url
url_at t = record { own = record empty_fields { path = t }; subs = [] }

abbrev shop_rule : ConfiguratorConfig
shop_rule = record sample_rule { scope = codes "application"; key = codes "shop" }

shop_urls :
    app_item_to_urls text_url shop_item shop_rule
    ≡ parsed (url_at text_of_first ∷ url_at text_of_second ∷ [])
unfolding app_item_to_urls app_services collect then_with get_service_string get_param_string
    param_string param_entries side_part service_string group_part version_part cut_at index_byte
    join app_suffix override_prefix get_enabled_string version_suffix read_url format_bool
shop_urls = refl

app_item_to_urls-first_example :
    All
      (λ u.
        Any
          (λ address. FromFirst text_url shop_item shop_rule address u)
          (or_single shop_item.addresses (codes "0.0.0.0")))
      (url_at text_of_first ∷ url_at text_of_second ∷ [])
app_item_to_urls-first_example =
    app_item_to_urls-first text_url shop_item shop_rule
      (url_at text_of_first ∷ url_at text_of_second ∷ []) shop_urls

abbrev weighted_url : Url
weighted_url = url_with ((codes "weight", codes "7" ∷ []) ∷ [])

remove_service-add_service_example :
    lookup
      (codes "user:dubbo")
      (remove_service (some (new_service_info_with_url plain_url)) (
        add_service
          (some (new_service_info_with_url weighted_url))
          (new_metadata_inf_with_app (codes "shop")))).services
    ≡ (if text_eq (new_service_info_with_url plain_url).match_key (codes "user:dubbo")
        then none
        else if text_eq (new_service_info_with_url weighted_url).match_key (codes "user:dubbo")
        then some (new_service_info_with_url weighted_url)
        else lookup (codes "user:dubbo") (new_metadata_inf_with_app (codes "shop")).services)
remove_service-add_service_example =
    remove_service-add_service weighted_url plain_url (new_metadata_inf_with_app (codes "shop"))
      (codes "user:dubbo")
