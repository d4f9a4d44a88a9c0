-- ===== src/Examples/RegistryRuns.antt =====
-- The registry protocol, the configurators and the comparison of URLs on sample URLs.
use incubator_dubbo_go.Prelude.{
  ℕ, suc, ◌≡◌, ◌↔◌, refl, Bool, true, List, [], ◌∷◌, none, some, Text, codes, text_key, text_eq,
}
use incubator_dubbo_go.Url.{Url, empty_fields}
use incubator_dubbo_go.Url.Compare.{to_map, is_equals}
use incubator_dubbo_go.Url.Compare.Equal.{SameBut, is_equals_iff}
use incubator_dubbo_go.Configurator.{configure_all}
use incubator_dubbo_go.Configurator.Reserved.{Keeps, configure_all-Keeps}
use incubator_dubbo_go.Protocol.{Invoker}
use incubator_dubbo_go.Stateful.Leads.{Leads}
use incubator_dubbo_go.BaseRegistry
use incubator_dubbo_go.BaseRegistry.{init_base_registry}
use incubator_dubbo_go.BaseRegistry.Map.{
  Change, registers, unregisters, run, view, Follows, run-Follows,
}
use incubator_dubbo_go.Protocol.Base.{
  BaseExporter, BaseProtocol, destroy_invokers, destroy_base_protocol, destroy_base_protocol-nil,
}
use incubator_dubbo_go.RegistryProtocol.{Env, RegistryProtocol}
use incubator_dubbo_go.RegistryProtocol.Export.{export}
use incubator_dubbo_go.Examples.{plain_url, url_with}

-- The same parameters in two orders, and a time stamp that differs.
abbrev left_url : Url
left_url = url_with ((codes "group", codes "a" ∷ []) ∷ (codes "timestamp", codes "1" ∷ []) ∷ [])

abbrev right_url : Url
right_url = url_with ((codes "timestamp", codes "2" ∷ []) ∷ (codes "group", codes "a" ∷ []) ∷ [])

abbrev left_map : List (Text × Text)
left_map =
    (codes "group", codes "a")
    ∷ (codes "timestamp", codes "1")
    ∷ (codes "protocol", codes "dubbo")
    ∷ (codes "path", codes "/user")
    ∷ []

abbrev right_map : List (Text × Text)
right_map =
    (codes "timestamp", codes "2")
    ∷ (codes "group", codes "a")
    ∷ (codes "protocol", codes "dubbo")
    ∷ (codes "path", codes "/user")
    ∷ []

is_equals_iff_example :
    (is_equals (some left_url) (some right_url) (codes "timestamp" ∷ []) ≡ some true) ↔ (
      (left_url.ip ≡ right_url.ip)
      × (left_url.port ≡ right_url.port)
      × SameBut (codes "timestamp" ∷ []) left_map right_map)
unfolding to_map text_eq
is_equals_iff_example =
    is_equals_iff left_url right_url (codes "timestamp" ∷ []) left_map right_map refl refl

abbrev same_copy : Url → Url × Bool
same_copy u = (u, true)

-- An override of the time-out, for providers at any address.
abbrev timeout_override : Url
timeout_override = record {
  own = record empty_fields {
    protocol = codes "override";
    location = codes "0.0.0.0:0";
    ip = codes "0.0.0.0";
    port = codes "0";
    params = (codes "timeout", codes "5" ∷ []) ∷ (codes "group", codes "b" ∷ []) ∷ [];
  };
  subs = [];
}

configure_all-Keeps_example :
    Keeps left_url (configure_all same_copy (codes "10.0.0.9") (timeout_override ∷ []) left_url)
configure_all-Keeps_example =
    configure_all-Keeps same_copy (λ u. refl) (codes "10.0.0.9") (timeout_override ∷ []) left_url

-- A world that counts the exporters and registries it has made.
abbrev registry_env : Env ℕ
registry_env = record {
  copy = same_copy;
  encode = λ ps. [];
  local_ip = codes "10.0.0.9";
  get_registry = λ u w. (some w, suc w);
  register = λ r u w. (true, w);
  subscribe = λ r u n w. w;
  directory = λ u r w. (some r, w);
  cluster = λ name. none;
  export = λ i w. (record { ref = w; invoker = i }, suc w);
  unexport = λ e w. w;
  register_service_map = λ u w. w;
  provider_configurators = λ w. timeout_override ∷ [];
  service_configurators = λ k w. [];
  registry_is_available = λ r w. true;
  registry_destroy = λ r w. w;
  wrap = λ i u. i.ref;
}

-- An invoker whose URL is a registry's, over that of the service.
abbrev exported : Invoker
exported = record {
  ref = 1;
  url = record {
    own = record empty_fields {
      protocol = codes "registry";
      params = (codes "registry", codes "zookeeper" ∷ []) ∷ [];
    };
    subs = left_url.own ∷ [];
  };
}

abbrev no_exporters : RegistryProtocol ℕ
no_exporters = record {
  invokers = [];
  registries = [];
  bounds = [];
  override_listeners = [];
  service_configuration_listeners = [];
  world = 0;
}

-- A facade that accepts everything and counts the calls.
abbrev facade : BaseRegistry.Env ℕ
facade = record {
  ip_to_registry = [];
  port_to_registry = [];
  process_id = codes "7";
  local_ip = codes "10.0.0.9";
  query_escape = λ t. t;
  encode = λ ps. [];
  escape_dollar = λ t. t;
  create_path = λ path w. (true, suc w);
  do_register = λ path raw w. (true, suc w);
  do_unregister = λ path raw w. (true, suc w);
  init_listeners = λ w. w;
  close_listener = λ w. w;
  close_client = λ w. w;
}

abbrev changes : List Change
changes = registers plain_url ∷ registers plain_url ∷ unregisters plain_url ∷ []

run-Follows_example :
    Leads
      (run facade changes)
      (init_base_registry 0)
      (λ oks s'. Follows facade changes oks (view facade (init_base_registry 0)) (view facade s'))
run-Follows_example = run-Follows facade changes (init_base_registry 0)

abbrev base_exporter : BaseExporter
base_exporter = record { key = codes "user"; invoker = exported }

abbrev two_entries : BaseProtocol
two_entries = record {
  exporter_map = (codes "user", some base_exporter) ∷ (codes "gone", none) ∷ [];
  invokers = some exported ∷ none ∷ [];
  destroyed = [];
}

destroy_base_protocol-nil_example :
    destroy_base_protocol two_entries
    ≡ record { exporter_map = []; invokers = []; destroyed = exported ∷ exported ∷ [] }
unfolding destroy_invokers
destroy_base_protocol-nil_example = destroy_base_protocol-nil two_entries (refl, (tt, tt))
