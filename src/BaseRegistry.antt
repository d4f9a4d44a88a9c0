-- ===== src/BaseRegistry.antt =====
-- registry/base_registry.go: what the registries share.
pub mod Services
pub mod Map
use incubator_dubbo_go.Prelude.{
  ℕ, ◌&&◌, ◌||◌, Bool, true, false, not, List, [], ◌∷◌, ◌++◌, Option, none, some, if◌then◌else◌,
  Text, codes, text_eq, text_key, lookup, insert, erase, ◌==◌,
}
use incubator_dubbo_go.Prelude.Int.{ℤ, pos, negsuc}
use incubator_dubbo_go.Strconv.{atoi_value}
use incubator_dubbo_go.Url.{Url, Values, get_param, values_add, key, service, is_empty}
use incubator_dubbo_go.Url.Merge.{range_params}
use incubator_dubbo_go.Protocol.{Outcome, done, panic}
pub use incubator_dubbo_go.Stateful.{Stateful, ◌>>=◌, ◌>>◌, pure, lift, gets, modify}

-- The facade and the packages that the registry calls: each call says whether it had no error.
pub record Env (W : Type 0) : Type 0 where
  pub ip_to_registry : Text
  pub port_to_registry : Text
  pub process_id : Text
  pub local_ip : Text
  -- url.QueryEscape
  pub query_escape : Text → Text
  -- QueryUnescape of Encode
  pub encode : Values → Text
  -- strings.ReplaceAll(path, "$", "%24")
  pub escape_dollar : Text → Text
  pub create_path : Text → W → Bool × W
  pub do_register : Text → Text → W → Bool × W
  pub do_unregister : Text → Text → W → Bool × W
  pub init_listeners : W → W
  pub close_listener : W → W
  pub close_client : W → W

-- BaseRegistry; `is_done` says whether the channel done is closed.
pub record BaseRegistry (W : Type 0) : Type 0 where
  pub services : List (Text × Url)
  pub is_done : Bool
  pub world : W

abbrev pub Br : Type 0 → Type 0 → Type 0
Br W A = Stateful (BaseRegistry W) A

-- InitBaseRegistry
unfoldable pub init_base_registry : {W : Type 0} → W → BaseRegistry W
init_base_registry w = record { services = []; is_done = false; world = w }

-- strings.Join(methods, ",")
unfoldable pub join_methods : List Text → Text
join_methods [] = []
join_methods (m ∷ []) = m
join_methods (m ∷ n ∷ ms) = m ++ (codes "," ++ join_methods (n ∷ ms))

-- The parameters whose first value is not empty.
unfoldable pub drop_empty : Values → Values
drop_empty [] = []
drop_empty ((k, []) ∷ ps) = (k, []) ∷ drop_empty ps
drop_empty ((k, [] ∷ vs) ∷ ps) = drop_empty ps
drop_empty ((k, (c ∷ v) ∷ vs) ∷ ps) = (k, (c ∷ v) ∷ vs) ∷ drop_empty ps

unfoldable pub add_all : List (Text × Text) → Values → Values
unfolding values_add
add_all [] ps = ps
add_all ((k, v) ∷ r) ps = add_all r (values_add ps k v)

module _ {W : Type 0} (env : Env W) where
  abbrev pub on_world : (W → Bool × W) → Br W Bool
  on_world f s = let (ok, w) = f s.world in done (ok, record s { world = w })

  abbrev pub change_world : (W → W) → Br W (Unit {0})
  change_world f s = done (tt, record s { world = f s.world })

  -- "/dubbo/" + service + "/" + node
  unfoldable pub dubbo_path : Url → Text → Text
  unfolding service
  dubbo_path c node = codes "/dubbo/" ++ (env.query_escape (service c) ++ (codes "/" ++ node))

  unfoldable pub provider_host : Url → Text
  provider_host c = (if is_empty c.ip then env.local_ip else c.ip) ++ (codes ":" ++ c.port)

  unfoldable pub provider_raw_url : Url → Values → Text
  unfolding provider_host values_add join_methods drop_empty
  provider_raw_url c params =
      c.protocol
      ++ (codes "://"
          ++ (provider_host c
              ++ (c.path
                  ++ (codes "?"
                      ++ env.encode (
                          drop_empty (
                            values_add (values_add params (codes "anyhost") (codes "true"))
                              (codes "methods") (join_methods c.methods)))))))

  -- createPathFunc: only registration has one.
  unfoldable pub make_path : Bool → Text → Br W Bool
  make_path true path = on_world (env.create_path path)
  make_path false path = pure true

  -- providerRegistry: the path and the URL, or `none` for an error.
  unfoldable pub provider_registry : Bool → Url → Values → Br W (Option (Text × Text))
  unfolding dubbo_path provider_raw_url make_path
  provider_registry creates c params =
      if is_empty c.path || is_empty c.methods then pure none else (do
        ok ← make_path creates (dubbo_path c (codes "providers"))
        pure (
            if ok
            then some (dubbo_path c (codes "providers"), provider_raw_url c params)
            else none))

  unfoldable pub consumer_raw_url : Url → Values → Text
  unfolding values_add
  consumer_raw_url c params =
      codes "consumer://"
      ++ (env.local_ip
          ++ (c.path
              ++ (codes "?" ++ env.encode (values_add params (codes "protocol") c.protocol))))

  -- The second path of a consumer, if the first was made.
  unfoldable pub providers_path : Bool → Bool → Url → Values → Br W (Option (Text × Text))
  unfolding dubbo_path consumer_raw_url make_path
  providers_path false creates c params = pure none
  providers_path true creates c params = do
    ok ← make_path creates (dubbo_path c (codes "providers"))
    pure (if ok then some (dubbo_path c (codes "consumers"), consumer_raw_url c params) else none)

  -- consumerRegistry
  unfoldable pub consumer_registry : Bool → Url → Values → Br W (Option (Text × Text))
  unfolding dubbo_path make_path providers_path
  consumer_registry creates c params = do
    ok ← make_path creates (dubbo_path c (codes "consumers"))
    providers_path ok creates c params

  -- The role of a URL, whose error is not looked at.
  unfoldable pub role_of : Url → ℤ
  unfolding get_param atoi_value
  role_of c = atoi_value (get_param c (codes "registry.role") [])

  unfoldable pub registry_of_role : ℤ → Bool → Url → Values → Br W (Option (Text × Text))
  unfolding provider_registry consumer_registry
  registry_of_role (pos n) creates c params =
      if n == 3
      then provider_registry creates c params
      else if n == 0
      then consumer_registry creates c params
      else pure none
  registry_of_role (negsuc n) creates c params = pure none

  unfoldable pub call_found : (Text → Text → W → Bool × W) → Option (Text × Text) → Br W Bool
  call_found f none = pure false
  call_found f (some (path, raw)) = on_world (f (env.escape_dollar path) (env.query_escape raw))

  -- processURL, with the function that it calls in the end.
  unfoldable pub process_url : (Text → Text → W → Bool × W) → Bool → Url → Br W Bool
  unfolding range_params add_all values_add role_of registry_of_role call_found
  process_url f creates c = do
    r ← lift (range_params c.params)
    let params =
        values_add (values_add (add_all r []) (codes "pid") env.process_id) (codes "ip")
          env.local_ip
    found ← registry_of_role (role_of c) creates c params
    call_found f found

  unfoldable pub register_url : Url → Br W Bool
  unfolding process_url
  register_url c = process_url env.do_register true c

  unfoldable pub unregister_url : Url → Br W Bool
  unfolding process_url
  unregister_url c = process_url env.do_unregister false c

  -- The address that the environment asks for.
  unfoldable pub registered_address : Url → Url
  registered_address c = record c {
    own = record (c.own) {
      ip = (if is_empty env.ip_to_registry then c.ip else env.ip_to_registry);
      port = (if is_empty env.port_to_registry then c.port else env.port_to_registry);
    };
  }

  -- Destroy leaves a nil map, to which nothing can be added.
  unfoldable pub store_service : Url → Bool → Br W Bool
  unfolding insert key
  store_service c true s =
      if s.is_done then panic else done (true, record s { services = insert (key c) c s.services })
  store_service c false s = done (false, s)

  unfoldable pub register_unless : Option Url → Url → Br W Bool
  unfolding register_url store_service
  register_unless (some old) c = pure false
  register_unless none c = do ok ← register_url c; store_service c ok

  -- Register: whether it had no error.
  unfoldable pub register : Url → Br W Bool
  unfolding registered_address register_unless lookup key
  register c s =
      register_unless (lookup (key (registered_address c)) s.services) (registered_address c) s

  unfoldable pub drop_service : Url → Br W (Unit {0})
  unfolding erase key
  drop_service c s = done (tt, record s { services = erase (key c) s.services })

  -- What UnRegister does behind the answer: a refusal puts the service back.
  unfoldable pub restore_service : Url → Url → Bool → Br W Bool
  unfolding insert key
  restore_service c old true s = done (true, s)
  restore_service c old false s =
      done (false, record s { services = insert (key c) old s.services })

  unfoldable pub unregister_known : Url → Option Url → Br W Bool
  unfolding drop_service unregister_url restore_service
  unregister_known c none = do drop_service c; pure false
  unregister_known c (some old) = do drop_service c; ok ← unregister_url c; restore_service c old ok

  -- UnRegister
  unfoldable pub un_register : Url → Br W Bool
  unfolding unregister_known lookup key
  un_register c s = unregister_known c (lookup (key c) s.services) s

  -- RestartCallBack
  unfoldable pub register_services : List (Text × Url) → Br W Bool
  unfolding register_url
  register_services [] = pure true
  register_services ((k, c) ∷ services) = do
    ok ← register_url c
    if ok then register_services services else pure false

  unfoldable pub restart_call_back : Br W Bool
  unfolding register_services
  restart_call_back = do
    services ← gets (λ s. s.services)
    ok ← register_services services
    if ok then (do change_world env.init_listeners; pure true) else pure false

  -- IsAvailable
  unfoldable pub registry_is_available : BaseRegistry W → Bool
  registry_is_available s = not s.is_done

  -- Destroy: to close a channel that is closed is a panic.
  unfoldable pub destroy_registry : Br W (Unit {0})
  destroy_registry s =
      if s.is_done
      then panic
      else done (
        tt,
        record {
          services = [];
          is_done = true;
          world = env.close_client (env.close_listener s.world);
        },
      )
