-- ===== src/Directory/Static.antt =====
-- cluster/directory/base/directory.go and cluster/directory/static/directory.go.
use incubator_dubbo_go.Prelude.{
  ◌&&◌, Bool, true, false, not, List, [], ◌∷◌, Option, none, some, if◌then◌else◌, Text, codes,
  text_eq,
}
use incubator_dubbo_go.Url.{Url, get_param, sub_url, service_key, is_empty}
use incubator_dubbo_go.Protocol.{Invoker, Invocation}
use incubator_dubbo_go.Router.{RouterChain, Made, route, set_invokers, new_router_chain}

-- The static directory with its base: the URL is nil if there are no invokers.
pub record StaticDirectory : Type 0 where
  pub url : Option Url
  pub is_destroyed : Bool
  pub router_chain : Option RouterChain
  pub invokers : List Invoker

unfoldable pub first_url : List Invoker → Option Url
first_url [] = none
first_url (i ∷ is) = some i.url

-- NewDirectory: base.NewDirectory gives an empty chain.
unfoldable pub new_directory : List Invoker → StaticDirectory
unfolding first_url set_invokers
new_directory is = record {
  url = first_url is;
  is_destroyed = false;
  router_chain =
      some (set_invokers is (record { invokers = []; routers = []; builtin_routers = [] }));
  invokers = is;
}

-- SetRouterChain
unfoldable pub set_router_chain : Option RouterChain → StaticDirectory → StaticDirectory
set_router_chain c d = record d { router_chain = c }

-- isProperRouter: `none` where it reads a SubURL that is nil.
abbrev directory_application : Url → Text
directory_application u =
    let own = get_param u (codes "application") [] in
    elim (sub_url u) [
      | none ↦ own
      | some s ↦ if is_empty own then get_param s (codes "application") [] else own
    ]

unfoldable pub directory_service_key : Url → Option Text
unfolding service_key sub_url
directory_service_key u =
    if is_empty (service_key u)
    then elim (sub_url u) [ none ↦ none | some s ↦ some (service_key s) ]
    else some (service_key u)

unfoldable pub is_proper_router : Url → Url → Option Bool
unfolding directory_service_key get_param text_eq
is_proper_router directory u =
    let app = get_param u (codes "application") [] in
    elim (directory_service_key directory) [
      | none ↦ none
      | some k ↦ some (
          if not (is_empty app) && text_eq app (directory_application directory)
          then true
          else text_eq (service_key u) k)
    ]

-- IsAvailable of the static directory: all invokers are, and there is one.
unfoldable pub all_available : {W : Type 0} → (Invoker → W → Bool × W) → List Invoker → W → Bool × W
all_available ask [] w = (true, w)
all_available ask (i ∷ is) w =
    let rest = all_available ask is (ask i w).1 in
    if (ask i w).0 then rest else (false, (ask i w).1)

unfoldable pub static_is_available :
    {W : Type 0} → (Invoker → W → Bool × W) → StaticDirectory → W → Bool × W
unfolding all_available
static_is_available ask d w =
    if is_empty d.invokers then (false, w) else all_available ask d.invokers w

-- List
unfoldable pub static_list : StaticDirectory → Url → Invocation → List Invoker
unfolding route
static_list d u inv = elim d.router_chain [ none ↦ d.invokers | some c ↦ route c u inv ]

-- Destroy: the invokers that it destroys, and the directory.
unfoldable pub destroy_static : StaticDirectory → List Invoker × StaticDirectory
destroy_static d =
    if d.is_destroyed
    then ([], d)
    else (d.invokers, record d { is_destroyed = true; invokers = [] })

-- BuildRouterChain: `none` is the error.
unfoldable pub build_router_chain :
    List Made → List Invoker → StaticDirectory → Option StaticDirectory
unfolding new_router_chain set_invokers set_router_chain
build_router_chain made [] d = none
build_router_chain made (i ∷ is) d = elim (new_router_chain made) [
  | none ↦ none
  | some c ↦ some (set_router_chain (some (set_invokers d.invokers c)) d)
]
