-- ===== src/Router.antt =====
-- cluster/router/chain/chain.go: the chain of routers in front of the directories.
pub mod Order
use incubator_dubbo_go.Prelude.{
  ℕ, Bool, true, false, List, [], ◌∷◌, ◌++◌, Option, none, some, if◌then◌else◌, Text,
}
use incubator_dubbo_go.Prelude.Int.{ℤ, ltb_ℤ}
use incubator_dubbo_go.Url.{Url, is_empty}
use incubator_dubbo_go.Protocol.{Invoker, Invocation}

-- A PriorityRouter: its priority, and what it makes of the invokers.
pub record PriorityRouter : Type 0 where
  pub priority : ℤ
  pub route : List Invoker → Url → Invocation → List Invoker

pub record RouterChain : Type 0 where
  pub invokers : List Invoker
  pub routers : List PriorityRouter
  pub builtin_routers : List PriorityRouter

-- The loop of Route: each router is given the chain's invokers.
unfoldable pub route_loop :
    List Invoker → Url → Invocation → List PriorityRouter → List Invoker → List Invoker
route_loop invokers u inv [] final = final
route_loop invokers u inv (r ∷ rs) final = route_loop invokers u inv rs (r.route invokers u inv)

unfoldable pub route : RouterChain → Url → Invocation → List Invoker
unfolding route_loop
route c u inv = route_loop c.invokers u inv c.routers c.invokers

-- sort.Stable by priority: a router stands behind those before it that are not greater.
unfoldable pub insert_router : PriorityRouter → List PriorityRouter → List PriorityRouter
insert_router r [] = r ∷ []
insert_router r (q ∷ qs) =
    if ltb_ℤ q.priority r.priority then q ∷ insert_router r qs else r ∷ q ∷ qs

unfoldable pub sort_router : List PriorityRouter → List PriorityRouter
unfolding insert_router
sort_router [] = []
sort_router (r ∷ rs) = insert_router r (sort_router rs)

unfoldable pub add_routers : List PriorityRouter → RouterChain → RouterChain
unfolding sort_router
add_routers routers c = record c { routers = sort_router (c.builtin_routers ++ routers) }

unfoldable pub set_invokers : List Invoker → RouterChain → RouterChain
set_invokers is c = record c { invokers = is }

-- What a factory's NewPriorityRouter returns.
pub data Made : Type 0 where
  router : PriorityRouter → Made
  nil_router failed : Made

unfoldable pub made_routers : List Made → List PriorityRouter
made_routers [] = []
made_routers (router r ∷ ms) = r ∷ made_routers ms
made_routers (nil_router ∷ ms) = made_routers ms
made_routers (failed ∷ ms) = made_routers ms

-- NewRouterChain; without factories it is an error, `none`.
unfoldable pub new_router_chain : List Made → Option RouterChain
unfolding made_routers sort_router
new_router_chain [] = none
new_router_chain (m ∷ ms) = some (record {
  invokers = [];
  routers = sort_router (made_routers (m ∷ ms));
  builtin_routers = made_routers (m ∷ ms);
})
