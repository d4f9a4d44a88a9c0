-- ===== src/Router/Order.antt =====
-- The order of the routers in a chain, and what Route makes of them.
use incubator_dubbo_go.Prelude.{
  ◌≡◌, refl, List, [], ◌∷◌, ◌++◌, if◌then◌else◌, arith, All, Bool-cases, inl, inr,
}
use incubator_dubbo_go.Prelude.Int.{ℤ, ltb_ℤ, eqb_ℤ, ◌≤ℤ◌}
use incubator_dubbo_go.Url.{Url}
use incubator_dubbo_go.Protocol.{Invoker, Invocation}
use incubator_dubbo_go.Router.{
  PriorityRouter, RouterChain, route, route_loop, insert_router, sort_router, add_routers,
}

route_loop-last :
    (is : List Invoker) (u : Url) (inv : Invocation) (rs : List PriorityRouter) (r : PriorityRouter)
    (final : List Invoker)
    → route_loop is u inv (rs ++ r ∷ []) final ≡ r.route is u inv
unfolding route_loop
route_loop-last is u inv [] r final = refl
route_loop-last is u inv (q ∷ rs) r final = route_loop-last is u inv rs r (q.route is u inv)

-- What Route returns is what its last router makes of all the invokers of the chain: the routers
-- before it have no say in it.
pub route-last :
    (c : RouterChain) (u : Url) (inv : Invocation) (rs : List PriorityRouter) (r : PriorityRouter)
    → c.routers ≡ rs ++ r ∷ []
    → route c u inv ≡ r.route c.invokers u inv
unfolding route
route-last c u inv rs r e = rw e (route_loop-last c.invokers u inv rs r c.invokers)

-- The routers of one priority, in order.
unfoldable pub with_priority : ℤ → List PriorityRouter → List PriorityRouter
with_priority p [] = []
with_priority p (r ∷ rs) =
    let rest = with_priority p rs in if eqb_ℤ r.priority p then r ∷ rest else rest

-- No router has a greater priority than one behind it.
abbrev pub Ascending : List PriorityRouter → Type 0
Ascending [] = Unit
Ascending (r ∷ rs) = All (λ q. r.priority ≤ℤ q.priority) rs × Ascending rs

All-insert_router :
    (P : PriorityRouter → Type 0) (r : PriorityRouter) (qs : List PriorityRouter)
    → P r
    → All P qs
    → All P (insert_router r qs)
unfolding insert_router
All-insert_router P r [] h a = (h, tt)
All-insert_router P r (q ∷ qs) h a = elim (Bool-cases (ltb_ℤ q.priority r.priority)) [
  | inl e ↦ rw e (a.0, All-insert_router P r qs h a.1)
  | inr e ↦ rw e (h, a)
]

All-weaken :
    (p : ℤ) (r : PriorityRouter) (qs : List PriorityRouter)
    → r.priority ≤ℤ p
    → All (λ q. p ≤ℤ q.priority) qs
    → All (λ q. r.priority ≤ℤ q.priority) qs
All-weaken p r [] h a = tt
All-weaken p r (q ∷ qs) h a = (omega (arith, h, a.0), All-weaken p r qs h a.1)

insert_router-Ascending :
    (r : PriorityRouter) (qs : List PriorityRouter) → Ascending qs → Ascending (insert_router r qs)
unfolding insert_router
insert_router-Ascending r [] a = (tt, tt)
insert_router-Ascending r (q ∷ qs) a = elim (Bool-cases (ltb_ℤ q.priority r.priority)) [
  | inl e ↦ rw e (
    All-insert_router (λ x. q.priority ≤ℤ x.priority) r qs (ground arith) a.0,
    insert_router-Ascending r qs a.1,
  )
  | inr e ↦ rw e ((ground arith, All-weaken q.priority r qs (ground arith) a.0), a)
]

sort_router-Ascending : (rs : List PriorityRouter) → Ascending (sort_router rs)
unfolding sort_router
sort_router-Ascending [] = tt
sort_router-Ascending (r ∷ rs) =
    insert_router-Ascending r (sort_router rs) (sort_router-Ascending rs)

with_priority-insert_router :
    (p : ℤ) (r : PriorityRouter) (qs : List PriorityRouter)
    → with_priority p (insert_router r qs) ≡ with_priority p (r ∷ qs)
unfolding with_priority insert_router
with_priority-insert_router p r [] = refl
with_priority-insert_router p r (q ∷ qs) = ground (arith, with_priority-insert_router p r qs)

with_priority-sort_router :
    (p : ℤ) (rs : List PriorityRouter) → with_priority p (sort_router rs) ≡ with_priority p rs
unfolding sort_router with_priority
with_priority-sort_router p [] = refl
with_priority-sort_router p (r ∷ rs) =
    ground (arith, with_priority-insert_router p r (sort_router rs), with_priority-sort_router p rs)

-- AddRouters orders the built-in and the given routers by their priority, and keeps the order of
-- those of the same priority, the built-in ones first: none is lost or made twice.
pub add_routers-order :
    (given : List PriorityRouter) (c : RouterChain)
    → Ascending (add_routers given c).routers
      × ((p : ℤ)
          → with_priority p (add_routers given c).routers
            ≡ with_priority p (c.builtin_routers ++ given))
unfolding add_routers
add_routers-order given c = (
  sort_router-Ascending (c.builtin_routers ++ given),
  λ p. with_priority-sort_router p (c.builtin_routers ++ given),
)
