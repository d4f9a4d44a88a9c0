-- ===== src/V3Router/Rule.antt =====
-- cluster/router/v3router/uniform_rule.go, uniform_route.go and router_chain.go: what the rules make
-- of the invokers.
use incubator_dubbo_go.Prelude.{
  ℕ, suc, ◌+◌, ◌/◌, Bool, true, false, not, ◌&&◌, ◌||◌, List, [], ◌∷◌, Option, none, some,
  if◌then◌else◌, length, get_elem?, Text, text_key, lookup, insert,
}
use incubator_dubbo_go.Prelude.Int.{ℤ, pos, eqb_ℤ, ltb_ℤ, ◌+ℤ◌, wrap64}
use incubator_dubbo_go.Url.{Url, service_key, is_empty}
use incubator_dubbo_go.Protocol.{Invoker, Invocation, Outcome, done, panic}
use incubator_dubbo_go.V3Router.Judger.{
  StringMatch, DubboMethodMatch, DubboAttachmentMatch, Param, judge_url_label, judge_string,
  judge_attachments, judge_method,
}

pub record DubboMatchRequest (F : Type 0) : Type 0 where
  pub method : Option (DubboMethodMatch F)
  pub source_labels : List (Text × Text)
  pub attachment : Option DubboAttachmentMatch

-- DubboDestination: a subset with its weight, and what to fall back to.
pub data DubboDestination : Type 0 where
  final : Text → ℤ → DubboDestination
  with_fallback : Text → ℤ → DubboDestination → DubboDestination

pub record DubboRouteDetail (F : Type 0) : Type 0 where
  pub match : List (DubboMatchRequest F)
  pub router : List DubboDestination

-- The labels of each subset.
abbrev pub Labels : Type 0
Labels = List (Text × List (Text × Text))

pub record UniformRule (F : Type 0) : Type 0 where
  pub services : List StringMatch
  pub virtual_service_rules : List (DubboRouteDetail F)
  pub destination_label_list_map : Labels

pub record WeightInvokersPair : Type 0 where
  pub weight : ℤ
  pub invoker_list : List Invoker

-- The invokers that carry the labels, in their order.
unfoldable pub with_labels : List (Text × Text) → List Invoker → List Invoker
with_labels labels [] = []
with_labels labels (i ∷ is) =
    if judge_url_label i.url labels then i ∷ with_labels labels is else with_labels labels is

unfoldable pub of_subset : Labels → Text → List Invoker → List Invoker
unfolding with_labels lookup
of_subset dest subset is = elim (lookup subset dest) [
  | none ↦ []
  | some labels ↦ with_labels labels is
]

-- tryGetSubsetFromRouterOfOneDestination; `none` is the error.
unfoldable pub try_get_subset : Labels → DubboDestination → List Invoker → Option WeightInvokersPair
unfolding of_subset
try_get_subset dest (final subset weight) is =
    let found = of_subset dest subset is in
    if is_empty found then none else some (record { weight = weight; invoker_list = found })
try_get_subset dest (with_fallback subset weight next) is =
    let found = of_subset dest subset is in
    let rest = try_get_subset dest next is in
    if is_empty found then rest else some (record { weight = weight; invoker_list = found })

unfoldable pub no_weight : List WeightInvokersPair → Bool
no_weight [] = true
no_weight (p ∷ ps) = eqb_ℤ p.weight (pos 0) && no_weight ps

-- The loop over the sum of the weights.
unfoldable pub by_weight : ℤ → ℕ → List WeightInvokersPair → Option (List Invoker)
by_weight total target [] = none
by_weight total target (p ∷ ps) =
    let total' = wrap64 (total +ℤ p.weight) in
    let rest = by_weight total' target ps in
    if ltb_ℤ (pos target) total' then some p.invoker_list else rest

unfoldable pub list_at : List WeightInvokersPair → ℕ → Outcome (List Invoker)
list_at ps i = elim (get_elem? ps i) [ none ↦ panic | some p ↦ done p.invoker_list ]

-- getTargetInvokers; `target` is rand.Intn(100).
unfoldable pub get_target_invokers : ℕ → List WeightInvokersPair → Outcome (List Invoker)
unfolding no_weight by_weight list_at
get_target_invokers target [] = done []
get_target_invokers target (p ∷ []) = done p.invoker_list
get_target_invokers target (p ∷ q ∷ ps) =
    if no_weight (p ∷ q ∷ ps)
    then list_at (p ∷ q ∷ ps) (target / (100 / length (p ∷ q ∷ ps) + 1))
    else elim (by_weight (pos 0) target (p ∷ q ∷ ps)) [
      | some is ↦ done is
      | none ↦ list_at (p ∷ q ∷ ps) 0
    ]

unfoldable pub subsets :
    Labels → List DubboDestination → List Invoker → Option (List WeightInvokersPair)
unfolding try_get_subset
subsets dest [] is = some []
subsets dest (d ∷ ds) is = elim (try_get_subset dest d is) [
  | none ↦ none
  | some p ↦ elim (subsets dest ds is) [ none ↦ none | some ps ↦ some (p ∷ ps) ]
]

-- getRuleTargetInvokers; on an error route returns nil, which is empty.
unfoldable pub get_rule_target_invokers :
    ℕ → Labels → List DubboDestination → List Invoker → Outcome (List Invoker)
unfolding subsets get_target_invokers
get_rule_target_invokers target dest ds is = elim (subsets dest ds is) [
  | none ↦ done []
  | some ps ↦ get_target_invokers target ps
]

module _ (regexp : Text → Text → Bool) where
  unfoldable pub attachment_rejects : Option DubboAttachmentMatch → Invocation → Bool
  attachment_rejects none inv = false
  attachment_rejects (some m) inv = judge_attachments regexp m inv

  unfoldable pub match_service : List StringMatch → Text → Bool
  match_service [] key = false
  match_service (v ∷ vs) key = judge_string regexp v key || match_service vs key

module _ (regexp : Text → Text → Bool) {F : Type 0} where
  -- One round of match. The test of the attachments rejects where they match.
  unfoldable pub judge_method_of :
      Option (DubboMethodMatch F) → Invocation → List Param → Outcome Bool
  judge_method_of none inv ps = done true
  judge_method_of (some m) inv ps = judge_method regexp m inv ps

  unfoldable pub match_request : DubboMatchRequest F → Url → Invocation → List Param → Outcome Bool
  unfolding judge_method_of attachment_rejects
  match_request v u inv ps = elim (judge_method_of v.method inv ps) [
    | panic ↦ panic
    | done false ↦ done false
    | done true ↦
        if not (judge_url_label u v.source_labels)
        then done false
        else done (not (attachment_rejects regexp v.attachment inv))
  ]

  -- VirtualServiceRule.match
  unfoldable pub match_all :
      List (DubboMatchRequest F) → Url → Invocation → List Param → Outcome Bool
  unfolding match_request
  match_all [] u inv ps = done true
  match_all (v ∷ vs) u inv ps = elim (match_request v u inv ps) [
    | panic ↦ panic
    | done false ↦ done false
    | done true ↦ match_all vs u inv ps
  ]

  -- The loop over the details of a rule; the first that matches decides.
  unfoldable pub route_details :
      ℕ
      → Labels
      → List (DubboRouteDetail F)
      → List Invoker
      → Url
      → Invocation
      → List Param
      → Outcome (List Invoker)
  unfolding match_all get_rule_target_invokers
  route_details target dest [] is u inv ps = done []
  route_details target dest (r ∷ rs) is u inv ps = elim (match_all r.match u inv ps) [
    | panic ↦ panic
    | done true ↦ get_rule_target_invokers target dest r.router is
    | done false ↦ route_details target dest rs is u inv ps
  ]

  -- UniformRule.route
  unfoldable pub route_rule :
      ℕ → UniformRule F → List Invoker → Url → Invocation → List Param → Outcome (List Invoker)
  unfolding match_service route_details
  route_rule target r is u inv ps =
      if match_service regexp r.services (service_key u)
      then route_details target r.destination_label_list_map r.virtual_service_rules is u inv ps
      else done []

  -- UniformRouter.Route: the first rule that leaves an invoker decides. `draws i` is what the i-th
  -- rule draws.
  unfoldable pub route_uniform :
      (ℕ → ℕ)
      → List (UniformRule F)
      → List Invoker
      → Url
      → Invocation
      → List Param
      → Outcome (List Invoker)
  unfolding route_rule
  route_uniform draws [] is u inv ps = done []
  route_uniform draws (r ∷ rs) is u inv ps = elim (route_rule (draws 0) r is u inv ps) [
    | panic ↦ panic
    | done [] ↦ route_uniform (λ n. draws (suc n)) rs is u inv ps
    | done (j ∷ js) ↦ done (j ∷ js)
  ]

  -- RouterChain.Route: each router has the invokers that the one before it has left.
  unfoldable pub route_chain :
      (ℕ → ℕ → ℕ)
      → List (List (UniformRule F))
      → List Invoker
      → Url
      → Invocation
      → List Param
      → Outcome (List Invoker)
  unfolding route_uniform
  route_chain draws [] is u inv ps = done is
  route_chain draws (r ∷ rs) is u inv ps = elim (route_uniform (draws 0) r is u inv ps) [
    | panic ↦ panic
    | done js ↦ route_chain (λ n. draws (suc n)) rs js u inv ps
  ]

-- newUniformRule and NewUniformRouter: the rules of a DubboRoute, over the labels of its hosts.
pub record DubboRoute (F : Type 0) : Type 0 where
  pub services : List StringMatch
  pub router_detail : List (DubboRouteDetail F)

unfoldable pub new_uniform_rule : {F : Type 0} → DubboRoute F → Labels → UniformRule F
new_uniform_rule r dest = record {
  services = r.services;
  virtual_service_rules = r.router_detail;
  destination_label_list_map = dest;
}

unfoldable pub new_uniform_router :
    {F : Type 0} → List (DubboRoute F) → Labels → List (UniformRule F)
unfolding new_uniform_rule
new_uniform_router [] dest = []
new_uniform_router (r ∷ rs) dest = new_uniform_rule r dest ∷ new_uniform_router rs dest

-- mapCopy: the source's entries over those of dist.
unfoldable pub map_copy : Labels → Labels → Labels
unfolding insert
map_copy dist [] = dist
map_copy dist ((k, v) ∷ source) = map_copy (insert k v dist) source

-- parseRoute behind the decoding: the labels of the hosts of a virtual service, and its router.
pub record VirtualService (F : Type 0) : Type 0 where
  pub hosts : List Text
  pub dubbo : List (DubboRoute F)

unfoldable pub labels_of_hosts : List (Text × Labels) → List Text → Labels → Labels
unfolding map_copy lookup
labels_of_hosts rules [] dist = dist
labels_of_hosts rules (h ∷ hs) dist =
    labels_of_hosts rules hs
      (elim (lookup h rules) [ none ↦ dist | some labels ↦ map_copy dist labels ])

unfoldable pub make_routers :
    {F : Type 0} → List (Text × Labels) → List (VirtualService F) → List (List (UniformRule F))
unfolding labels_of_hosts new_uniform_router
make_routers rules [] = []
make_routers rules (v ∷ vs) =
    new_uniform_router v.dubbo (labels_of_hosts rules v.hosts []) ∷ make_routers rules vs
