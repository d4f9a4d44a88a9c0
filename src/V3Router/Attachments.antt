-- ===== src/V3Router/Attachments.antt =====
-- cluster/router/v3router/uniform_rule.go, match: the conditions on attachments.
use incubator_dubbo_go.Prelude.{
  ℕ, ◌≡◌, refl, Bool, true, false, List, [], ◌∷◌, some, All, Any, ◌⊎◌, inl, inr, Bool-cases, Text,
}
use incubator_dubbo_go.Url.{Url, service_key}
use incubator_dubbo_go.Protocol.{Invoker, Invocation, done, panic, Outcome-cases}
use incubator_dubbo_go.V3Router.Judger.{
  DubboAttachmentMatch, Param, judge_attachments, judge_url_label,
}
use incubator_dubbo_go.V3Router.Rule.{
  DubboMatchRequest, attachment_rejects, judge_method_of, match_request, match_all,
  DubboRouteDetail, UniformRule, Labels, get_rule_target_invokers, route_details, match_service,
  route_rule,
}

module _ (regexp : Text → Text → Bool) {F : Type 0} (u : Url) (inv : Invocation)
    (ps : List Param) where
  -- The request's condition on the attachments, if it has one, does not hold.
  abbrev pub Unattached : DubboMatchRequest F → Type 0
  Unattached v =
      (m : DubboAttachmentMatch) → v.attachment ≡ some m → judge_attachments regexp m inv ≡ false

  match_request-ne-true :
      (v : DubboMatchRequest F) (m : DubboAttachmentMatch)
      → v.attachment ≡ some m
      → judge_attachments regexp m inv ≡ true
      → (match_request regexp v u inv ps ≡ panic) ⊎ (match_request regexp v u inv ps ≡ done false)
  unfolding match_request attachment_rejects
  match_request-ne-true v m a h = elim (Outcome-cases (judge_method_of regexp v.method inv ps)) [
    | inl e ↦ inl (rw (e, match_request) refl)
    | inr (false, e) ↦ inr (rw (e, match_request) refl)
    | inr (true, e) ↦ elim (Bool-cases (judge_url_label u v.source_labels)) [
      | inl f ↦ inr (rw (e, f, a, h, match_request, attachment_rejects) refl)
      | inr f ↦ inr (rw (e, f, match_request) refl)
    ]
  ]

  match_request-Unattached :
      (v : DubboMatchRequest F) → match_request regexp v u inv ps ≡ done true → Unattached v
  match_request-Unattached v e m a = elim (Bool-cases (judge_attachments regexp m inv)) [
    | inr f ↦ f
    | inl t ↦ elim (match_request-ne-true v m a t) [
      | inl q ↦ absurd (cc (e, q))
      | inr q ↦ absurd (cc (e, q))
    ]
  ]

  match_all-Unattached :
      (vs : List (DubboMatchRequest F))
      → match_all regexp vs u inv ps ≡ done true
      → All Unattached vs
  unfolding match_all
  match_all-Unattached [] e = tt
  match_all-Unattached (v ∷ vs) e = elim (Outcome-cases (match_request regexp v u inv ps)) [
    | inl q ↦ absurd (cc (rw (q, match_all) at e))
    | inr (false, q) ↦ absurd (cc (rw (q, match_all) at e))
    | inr (true, q) ↦
        (match_request-Unattached v q, match_all-Unattached vs (rw (q, match_all) at e))
  ]

  -- What a detail sends the request to, where none of its conditions on attachments holds.
  abbrev pub Sends : ℕ → Labels → List Invoker → List Invoker → DubboRouteDetail F → Type 0
  Sends target dest is chosen r =
      All Unattached r.match × (get_rule_target_invokers target dest r.router is ≡ done chosen)

  route_details-Unattached :
      (target : ℕ) (dest : Labels) (is : List Invoker) (i : Invoker) (js : List Invoker)
      (rs : List (DubboRouteDetail F))
      → route_details regexp target dest rs is u inv ps ≡ done (i ∷ js)
      → Any (Sends target dest is (i ∷ js)) rs
  unfolding route_details
  route_details-Unattached target dest is i js [] e = cc e
  route_details-Unattached target dest is i js (r ∷ rs) e =
      elim (Outcome-cases (match_all regexp r.match u inv ps)) [
        | inl q ↦ absurd (cc (rw (q, route_details) at e))
        | inr (true, q) ↦ inl (match_all-Unattached r.match q, rw (q, route_details) at e)
        | inr (false, q) ↦
            inr (route_details-Unattached target dest is i js rs (rw (q, route_details) at e))
      ]

  -- If a rule gives a request any invoker, it does so by a detail of which no condition on the
  -- attachments holds of the request.
  pub route_rule-Unattached :
      (target : ℕ) (r : UniformRule F) (is : List Invoker) (i : Invoker) (js : List Invoker)
      → route_rule regexp target r is u inv ps ≡ done (i ∷ js)
      → Any (Sends target r.destination_label_list_map is (i ∷ js)) r.virtual_service_rules
  unfolding route_rule
  route_rule-Unattached target r is i js e =
      elim (Bool-cases (match_service regexp r.services (service_key u))) [
        | inl q ↦
            route_details-Unattached target r.destination_label_list_map is i js
              r.virtual_service_rules (rw (q, route_rule) at e)
        | inr q ↦ absurd (cc (rw (q, route_rule) at e))
      ]
