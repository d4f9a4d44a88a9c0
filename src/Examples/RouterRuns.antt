-- ===== src/Examples/RouterRuns.antt =====
-- The rules of the version 3 router on the sample invokers.
use incubator_dubbo_go.Prelude.{
  ℕ, ◌≡◌, refl, arith, Bool, List, [], ◌∷◌, none, some, Text, codes, text_eq, Any,
}
use incubator_dubbo_go.Prelude.Int.{pos}
use incubator_dubbo_go.Protocol.{str, Invoker, Invocation, done}
use incubator_dubbo_go.V3Router.Judger.{
  StringMatch, DubboAttachmentMatch, judge_attachments, judge_string, judge_url_label,
}
use incubator_dubbo_go.V3Router.Rule.{
  DubboMatchRequest, final, with_fallback, UniformRule, WeightInvokersPair, get_target_invokers,
  route_rule,
}
use incubator_dubbo_go.V3Router.Weights.{get_target_invokers-interval, get_target_invokers-done}
use incubator_dubbo_go.V3Router.Allowed.{OnReturn, Allowed, route_rule-Allowed}
use incubator_dubbo_go.V3Router.Attachments.{Sends, route_rule-Unattached}
use incubator_dubbo_go.Examples.{plain_url, call, first_invoker, second_invoker, third_invoker}

abbrev first_weight : WeightInvokersPair
first_weight = record { weight = pos 30; invoker_list = first_invoker ∷ [] }

abbrev second_weight : WeightInvokersPair
second_weight = record { weight = pos 70; invoker_list = second_invoker ∷ third_invoker ∷ [] }

get_target_invokers-interval_example :
    get_target_invokers 45 (first_weight ∷ second_weight ∷ [])
    ≡ done (second_invoker ∷ third_invoker ∷ [])
get_target_invokers-interval_example =
    get_target_invokers-interval ((30, first_invoker ∷ []) ∷ []) [] 70
      (second_invoker ∷ third_invoker ∷ []) 45 (omega arith) (omega arith) (omega arith)

get_target_invokers-done_example :
    (is : List Invoker) × (get_target_invokers 99 (first_weight ∷ second_weight ∷ []) ≡ done is)
get_target_invokers-done_example =
    get_target_invokers-done 99 (first_weight ∷ second_weight ∷ []) (omega arith)

abbrev the_user : StringMatch
the_user = record { exact = codes "user"; prefix = []; regex = []; noempty = []; empty = [] }

abbrev any_string : StringMatch
any_string = record { exact = []; prefix = []; regex = []; noempty = []; empty = [] }

-- The regular expressions that have no operators.
abbrev same_text : Text → Text → Bool
same_text = text_eq

abbrev user_rule : UniformRule ℕ
user_rule = record {
  services = any_string ∷ [];
  virtual_service_rules =
      (record {
        match = [];
        router = with_fallback (codes "v2") (pos 1) (final (codes "v1") (pos 1)) ∷ [];
      })
      ∷ [];
  destination_label_list_map = (codes "v1", []) ∷ [];
}

route_rule-Allowed_example :
    OnReturn
      (route_rule same_text 10 user_rule (first_invoker ∷ second_invoker ∷ []) plain_url call [])
      (Allowed user_rule.destination_label_list_map (first_invoker ∷ second_invoker ∷ []))
route_rule-Allowed_example =
    route_rule-Allowed same_text plain_url call [] 10 user_rule
      (first_invoker ∷ second_invoker ∷ [])

abbrev user_call : Invocation
user_call = record {
  method_name = codes "get";
  arguments = [];
  attachments = (codes "role", str (codes "user")) ∷ [];
}

abbrev user_attachment : DubboAttachmentMatch
user_attachment = record {
  eagleeye_context = none;
  dubbo_context = some ((codes "role", the_user) ∷ []);
}

abbrev user_request : DubboMatchRequest ℕ
user_request = record { method = none; source_labels = []; attachment = some user_attachment }

-- A rule with a condition on the attachments, which the sample call does not meet.
abbrev attached_rule : UniformRule ℕ
attached_rule = record user_rule {
  virtual_service_rules =
      (record { match = user_request ∷ []; router = final (codes "v1") (pos 1) ∷ [] }) ∷ [];
}

route_rule-Unattached_example :
    Any
      (Sends same_text plain_url call [] 10 attached_rule.destination_label_list_map
        (first_invoker ∷ [])
        (first_invoker ∷ []))
      attached_rule.virtual_service_rules
unfolding route_rule judge_string judge_url_label judge_attachments
route_rule-Unattached_example =
    route_rule-Unattached same_text plain_url call [] 10 attached_rule (first_invoker ∷ [])
      first_invoker [] refl
