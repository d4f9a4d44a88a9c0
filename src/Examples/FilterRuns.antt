-- ===== src/Examples/FilterRuns.antt =====
-- The filters on sample requests.
use incubator_dubbo_go.Prelude.{
  ℕ, ◌≡◌, refl, arith, ◌++◌, true, false, List, [], ◌∷◌, none, some, Text, codes, text_eq, lookup,
}
use incubator_dubbo_go.Prelude.Int.{pos, ◌+ℤ◌, ◌≤ℤ◌, wrap32, wrap64}
use incubator_dubbo_go.Url.{Url}
use incubator_dubbo_go.Protocol.{done, empty_result}
use incubator_dubbo_go.Filter.{Call, Handler, build_invoker_chain}
use incubator_dubbo_go.Filter.Chain.{
  Event, noting, answering, order, filter_names, build_invoker_chain-order,
}
use incubator_dubbo_go.Filter.Shutdown.{
  ShutdownConfig, Setting, shutdown_config, Shutdown, shutdown_invoke, set_all,
  shutdown_invoke-set_all,
}
use incubator_dubbo_go.Filter.ExecuteLimit.{enter, count_of}
use incubator_dubbo_go.Filter.ExecuteLimit.Counts.{
  Flow, Reach, here, next, enters, IsCounted, Reach-IsCounted,
}
use incubator_dubbo_go.Filter.ExecuteLimit.Targets.{
  TargetedFlow, request_enters, no_step, one_more, running_of, running_of-le-rate,
}
use incubator_dubbo_go.Examples.{plain_url, url_with, call}
use incubator_dubbo_go.Examples.LimiterRuns.{assoc_map, assoc_map-IsMap}

abbrev filtered_url : Url
filtered_url = url_with ((codes "service.filter", codes "echo,token" ∷ []) ∷ [])

abbrev fresh_call : Call (List Event)
fresh_call = record { inv = call; world = [] }

build_invoker_chain-order_example :
    (h : Handler (List Event)) × (build_invoker_chain
        (λ name. some (noting name))
        filtered_url
        (codes "service.filter")
        (answering empty_result)
      ≡ done h)
    × (h fresh_call
        ≡ done (
          empty_result,
          record fresh_call {
            world = [] ++ order (filter_names filtered_url (codes "service.filter"));
          },
        ))
build_invoker_chain-order_example =
    build_invoker_chain-order filtered_url (codes "service.filter") empty_result fresh_call

abbrev rejecting : ShutdownConfig
rejecting = record { reject_request_handler = []; reject_request = true; requests_finished = false }

abbrev unset_filter : Shutdown ℕ
unset_filter = record { active_count = pos 0; config = none; rest = 0 }

abbrev answer : Handler (Shutdown ℕ)
answer c = done (empty_result, c)

abbrev rejecting_settings : List (Text × Setting)
rejecting_settings = (codes "GracefulShutdownFilterShutdownConfig", shutdown_config rejecting) ∷ []

shutdown_invoke-set_all_example :
    shutdown_invoke
      (λ name. none)
      plain_url
      answer
      (record { inv = call; world = set_all rejecting_settings unset_filter })
    ≡ answer (record {
      inv = call;
      world = record (set_all rejecting_settings unset_filter) {
        active_count = wrap32 (pos 0 +ℤ pos 1);
      };
    })
shutdown_invoke-set_all_example =
    shutdown_invoke-set_all (λ name. none) rejecting_settings plain_url answer call unset_filter
      refl

abbrev empty_flow : Flow (List (Text × ℕ))
empty_flow = record { state = record { map = []; counts = []; next = 0 }; active = [] }

empty_flow-IsCounted : IsCounted assoc_map empty_flow
unfolding count_of lookup
empty_flow-IsCounted = record {
  exact = λ r. refl;
  used = λ k r e. absurd (cc e);
  new = λ r l. refl;
  few = omega arith;
}

abbrev target : Text
target = codes "/user"

-- One request has entered, at a rate of 2.
abbrev one_running : Flow (List (Text × ℕ))
one_running = record {
  state = (enter assoc_map target (pos 2) empty_flow.state).2;
  active =
      (
        (enter assoc_map target (pos 2) empty_flow.state).0,
        (enter assoc_map target (pos 2) empty_flow.state).1,
      )
      ∷ [];
}

empty_flow-Reach : Reach assoc_map empty_flow one_running
empty_flow-Reach = next here (enters empty_flow target (pos 2) (omega arith))

Reach-IsCounted_example : IsCounted assoc_map one_running
Reach-IsCounted_example =
    Reach-IsCounted assoc_map assoc_map-IsMap empty_flow-IsCounted empty_flow-Reach

abbrev no_requests : TargetedFlow (List (Text × ℕ))
no_requests = record { state = empty_flow.state; requests = [] }

abbrev one_request : TargetedFlow (List (Text × ℕ))
one_request = record {
  state = (enter assoc_map target (pos 2) empty_flow.state).2;
  requests =
      (
        target,
        (
          (enter assoc_map target (pos 2) empty_flow.state).0,
          (enter assoc_map target (pos 2) empty_flow.state).1,
        ),
      )
      ∷ [];
}

running_of-le-rate_example :
    pos (
      running_of target (
        (target, ((enter assoc_map target (pos 2) one_request.state).0, true))
        ∷ one_request.requests))
    ≤ℤ pos 2
unfolding enter wrap64 ◌+ℤ◌ text_eq
running_of-le-rate_example =
    running_of-le-rate assoc_map assoc_map-IsMap {f = no_requests} {g = one_request} target (pos 2)
      empty_flow-IsCounted tt
      (one_more no_step (request_enters no_requests target (pos 2) (omega arith))) (omega arith)
      refl
