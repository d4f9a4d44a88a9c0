-- ===== src/Examples/StateRuns.antt =====
-- The stateful parts on small states: statuses, pending responses, limiters and router chains.
use incubator_dubbo_go.Prelude.{
  ℕ, zero, suc, ◌<◌, ◌≡◌, refl, arith, false, true, [], ◌∷◌, none, codes, text_eq, List, ◌*◌,
}
use incubator_dubbo_go.Prelude.Int.{ℤ, pos, ◌+ℤ◌, wrap64}
use incubator_dubbo_go.Url.{key}
use incubator_dubbo_go.Protocol.{Invoker, nil}
use incubator_dubbo_go.Protocol.Status.{
  Registry, begin_count, end_count, get_url_status, get_method_status, get_invoker_healthy_status,
  try_refresh_black_list, get_black_list_invokers,
}
use incubator_dubbo_go.Protocol.Status.Counters.{url_active, method_active, end_count-begin_count}
use incubator_dubbo_go.Protocol.Status.Health.{try_refresh_black_list_first_three, NotFirst}
use incubator_dubbo_go.Remoting.{Exchange, Response, new_pending_response}
use incubator_dubbo_go.Tps.{FixedWindow, create_sliding}
use incubator_dubbo_go.Tps.Fixed.{allowed, allowed-count}
use incubator_dubbo_go.Tps.Sliding.History.{window_answers, history_answers, window_answers-history}
use incubator_dubbo_go.Router.{PriorityRouter, RouterChain, route, add_routers}
use incubator_dubbo_go.Router.Order.{Ascending, with_priority, route-last, add_routers-order}
use incubator_dubbo_go.Examples.{first_invoker, second_invoker, empty_registry, plain_url, call}

end_count-begin_count_example :
    (url_active
        (end_count
          (pos 1)
          (pos 2)
          (begin_count empty_registry plain_url (codes "get"))
          plain_url
          (codes "get")
          (pos 5)
          false)
        plain_url
      ≡ url_active empty_registry plain_url)
    × (method_active
          (end_count
            (pos 1)
            (pos 2)
            (begin_count empty_registry plain_url (codes "get"))
            plain_url
            (codes "get")
            (pos 5)
            false)
          plain_url
          (codes "get")
        ≡ method_active empty_registry plain_url (codes "get"))
unfolding get_url_status get_method_status
end_count-begin_count_example =
    end_count-begin_count (pos 1) (pos 2) (pos 5) false empty_registry plain_url (codes "get")
      (omega arith, omega arith) (omega arith, omega arith)

-- A black list of four invokers, all of which are available: the fourth stays on it.
abbrev invoker_at : ℕ → Invoker
invoker_at n = record {
  ref = n;
  url = record plain_url { own = record (plain_url.own) { port = n ∷ [] } };
}

abbrev four_marked : Registry
four_marked = record empty_registry {
  invoker_black_list =
      (key (invoker_at 49).url, invoker_at 49)
      ∷ (key (invoker_at 50).url, invoker_at 50)
      ∷ (key (invoker_at 51).url, invoker_at 51)
      ∷ (key (invoker_at 52).url, invoker_at 52)
      ∷ [];
}

not_first : (i : ℕ) → i < 3 → NotFirst (get_black_list_invokers four_marked 16) (invoker_at 52) i
unfolding get_black_list_invokers key text_eq
not_first zero l u h = let q : invoker_at 49 ≡ u = cc in rw⁻¹ q refl
not_first (suc zero) l u h = let q : invoker_at 50 ≡ u = cc in rw⁻¹ q refl
not_first (suc (suc zero)) l u h = let q : invoker_at 51 ≡ u = cc in rw⁻¹ q refl
not_first (suc (suc (suc i))) l u h = absurd (omega arith)

try_refresh_black_list_first_three_example :
    get_invoker_healthy_status (try_refresh_black_list (λ i. true) four_marked) (invoker_at 52)
    ≡ get_invoker_healthy_status four_marked (invoker_at 52)
try_refresh_black_list_first_three_example =
    try_refresh_black_list_first_three (λ i. true) four_marked (invoker_at 52) not_first

abbrev empty_exchange : Exchange
empty_exchange = record { sequence = pos 0; pending = []; completed = []; called = [] }

abbrev response_to : ℕ → Response
response_to n = record {
  id = pos n;
  version = [];
  status = 20;
  event = false;
  error = none;
  result = nil;
}

-- Two requests that wait, with the numbers 2 and 4.
abbrev waiting : Exchange
waiting = record empty_exchange {
  pending = (pos 2, new_pending_response (pos 2)) ∷ (pos 4, new_pending_response (pos 4)) ∷ [];
}

-- A second response to a request, and one to no request.
abbrev three_responses : List Response
three_responses = response_to 2 ∷ response_to 2 ∷ response_to 6 ∷ []

abbrev two_a_minute : FixedWindow
two_a_minute = record { rate = pos 2; interval = pos 1000; count = pos 0; timestamp = pos 100 }

allowed-count_example : allowed (pos 200 ∷ pos 300 ∷ pos 400 ∷ []) two_a_minute ≡ 2
unfolding wrap64 ◌+ℤ◌
allowed-count_example =
    allowed-count (pos 200 ∷ pos 300 ∷ pos 400 ∷ []) two_a_minute 0 2 refl refl (omega arith)
      (refl, (refl, (refl, tt)))

window_answers-history_example :
    window_answers (100 ∷ 900 ∷ 1200 ∷ 5_000_000 ∷ []) (create_sliding (pos 2) (pos 1))
    ≡ history_answers (pos 2) (1 * 1_000_000) (100 ∷ 900 ∷ 1200 ∷ 5_000_000 ∷ []) []
window_answers-history_example =
    window_answers-history (pos 2) 1 (100 ∷ 900 ∷ 1200 ∷ 5_000_000 ∷ []) (omega arith) (omega arith)
      (
        omega arith,
        omega arith,
        (omega arith, omega arith, (omega arith, omega arith, (omega arith, omega arith, tt))),
      )

abbrev keep_first : PriorityRouter
keep_first = record { priority = pos 1; route = λ is u inv. first_invoker ∷ [] }

abbrev keep_all : PriorityRouter
keep_all = record { priority = pos 2; route = λ is u inv. is }

abbrev sample_chain : RouterChain
sample_chain = record {
  invokers = first_invoker ∷ second_invoker ∷ [];
  routers = keep_first ∷ keep_all ∷ [];
  builtin_routers = keep_all ∷ [];
}

route-last_example : route sample_chain plain_url call ≡ first_invoker ∷ second_invoker ∷ []
route-last_example = route-last sample_chain plain_url call (keep_first ∷ []) keep_all refl

add_routers-order_example :
    Ascending (add_routers (keep_first ∷ []) sample_chain).routers
    × ((p : ℤ)
        → with_priority p (add_routers (keep_first ∷ []) sample_chain).routers
          ≡ with_priority p (keep_all ∷ keep_first ∷ []))
add_routers-order_example = add_routers-order (keep_first ∷ []) sample_chain
