-- ===== src/Examples/ClusterRuns.antt =====
-- The cluster invokers on the sample directory.
use incubator_dubbo_go.Prelude.{ℕ, ◌+◌, ◌≤◌, ◌≡◌, ◌⊎◌, refl, arith, length, List, [], ◌∷◌, some}
use incubator_dubbo_go.Prelude.Int.{pos}
use incubator_dubbo_go.Protocol.{Invoker, Error, remote, empty_result, error_result}
use incubator_dubbo_go.Cluster.LoadBalances.{random, random-Selects}
use incubator_dubbo_go.Cluster.Ensures.{Ensures, Called}
use incubator_dubbo_go.Cluster.Select.{do_select}
use incubator_dubbo_go.Cluster.Select.Member.{Selects, IsChosen, do_select-IsChosen}
use incubator_dubbo_go.Cluster.Select.Available.{AllAvailable}
use incubator_dubbo_go.Cluster.Failover.{failover, get_retries}
use incubator_dubbo_go.Cluster.Failover.Bounds.{Registered, HasSubUrl, IsFailure, failover-Bounded}
use incubator_dubbo_go.Cluster.Failover.Distinct.{Distinct, failover-Distinct}
use incubator_dubbo_go.Cluster.Strategies.{failfast_invoke, broadcast_invoke}
use incubator_dubbo_go.Cluster.Strategies.Broadcast.{
  broadcast_invoke-answers, last_error, last_of, answers,
}
use incubator_dubbo_go.Cluster.LoadBalances.Least.{least_active, least_active-Selects}
use incubator_dubbo_go.Cluster.Strategies.Errors.{failfast_invoke-once}
use incubator_dubbo_go.Url.{empty_fields, sub_url}
use incubator_dubbo_go.Examples.{
  sample_env, call, start, count_draws, first_invoker, second_invoker, third_invoker,
}

sample_env-Registered : Registered sample_env call first_invoker
sample_env-Registered = (random count_draws, refl, random-Selects count_draws)

sample_env-HasSubUrl : HasSubUrl sample_env
unfolding sub_url
sample_env-HasSubUrl = (record { own = empty_fields; subs = [] }, refl)

listed-Registered :
    (w : ℕ) (i : Invoker) (is : List Invoker)
    → (sample_env.list call w).0 ≡ i ∷ is
    → Registered sample_env call i
listed-Registered w i is e = (random count_draws, refl, random-Selects count_draws)

sample_available : AllAvailable sample_env
sample_available i w = refl

sample_many : (w : ℕ) → 2 ≤ length (sample_env.list call w).0
sample_many w = omega arith

failover-Bounded_example :
    Ensures
      (λ s.
        (s.calls ≡ [])
        × ((sample_env.list call s.world).0 ≡ first_invoker ∷ second_invoker ∷ third_invoker ∷ []))
      (failover sample_env call)
      (λ r s.
        (length s.calls
          ≤ get_retries (first_invoker ∷ second_invoker ∷ third_invoker ∷ []) call.method_name + 1)
        × (IsFailure sample_env call r ⊎ (1 ≤ length s.calls)))
failover-Bounded_example =
    failover-Bounded sample_env call sample_env-HasSubUrl first_invoker
      (second_invoker ∷ third_invoker ∷ []) sample_env-Registered

failover-Distinct_example : Ensures (Called []) (failover sample_env call) (λ r s. Distinct s.calls)
failover-Distinct_example =
    failover-Distinct sample_env call sample_env-HasSubUrl sample_many listed-Registered

do_select-IsChosen_example :
    Ensures
      (Called (first_invoker ∷ []))
      (do_select sample_env
        (random count_draws)
        call
        (first_invoker ∷ [])
        (first_invoker ∷ second_invoker ∷ []))
      (λ v s.
        Called (first_invoker ∷ []) s
        × IsChosen (first_invoker ∷ second_invoker ∷ []) (first_invoker ∷ []) v)
do_select-IsChosen_example =
    do_select-IsChosen sample_env (random count_draws) (random-Selects count_draws) call
      (first_invoker ∷ []) (first_invoker ∷ []) (first_invoker ∷ second_invoker ∷ [])

failfast_invoke-once_example :
    Ensures
      (λ s.
        Called [] s
        × ((sample_env.list call s.world).0 ≡ first_invoker ∷ second_invoker ∷ third_invoker ∷ []))
      (failfast_invoke sample_env call)
      (λ r s. (length s.calls ≤ 1) × (((e : Error) × (r.err ≡ some e)) ⊎ (length s.calls ≡ 1)))
failfast_invoke-once_example =
    failfast_invoke-once sample_env call sample_available first_invoker
      (second_invoker ∷ third_invoker ∷ []) sample_env-Registered

broadcast_invoke-answers_example :
    Ensures
      (λ t. t ≡ start)
      (broadcast_invoke sample_env call)
      (λ q t.
        (q ≡ error_result (remote 7))
        × (t ≡ record start {
          world = 0;
          calls = first_invoker ∷ second_invoker ∷ third_invoker ∷ [];
        }))
unfolding last_error last_of answers
broadcast_invoke-answers_example =
    broadcast_invoke-answers sample_env call first_invoker (second_invoker ∷ third_invoker ∷ []) 0 0
      (error_result (remote 7)) (empty_result ∷ empty_result ∷ []) start refl refl refl

least_active-Selects_example : Selects (least_active (pos 5) 3 4)
least_active-Selects_example = least_active-Selects (pos 5) 3 4
