-- ===== src/Examples/BalanceRuns.antt =====
-- The load balances on small lists.
use incubator_dubbo_go.Prelude.{
  ℕ, ◌*◌, ◌<◌, ◌≡◌, refl, arith, List, [], ◌∷◌, Option, none, some, length, if◌then◌else◌, ◌==◌,
  Text, codes,
}
use incubator_dubbo_go.Prelude.Int.{pos}
use incubator_dubbo_go.Protocol.{Invoker, done}
use incubator_dubbo_go.LoadBalance.Random as Random
use incubator_dubbo_go.LoadBalance.Random.Weighted.{select_by-interval, weigh, total}
use incubator_dubbo_go.LoadBalance.LeastActive as LeastActive
use incubator_dubbo_go.LoadBalance.LeastActive.Unique.{
  select_by_unique, least, positions, active_of,
}
use incubator_dubbo_go.LoadBalance.ConsistentHash.{select_index, Selector, new_selector}
use incubator_dubbo_go.LoadBalance.ConsistentHash.Ring.{select_index-Selected, Selected}
use incubator_dubbo_go.Examples.{first_invoker, second_invoker, third_invoker, url_with}

-- The weights 10, 20 and 30.
abbrev tens : Invoker → ℕ
tens i = 10 * i.ref

select_by-interval_example :
    Random.select_by (weigh tens) 65 0 (first_invoker ∷ second_invoker ∷ third_invoker ∷ [])
    ≡ done first_invoker
unfolding Random.same_weights total
select_by-interval_example =
    select_by-interval tens [] (second_invoker ∷ third_invoker ∷ []) first_invoker 65 0
      (omega arith) refl (omega arith) (omega arith) (omega arith)

abbrev busy : Invoker → ℕ
busy i = if i.ref == 3 then 1 else 5

select_by_unique_example :
    LeastActive.select_by
      (active_of busy (λ i. pos 1))
      (λ i. pos 1)
      0
      0
      (first_invoker ∷ second_invoker ∷ third_invoker ∷ [])
    ≡ done (some first_invoker)
unfolding least positions
select_by_unique_example =
    select_by_unique busy (λ i. pos 1) 0 0 first_invoker second_invoker (third_invoker ∷ []) refl

select_index-Selected_example :
    (select_index (10 ∷ 20 ∷ 30 ∷ []) 21 < 3)
    × Selected (10 ∷ 20 ∷ 30 ∷ []) 21 (select_index (10 ∷ 20 ∷ 30 ∷ []) 21)
select_index-Selected_example =
    select_index-Selected (10 ∷ 20 ∷ 30 ∷ []) 21
      ((omega arith, (omega arith, tt)), ((omega arith, tt), (tt, tt))) (omega arith)

-- A digest whose bytes depend on the text.
abbrev sample_md5 : Text → List ℕ
sample_md5 t = length t ∷ 9 ∷ 0 ∷ 1 ∷ 7 ∷ length t ∷ 0 ∷ 0 ∷ 3 ∷ 0 ∷ 0 ∷ 0 ∷ 5 ∷ 0 ∷ 0 ∷ 2 ∷ []

abbrev four_nodes : Invoker
four_nodes = record {
  ref = 1;
  url = url_with ((codes "methods.get.hash.nodes", codes "4" ∷ []) ∷ []);
}

abbrev sample_selector : Option Selector
sample_selector = new_selector sample_md5 (λ t. t ∷ []) four_nodes (four_nodes ∷ []) (codes "get") 1

abbrev selector_or : Selector → Option Selector → Selector
selector_or d none = d
selector_or d (some c) = c

abbrev no_selector : Selector
no_selector = record {
  hash_code = 0;
  replica_num = pos 0;
  virtual_invokers = [];
  keys = [];
  argument_index = [];
}
