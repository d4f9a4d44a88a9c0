-- ===== src/Examples.antt =====
-- Sample data, and runs of the definitions and of the theorems on it.
pub mod RegistryRuns
pub mod RuleRuns
pub mod DirectoryRuns
pub mod FilterRuns
pub mod RouterRuns
pub mod FailbackRuns
pub mod ClusterRuns
pub mod BalanceRuns
pub mod CodecRuns
pub mod UrlRuns
pub mod StateRuns
pub mod LimiterRuns
use incubator_dubbo_go.Prelude.{
  ℕ, suc, Bool, true, false, List, [], ◌∷◌, Option, none, some, Text, codes, if◌then◌else◌, ◌==◌,
}
use incubator_dubbo_go.Prelude.Int.{ℤ, pos}
use incubator_dubbo_go.Url.{Url, Values, empty_fields}
use incubator_dubbo_go.Protocol.{
  Invoker, Invocation, RpcResult, Error, remote, nil, empty_result, error_result,
}
use incubator_dubbo_go.Protocol.Status.{Registry}
use incubator_dubbo_go.Cluster.{Env, State}
use incubator_dubbo_go.Cluster.LoadBalances.{random, Draws}

abbrev pub url_with : Values → Url
url_with ps = record {
  own = record empty_fields { protocol = codes "dubbo"; path = codes "/user"; params = ps };
  subs = [];
}

abbrev pub plain_url : Url
plain_url = url_with []

abbrev pub url_at : Text → Url
url_at ip = record {
  own = record empty_fields { protocol = codes "dubbo"; ip = ip; path = codes "/user" };
  subs = [];
}

abbrev pub first_invoker : Invoker
first_invoker = record { ref = 1; url = url_at (codes "10.0.0.1") }

abbrev pub second_invoker : Invoker
second_invoker = record { ref = 2; url = url_at (codes "10.0.0.2") }

abbrev pub third_invoker : Invoker
third_invoker = record { ref = 3; url = url_at (codes "10.0.0.3") }

abbrev pub call : Invocation
call = record { method_name = codes "get"; arguments = []; attachments = [] }

abbrev pub empty_registry : Registry
empty_registry = record {
  method_statistics = [];
  service_statistic = [];
  invoker_black_list = [];
  black_list_cache_dirty = false;
  black_list_refreshing = false;
}

-- A world that counts the draws of the random strategy.
abbrev pub count_draws : ℕ → Draws ℕ
count_draws n = record { now = pos 0; offset = n; index = n; after = suc n }

abbrev pub answer_of : ℕ → RpcResult
answer_of n = if n == 1 then error_result (remote 7) else empty_result

-- A directory of three invokers, of which the first fails.
abbrev pub sample_env : Env ℕ
sample_env = record {
  directory_url = record plain_url { subs = empty_fields ∷ [] };
  list = λ inv w. (first_invoker ∷ second_invoker ∷ third_invoker ∷ [], w);
  is_available = λ i w. (true, w);
  invoke = λ i inv w. (answer_of i.ref, w);
  destroyed = λ w. false;
  load_balance = λ name. some (random count_draws);
}

abbrev pub start : State ℕ
start = record {
  world = 0;
  available_check = true;
  sticky_invoker = none;
  registry = empty_registry;
  calls = [];
}
