-- ===== src/Filter.antt =====
-- filter/filter.go and protocol/protocolwrapper: filters, and the chain of filters around an
-- invoker.
pub mod Chain
pub mod Kinds
pub mod Shutdown
pub mod ExecuteLimit
use incubator_dubbo_go.Prelude.{List, [], ◌∷◌, Option, none, some, if◌then◌else◌, Text}
use incubator_dubbo_go.Strings.{split, trim_space}
use incubator_dubbo_go.Url.{Url, get_param, is_empty}
use incubator_dubbo_go.Protocol.{Invocation, RpcResult, Outcome, done, panic}

-- A request on its way: the invocation, which filters may change, and everything else.
pub record Call (W : Type 0) : Type 0 where
  pub inv : Invocation
  pub world : W

-- An invoker's Invoke.
abbrev pub Handler : Type 0 → Type 0
Handler W = Call W → Outcome (RpcResult × Call W)

-- A filter: Invoke with the next invoker, and OnResponse. Both are told the invoker's URL.
pub record Filter (W : Type 0) : Type 0 where
  pub invoke : Url → Handler W → Handler W
  pub on_response : Url → RpcResult → Handler W

module _ {W : Type 0} where
  -- FilterInvoker.Invoke
  unfoldable pub filter_invoke : Url → Filter W → Handler W → Handler W
  filter_invoke u f next c = elim (f.invoke u next c) [
    | panic ↦ panic
    | done (r, c') ↦ f.on_response u r c'
  ]

  -- The loop of BuildInvokerChain, from the last name to the first. `get_filter` is GetFilter,
  -- which panics on a name that is not registered.
  unfoldable pub chain_loop :
      (Text → Option (Filter W)) → Url → List Text → Handler W → Outcome (Handler W)
  unfolding filter_invoke trim_space
  chain_loop get_filter u [] invoker = done invoker
  chain_loop get_filter u (name ∷ names) invoker = elim (chain_loop get_filter u names invoker) [
    | panic ↦ panic
    | done next ↦ elim (get_filter (trim_space name)) [
      | none ↦ panic
      | some f ↦ done (filter_invoke u f next)
    ]
  ]

  unfoldable pub build_invoker_chain :
      (Text → Option (Filter W)) → Url → Text → Handler W → Outcome (Handler W)
  unfolding chain_loop get_param split
  build_invoker_chain get_filter u key invoker =
      if is_empty (get_param u key [])
      then done invoker
      else chain_loop get_filter u (split b',' (get_param u key [])) invoker

  abbrev pub no_response : Url → RpcResult → Handler W
  no_response u r c = done (r, c)
