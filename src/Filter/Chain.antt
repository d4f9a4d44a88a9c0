-- ===== src/Filter/Chain.antt =====
-- protocol/protocolwrapper/protocol_filter_wrapper.go: in which order the chain runs its filters.
use incubator_dubbo_go.Prelude.{
  ◌≡◌, refl, ap, List, [], ◌∷◌, ◌++◌, some, Text, Bool-cases, inl, inr, if◌then◌else◌,
}
use mathlib.Core.List.{append_assoc}
use incubator_dubbo_go.Strings.{split, trim_space}
use incubator_dubbo_go.Url.{Url, get_param, is_empty}
use incubator_dubbo_go.Protocol.{RpcResult, Outcome, done}
use incubator_dubbo_go.Filter.{
  Call, Handler, Filter, filter_invoke, chain_loop, build_invoker_chain,
}

-- What happened to a request, in order.
pub data Event : Type 0 where
  entered : Text → Event
  called : Event
  left : Text → Event

abbrev note : Event → Call (List Event) → Call (List Event)
note e c = record c { world = c.world ++ e ∷ [] }

-- The filter that notes under its name that a request enters and leaves it.
abbrev pub noting : Text → Filter (List Event)
noting name = record {
  invoke = λ u next c. next (note (entered name) c);
  on_response = λ u r c. done (r, note (left name) c);
}

-- The invoker that notes the call, and answers.
abbrev pub answering : RpcResult → Handler (List Event)
answering r c = done (r, note called c)

abbrev pub entries : List Text → List Event
entries [] = []
entries (n ∷ ns) = entered (trim_space n) ∷ entries ns

abbrev pub exits : List Text → List Event
exits [] = []
exits (n ∷ ns) = exits ns ++ left (trim_space n) ∷ []

-- The events of a request: into the filters from left to right, and out from right to left.
abbrev pub order : List Text → List Event
order ns = entries ns ++ called ∷ exits ns

abbrev Runs : List Text → RpcResult → Outcome (Handler (List Event)) → Type 0
Runs ns r o =
    (h : Handler (List Event)) × (o ≡ done h)
    × ((c : Call (List Event)) → h c ≡ done (r, record c { world = c.world ++ order ns }))

chain_loop-Runs :
    (u : Url) (ns : List Text) (r : RpcResult)
    → Runs ns r (chain_loop (λ name. some (noting name)) u ns (answering r))
unfolding chain_loop filter_invoke
chain_loop-Runs u [] r = (answering r, refl, λ c. refl)
chain_loop-Runs u (n ∷ ns) r =
    let (h, e, runs) = chain_loop-Runs u ns r in
    (
      filter_invoke u (noting (trim_space n)) h,
      rw (e, chain_loop) refl,
      λ c.
          rw (runs (note (entered (trim_space n)) c), filter_invoke)
            (ap (λ (w : List Event). done (r, record c { world = w })) (simp (append_assoc))),
    )

-- The names that BuildInvokerChain reads from the URL.
abbrev pub filter_names : Url → Text → List Text
filter_names u key = if is_empty (get_param u key []) then [] else split b',' (get_param u key [])

-- BuildInvokerChain runs the filters that the URL names from left to right, then the invoker, and
-- hands the response through the filters from right to left: told by filters that note when a
-- request enters and leaves them.
pub build_invoker_chain-order :
    (u : Url) (key : Text) (r : RpcResult) (c : Call (List Event))
    → (h : Handler (List Event)) × (build_invoker_chain
          (λ name. some (noting name))
          u
          key
          (answering r)
        ≡ done h)
      × (h c ≡ done (r, record c { world = c.world ++ order (filter_names u key) }))
unfolding build_invoker_chain
build_invoker_chain-order u key r c = elim (Bool-cases (is_empty (get_param u key []))) [
  | inl e ↦ rw e (answering r, refl, refl)
  | inr e ↦
      let (h, b, runs) = chain_loop-Runs u (split b',' (get_param u key [])) r in
      rw e (h, b, runs c)
]
