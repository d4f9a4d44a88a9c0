-- ===== src/Filter/Kinds.antt =====
-- filter/token, filter/echo, filter/active and filter/tps.
use incubator_dubbo_go.Prelude.{
  ℕ, suc, ◌||◌, Bool, true, false, List, [], ◌∷◌, Option, none, some, if◌then◌else◌, Text, codes,
  text_eq, text_key, lookup,
}
use incubator_dubbo_go.Prelude.Int.{ℤ, ◌-ℤ◌, wrap64}
use incubator_dubbo_go.Strconv.{parse_int, format_int}
use incubator_dubbo_go.Url.{Url, get_param, is_empty}
use incubator_dubbo_go.Protocol.{
  Any, nil, str, obj, Invocation, RpcResult, Outcome, done, panic, empty_result, error_result,
  invalid_token, number_error, set_attachments, attachments_by_key,
}
use incubator_dubbo_go.Protocol.Status.{Registry, begin_count, end_count}
use incubator_dubbo_go.Filter.{Call, Handler, Filter, no_response}

-- The token filter. `equal_fold` is strings.EqualFold.
unfoldable pub token_matches : (Text → Text → Bool) → Text → Option Any → Outcome Bool
token_matches equal_fold token none = done false
token_matches equal_fold token (some nil) = done false
token_matches equal_fold token (some (str s)) = done (equal_fold token s)
token_matches equal_fold token (some (obj n)) = panic

-- The echo filter.
unfoldable pub echo_result : List Any → Invocation → Option RpcResult
unfolding text_eq
echo_result (a ∷ []) inv =
    if text_eq inv.method_name (codes "$echo")
    then some (record { attrs = inv.attachments; err = none; rest = a })
    else none
echo_result args inv = none

module _ {W : Type 0} where
  unfoldable pub token_invoke : (Text → Text → Bool) → Url → Handler W → Handler W
  unfolding token_matches get_param lookup
  token_invoke equal_fold u next c =
      let token = get_param u (codes "token") [] in
      if is_empty token
      then next c
      else elim (token_matches equal_fold token (lookup (codes "token") c.inv.attachments)) [
        | panic ↦ panic
        | done true ↦ next c
        | done false ↦ done (error_result invalid_token, c)
      ]

  abbrev pub token_filter : (Text → Text → Bool) → Filter W
  token_filter equal_fold = record { invoke = token_invoke equal_fold; on_response = no_response }

  unfoldable pub echo_invoke : Url → Handler W → Handler W
  unfolding echo_result
  echo_invoke u next c = elim (echo_result c.inv.arguments c.inv) [
    | some r ↦ done (r, c)
    | none ↦ next c
  ]

  abbrev pub echo_filter : Filter W
  echo_filter = record { invoke = echo_invoke; on_response = no_response }

-- The active filter, on the statuses and a clock in milliseconds.
pub record Timed (W : Type 0) : Type 0 where
  pub registry : Registry
  pub clock : ℕ → ℤ
  pub ticks : ℕ
  pub rest : W

module _ {W : Type 0} where
  -- CurrentTimeMillis: each reading is the next of the clock.
  abbrev pub read_clock : Timed W → ℤ × Timed W
  read_clock t = (t.clock t.ticks, record t { ticks = suc t.ticks })

  unfoldable pub active_invoke : Url → Handler (Timed W) → Handler (Timed W)
  unfolding begin_count set_attachments
  active_invoke u next c =
      let (now, t) = read_clock c.world in
      next (record {
        inv = set_attachments c.inv (codes "dubboInvokeStartTime") (str (format_int now));
        world = record t { registry = begin_count t.registry u c.inv.method_name };
      })

  -- What OnResponse does with the start time.
  unfoldable pub end_active :
      Url → RpcResult → Call (Timed W) → Option ℤ → RpcResult × Call (Timed W)
  unfolding end_count
  end_active u r c none = (record r { err = some number_error }, c)
  end_active u r c (some start_time) =
      let (now, t) = read_clock c.world in
      let (now', t') = read_clock t in
      let (now'', t'') = read_clock t' in
      (
        r,
        record c {
          world = record t'' {
            registry =
                end_count now' now'' t''.registry u c.inv.method_name (wrap64 (now -ℤ start_time))
                  (elim r.err [ none ↦ true | some _ ↦ false ]);
          };
        },
      )

  unfoldable pub active_response : Url → RpcResult → Handler (Timed W)
  unfolding end_active attachments_by_key parse_int
  active_response u r c =
      elim (attachments_by_key c.inv (codes "dubboInvokeStartTime") (codes "0")) [
        | panic ↦ panic
        | done s ↦ done (end_active u r c (parse_int 10 64 s))
      ]

  abbrev pub active_filter : Filter (Timed W)
  active_filter = record { invoke = active_invoke; on_response = active_response }

-- The rejection handlers by their names: "default" and "log" make an empty result. Others, which
-- the user registers, are parameters.
unfoldable pub rejected_execution :
    {W : Type 0} → (Text → Option (Url → Handler W)) → Text → Url → Handler W
rejected_execution others name u c =
    if text_eq name (codes "default") || text_eq name (codes "log")
    then done (empty_result, c)
    else elim (others name) [ none ↦ panic | some h ↦ h u c ]

-- The TPS filter; `limiters` are the limiters by their names.
unfoldable pub tps_invoke :
    {W : Type 0}
    → (Text → Option (Url → Invocation → W → Outcome (Bool × W)))
    → (Text → Option (Url → Handler W))
    → Url
    → Handler W
    → Handler W
unfolding rejected_execution get_param
tps_invoke limiters others u next c =
    let limiter = get_param u (codes "tps.limiter") [] in
    if is_empty limiter then next c else elim (limiters limiter) [
      | none ↦ panic
      | some is_allowable ↦ elim (is_allowable u c.inv c.world) [
        | panic ↦ panic
        | done (true, w) ↦ next (record c { world = w })
        | done (false, w) ↦
            rejected_execution others
              (get_param u (codes "tps.limit.rejected.handler") (codes "default")) u
              (record c { world = w })
      ]
    ]
