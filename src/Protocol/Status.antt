-- ===== src/Protocol/Status.antt =====
-- protocol/rpc_status.go: the counters of a URL and of its methods, and the black list of invokers
-- that were found unhealthy.
pub mod Health
pub mod Counters
use incubator_dubbo_go.Prelude.{
  ℕ, zero, suc, ◌+◌, ◌-◌, ◌%◌, ◌/◌, ◌≡◌, Bool, true, false, ◌&&◌, not, Option, none, some, List, [],
  ◌∷◌, if◌then◌else◌, ◌==◌, ltb, Text, text_key, lookup, insert, erase, take, length, get_elem?,
}
use incubator_dubbo_go.Prelude.Int.{ℤ, pos, negsuc, ◌+ℤ◌, ltb_ℤ, leb_ℤ, wrap32, wrap64}
use incubator_dubbo_go.Url.{Url, key}
use incubator_dubbo_go.Protocol.{Invoker}

pub record RpcStatus : Type 0 where
  pub active : ℤ  -- int32
  pub failed : ℤ  -- int32
  pub total : ℤ  -- int32
  pub total_elapsed : ℤ  -- int64
  pub failed_elapsed : ℤ  -- int64
  pub max_elapsed : ℤ  -- int64
  pub failed_max_elapsed : ℤ  -- int64
  pub succeeded_max_elapsed : ℤ  -- int64
  pub successive_request_failure_count : ℤ  -- int32
  pub last_request_failed_timestamp : ℤ  -- int64

abbrev pub zero_status : RpcStatus
zero_status = record {
  active = pos 0;
  failed = pos 0;
  total = pos 0;
  total_elapsed = pos 0;
  failed_elapsed = pos 0;
  max_elapsed = pos 0;
  failed_max_elapsed = pos 0;
  succeeded_max_elapsed = pos 0;
  successive_request_failure_count = pos 0;
  last_request_failed_timestamp = pos 0;
}

-- The package's variables.
pub record Registry : Type 0 where
  pub method_statistics : List (Text × List (Text × RpcStatus))
  pub service_statistic : List (Text × RpcStatus)
  pub invoker_black_list : List (Text × Invoker)
  pub black_list_cache_dirty : Bool
  pub black_list_refreshing : Bool

-- `LoadOrStore(k, zero)`, in two values: the status, and the map that has it.
unfoldable pub load_or_store {ℓ} : {V : Type ℓ} → V → Text → List (Text × V) → V × List (Text × V)
unfolding lookup insert
load_or_store fresh k m = elim (lookup k m) [ some v ↦ (v, m) | none ↦ (fresh, insert k fresh m) ]

unfoldable pub get_url_status : Registry → Url → RpcStatus × Registry
unfolding load_or_store
get_url_status g u =
    let (status, m) = load_or_store zero_status (key u) g.service_statistic in
    (status, record g { service_statistic = m })

unfoldable pub get_method_status : Registry → Url → Text → RpcStatus × Registry
unfolding load_or_store
get_method_status g u method =
    let (methods, m) = load_or_store [] (key u) g.method_statistics in
    let (status, methods') = load_or_store zero_status method methods in
    (status, record g { method_statistics = insert (key u) methods' m })

-- The functions return pointers, and their callers write through them: these are the writes.
unfoldable pub update_url_status : (RpcStatus → RpcStatus) → Registry → Url → Registry
unfolding get_url_status
update_url_status f g u =
    let (status, g') = get_url_status g u in
    record g' { service_statistic = insert (key u) (f status) g'.service_statistic }

unfoldable pub update_method_status : (RpcStatus → RpcStatus) → Registry → Url → Text → Registry
unfolding load_or_store
update_method_status f g u method =
    let (methods, m) = load_or_store [] (key u) g.method_statistics in
    let (status, methods') = load_or_store zero_status method methods in
    record g { method_statistics = insert (key u) (insert method (f status) methods') m }

unfoldable pub begin_count0 : RpcStatus → RpcStatus
begin_count0 s = record s { active = wrap32 (s.active +ℤ pos 1) }

abbrev max_of : ℤ → ℤ → ℤ
max_of old elapsed = if ltb_ℤ old elapsed then elapsed else old

-- `now` is what CurrentTimeMillis returns.
unfoldable pub end_count0 : ℤ → ℤ → Bool → RpcStatus → RpcStatus
end_count0 now elapsed succeeded s =
    let t = record s {
      active = wrap32 (s.active +ℤ negsuc 0);
      total = wrap32 (s.total +ℤ pos 1);
      total_elapsed = wrap64 (s.total_elapsed +ℤ elapsed);
      max_elapsed = max_of s.max_elapsed elapsed;
    } in
    if succeeded
    then record t {
      succeeded_max_elapsed = max_of s.succeeded_max_elapsed elapsed;
      successive_request_failure_count = pos 0;
    }
    else record t {
      last_request_failed_timestamp = now;
      successive_request_failure_count = wrap32 (s.successive_request_failure_count +ℤ pos 1);
      failed = wrap32 (s.failed +ℤ pos 1);
      failed_elapsed = wrap64 (s.failed_elapsed +ℤ elapsed);
      failed_max_elapsed = max_of s.failed_max_elapsed elapsed;
    }

unfoldable pub begin_count : Registry → Url → Text → Registry
unfolding update_url_status update_method_status begin_count0
begin_count g u method =
    update_method_status begin_count0 (update_url_status begin_count0 g u) u method

-- The two calls of endCount0 read the clock each for itself.
unfoldable pub end_count : ℤ → ℤ → Registry → Url → Text → ℤ → Bool → Registry
unfolding update_url_status update_method_status end_count0
end_count now now' g u method elapsed succeeded =
    update_method_status (end_count0 now' elapsed succeeded)
      (update_url_status (end_count0 now elapsed succeeded) g u) u method

-- CurrentTimeMillis: nanoseconds to milliseconds, towards zero.
unfoldable pub current_time_millis : ℤ → ℤ
current_time_millis (pos nanos) = pos (nanos / 1_000_000)
current_time_millis (negsuc n) =
    if (n + 1) / 1_000_000 == 0 then pos 0 else negsuc ((n + 1) / 1_000_000 - 1)

unfoldable pub clean_all_status : Registry → Registry
clean_all_status g = record g {
  method_statistics = [];
  service_statistic = [];
  invoker_black_list = [];
}

unfoldable pub get_invoker_healthy_status : Registry → Invoker → Bool
unfolding lookup
get_invoker_healthy_status g i = elim (lookup (key i.url) g.invoker_black_list) [
  | none ↦ true
  | some _ ↦ false
]

unfoldable pub set_invoker_unhealthy_status : Invoker → Registry → Registry
unfolding insert
set_invoker_unhealthy_status i g = record g {
  invoker_black_list = insert (key i.url) i g.invoker_black_list;
  black_list_cache_dirty = true;
}

unfoldable pub remove_url_key_unhealthy_status : Text → Registry → Registry
unfolding erase
remove_url_key_unhealthy_status k g = record g {
  invoker_black_list = erase k g.invoker_black_list;
  black_list_cache_dirty = true;
}

unfoldable pub remove_invoker_unhealthy_status : Invoker → Registry → Registry
unfolding remove_url_key_unhealthy_status
remove_invoker_unhealthy_status i g = remove_url_key_unhealthy_status (key i.url) g

abbrev pub values {ℓ} : {V : Type ℓ} → List (Text × V) → List V
values [] = []
values ((_, v) ∷ m) = v ∷ values m

unfoldable pub get_black_list_invokers : Registry → ℕ → List Invoker
get_black_list_invokers g block_size =
    let result_ivks = values g.invoker_black_list in
    if ltb (length result_ivks) block_size then result_ivks else take block_size result_ivks

unfoldable pub get_and_refresh_state : Registry → Bool × Registry
get_and_refresh_state g = (g.black_list_cache_dirty, record g { black_list_cache_dirty = false })

-- One goroutine of TryRefreshBlackList, over the indices `j` of the rest of the block: it looks at
-- every third invoker, and on success it removes `ivks[i]`, the invoker at the goroutine's number.
unfoldable pub refresh_worker :
    (Invoker → Bool) → List Invoker → ℕ → ℕ → List Invoker → Registry → Registry
unfolding remove_invoker_unhealthy_status
refresh_worker available ivks i j [] g = g
refresh_worker available ivks i j (ivk ∷ rest) g = refresh_worker available ivks i (j + 1) rest (
    if j % 3 == i && available ivk
    then elim (get_elem? ivks i) [ none ↦ g | some v ↦ remove_invoker_unhealthy_status v g ]
    else g)

-- TryRefreshBlackList with its three goroutines one after the other. `available` is what
-- IsAvailable answers during the call. The deferred reset of the flag is its last step.
unfoldable pub try_refresh_black_list : (Invoker → Bool) → Registry → Registry
unfolding refresh_worker get_black_list_invokers
try_refresh_black_list available g =
    if g.black_list_refreshing
    then g
    else let ivks = get_black_list_invokers g 16 in
      refresh_worker available ivks 2 0 ivks
        (refresh_worker available ivks 1 0 ivks (refresh_worker available ivks 0 0 ivks g))
