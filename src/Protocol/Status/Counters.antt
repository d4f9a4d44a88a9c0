-- ===== src/Protocol/Status/Counters.antt =====
-- The counters of rpc_status.go: a request that has begun and ended leaves the number of active
-- ones as it was.
use incubator_dubbo_go.Prelude.{
  ◌≡◌, refl, ◌∙◌, ap, Bool, true, false, List, [], Option, none, some, if◌then◌else◌, arith,
  text_eq, text_key, same_refl, lookup, insert, lookup-insert, Text, inl, inr, Option-cases,
}
use incubator_dubbo_go.Prelude.Int.{ℤ, pos, negsuc, ◌+ℤ◌, wrap32, InInt32}
use incubator_dubbo_go.Url.{Url, key, get_or_else}
use incubator_dubbo_go.Protocol.Status.{
  Registry, RpcStatus, zero_status, load_or_store, get_url_status, get_method_status,
  update_url_status, update_method_status, begin_count0, end_count0, begin_count, end_count,
}

-- One more and one less is none more, with the wrap-around of an int32.
wrap32_back : (x : ℤ) → InInt32 x → wrap32 (wrap32 (x +ℤ pos 1) +ℤ negsuc 0) ≡ x
unfolding wrap32 ◌+ℤ◌
wrap32_back (pos n) h = ground arith
wrap32_back (negsuc n) h = ground arith

end_count0-begin_count0 :
    (now elapsed : ℤ) (ok : Bool) (s : RpcStatus)
    → InInt32 s.active
    → (end_count0 now elapsed ok (begin_count0 s)).active ≡ s.active
unfolding end_count0 begin_count0
end_count0-begin_count0 now elapsed true s h = wrap32_back s.active h
end_count0-begin_count0 now elapsed false s h = wrap32_back s.active h

load_none :
    {V : Type 0} (fresh : V) (k : Text) (m : List (Text × V))
    → lookup k m ≡ none
    → load_or_store fresh k m ≡ (fresh, insert k fresh m)
unfolding load_or_store
load_none fresh k m e = rw (e, load_or_store) refl

load_some :
    {V : Type 0} (fresh v : V) (k : Text) (m : List (Text × V))
    → lookup k m ≡ some v
    → load_or_store fresh k m ≡ (v, m)
unfolding load_or_store
load_some fresh v k m e = rw (e, load_or_store) refl

if_twice :
    {A : Type 0} (b : Bool) (x y z : A)
    → (if b then x else if b then y else z) ≡ (if b then x else z)
if_twice true x y z = refl
if_twice false x y z = refl

stored :
    {V : Type 0} (fresh : V) (k : Text) (m : List (Text × V))
    → (load_or_store fresh k m).0 ≡ get_or_else (lookup k m) fresh
unfolding get_or_else
stored fresh k m = elim (Option-cases (lookup k m)) [
  | inl e ↦ rw (load_none fresh k m e, e) refl
  | inr (v, e) ↦ rw (load_some fresh v k m e, e) refl
]

lookup_stored :
    {V : Type 0} (fresh v : V) (k j : Text) (m : List (Text × V))
    → lookup j (insert k v (load_or_store fresh k m).1)
      ≡ (if text_eq k j then some v else lookup j m)
lookup_stored {V} fresh v k j m = elim (Option-cases (lookup k m)) [
  | inl e ↦
      rw (load_none fresh k m e, lookup-insert k j v (insert k fresh m), lookup-insert k j fresh m)
        (if_twice (text_eq k j) (some v) (some fresh) (lookup j m))
  | inr (w, e) ↦ rw (load_some fresh w k m e) (lookup-insert k j v m)
]

get_or_else_if :
    {V : Type 0} (b : Bool) (v fresh : V) (o : Option V)
    → get_or_else (if b then some v else o) fresh ≡ (if b then v else get_or_else o fresh)
unfolding get_or_else
get_or_else_if true v fresh o = refl
get_or_else_if false v fresh o = refl

-- What a map holds behind an update of one of its values.
stored_again :
    {V : Type 0} (fresh v : V) (k j : Text) (m : List (Text × V))
    → (load_or_store fresh j (insert k v (load_or_store fresh k m).1)).0
      ≡ (if text_eq k j then v else (load_or_store fresh j m).0)
stored_again fresh v k j m =
    stored fresh j _
    ∙ ap (λ o. get_or_else o fresh) (lookup_stored fresh v k j m)
    ∙ get_or_else_if (text_eq k j) v fresh (lookup j m)
    ∙ rw (stored fresh j m) refl

get_url_status-update_url_status :
    (f : RpcStatus → RpcStatus) (g : Registry) (u w : Url)
    → (get_url_status (update_url_status f g u) w).0
      ≡ (if text_eq (key u) (key w) then f (get_url_status g u).0 else (get_url_status g w).0)
unfolding get_url_status update_url_status
get_url_status-update_url_status f g u w =
    stored_again zero_status (f (load_or_store zero_status (key u) g.service_statistic).0) (key u)
      (key w) g.service_statistic

stored_same :
    {V : Type 0} (fresh v : V) (k : Text) (m : List (Text × V))
    → (load_or_store fresh k (insert k v (load_or_store fresh k m).1)).0 ≡ v
stored_same fresh v k m = stored_again fresh v k k m ∙ rw (same_refl k) refl

get_method_status-update_method_status :
    (f : RpcStatus → RpcStatus) (g : Registry) (u : Url) (method : Text)
    → (get_method_status (update_method_status f g u method) u method).0
      ≡ f (get_method_status g u method).0
unfolding get_method_status update_method_status
get_method_status-update_method_status f g u method =
    rw
      (stored_same []
        (insert method
          (f (load_or_store zero_status method (load_or_store [] (key u) g.method_statistics).0).0)
          (load_or_store zero_status method (load_or_store [] (key u) g.method_statistics).0).1)
        (key u) g.method_statistics)
      (stored_same zero_status
        (f (load_or_store zero_status method (load_or_store [] (key u) g.method_statistics).0).0)
        method (load_or_store [] (key u) g.method_statistics).0)

-- The active requests of a URL, and of one of its methods.
abbrev pub url_active : Registry → Url → ℤ
url_active g u = (get_url_status g u).0.active

abbrev pub method_active : Registry → Url → Text → ℤ
method_active g u method = (get_method_status g u method).0.active

url_status_kept :
    (f : RpcStatus → RpcStatus) (g : Registry) (u w : Url) (method : Text)
    → (get_url_status (update_method_status f g u method) w).0 ≡ (get_url_status g w).0
unfolding get_url_status update_method_status
url_status_kept f g u w method = refl

method_status_kept :
    (f : RpcStatus → RpcStatus) (g : Registry) (u w : Url) (method : Text)
    → (get_method_status (update_url_status f g u) w method).0 ≡ (get_method_status g w method).0
unfolding get_method_status update_url_status
method_status_kept f g u w method = refl

get_url_status-begin_count :
    (g : Registry) (u : Url) (method : Text)
    → (get_url_status (begin_count g u method) u).0 ≡ begin_count0 (get_url_status g u).0
unfolding begin_count
get_url_status-begin_count g u method =
    url_status_kept begin_count0 (update_url_status begin_count0 g u) u u method
    ∙ get_url_status-update_url_status begin_count0 g u u
    ∙ rw (same_refl (key u)) refl

get_method_status-begin_count :
    (g : Registry) (u : Url) (method : Text)
    → (get_method_status (begin_count g u method) u method).0
      ≡ begin_count0 (get_method_status g u method).0
unfolding begin_count
get_method_status-begin_count g u method =
    get_method_status-update_method_status begin_count0 (update_url_status begin_count0 g u) u
      method
    ∙ ap begin_count0 (method_status_kept begin_count0 g u u method)

abbrev active_of : RpcStatus → ℤ
active_of s = s.active

module _ (now now' elapsed : ℤ) (ok : Bool) where
  get_url_status-end_count :
      (g : Registry) (u : Url) (method : Text)
      → (get_url_status (end_count now now' g u method elapsed ok) u).0
        ≡ end_count0 now elapsed ok (get_url_status g u).0
  unfolding end_count
  get_url_status-end_count g u method =
      url_status_kept (end_count0 now' elapsed ok)
        (update_url_status (end_count0 now elapsed ok) g u) u u method
      ∙ get_url_status-update_url_status (end_count0 now elapsed ok) g u u
      ∙ rw (same_refl (key u)) refl

  get_method_status-end_count :
      (g : Registry) (u : Url) (method : Text)
      → (get_method_status (end_count now now' g u method elapsed ok) u method).0
        ≡ end_count0 now' elapsed ok (get_method_status g u method).0
  unfolding end_count
  get_method_status-end_count g u method =
      get_method_status-update_method_status (end_count0 now' elapsed ok)
        (update_url_status (end_count0 now elapsed ok) g u) u method
      ∙ ap (end_count0 now' elapsed ok)
          (method_status_kept (end_count0 now elapsed ok) g u u method)

  -- A request that has begun and has ended, with success or not, leaves the numbers of active
  -- requests of its URL and of its method as they were, also where an int32 wraps around.
  pub end_count-begin_count :
      (g : Registry) (u : Url) (method : Text)
      → InInt32 (url_active g u)
      → InInt32 (method_active g u method)
      → (url_active (end_count now now' (begin_count g u method) u method elapsed ok) u
          ≡ url_active g u)
        × (method_active (end_count now now' (begin_count g u method) u method elapsed ok) u method
            ≡ method_active g u method)
  end_count-begin_count g u method h h' = (
    ap active_of (
          get_url_status-end_count (begin_count g u method) u method
          ∙ ap (end_count0 now elapsed ok) (get_url_status-begin_count g u method))
        ∙ end_count0-begin_count0 now elapsed ok (get_url_status g u).0 h,
    ap active_of (
          get_method_status-end_count (begin_count g u method) u method
          ∙ ap (end_count0 now' elapsed ok) (get_method_status-begin_count g u method))
        ∙ end_count0-begin_count0 now' elapsed ok (get_method_status g u method).0 h',
  )
