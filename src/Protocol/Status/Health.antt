-- ===== src/Protocol/Status/Health.antt =====
-- The black list of rpc_status.go: who is on it after each operation.
use incubator_dubbo_go.Prelude.{
  ℕ, ◌+◌, ◌%◌, ◌<◌, ◌≡◌, refl, ◌∙◌, Bool, true, false, ◌&&◌, List, [], ◌∷◌, Option, none, some,
  if◌then◌else◌, ◌==◌, arith, text_eq, text_key, lookup, lookup-insert, lookup-erase, get_elem?,
  Bool-cases, inl, inr, Option-cases,
}
use incubator_dubbo_go.Url.{key}
use incubator_dubbo_go.Protocol.{Invoker}
use incubator_dubbo_go.Protocol.Status.{
  Registry, get_invoker_healthy_status, set_invoker_unhealthy_status,
  remove_invoker_unhealthy_status, remove_url_key_unhealthy_status, refresh_worker,
  try_refresh_black_list, get_black_list_invokers,
}

abbrev is_none : Option Invoker → Bool
is_none none = true
is_none (some _) = false

if_some :
    (b : Bool) (i : Invoker) (o : Option Invoker)
    → is_none (if b then some i else o) ≡ (if b then false else is_none o)
if_some true i o = refl
if_some false i o = refl

if_none :
    (b : Bool) (o : Option Invoker)
    → is_none (if b then none else o) ≡ (if b then true else is_none o)
if_none true o = refl
if_none false o = refl

-- Once an invoker is marked, the invokers of its key are unhealthy, and the others are as before.
pub get_invoker_healthy_status-set_invoker_unhealthy_status :
    (i j : Invoker) (g : Registry)
    → get_invoker_healthy_status (set_invoker_unhealthy_status i g) j
      ≡ (if text_eq (key i.url) (key j.url) then false else get_invoker_healthy_status g j)
unfolding get_invoker_healthy_status set_invoker_unhealthy_status
get_invoker_healthy_status-set_invoker_unhealthy_status i j g =
    rw (get_invoker_healthy_status, lookup-insert (key i.url) (key j.url) i g.invoker_black_list)
      (if_some (text_eq (key i.url) (key j.url)) i (lookup (key j.url) g.invoker_black_list))

-- Once an invoker is removed from the black list, the invokers of its key are healthy, and the
-- others are as before.
pub get_invoker_healthy_status-remove_invoker_unhealthy_status :
    (i j : Invoker) (g : Registry)
    → get_invoker_healthy_status (remove_invoker_unhealthy_status i g) j
      ≡ (if text_eq (key i.url) (key j.url) then true else get_invoker_healthy_status g j)
unfolding get_invoker_healthy_status remove_invoker_unhealthy_status remove_url_key_unhealthy_status
get_invoker_healthy_status-remove_invoker_unhealthy_status i j g =
    rw (get_invoker_healthy_status, lookup-erase (key i.url) (key j.url) g.invoker_black_list)
      (if_none (text_eq (key i.url) (key j.url)) (lookup (key j.url) g.invoker_black_list))

-- The invoker at a place of the block has another key.
abbrev pub NotFirst : List Invoker → Invoker → ℕ → Type 0
NotFirst ivks v i =
    (u : Invoker) → get_elem? ivks i ≡ some u → text_eq (key u.url) (key v.url) ≡ false

module _ (asks : Invoker → Bool) (ivks : List Invoker) (v : Invoker) where
  remove_other :
      (i : ℕ) (g : Registry)
      → NotFirst ivks v i
      → get_invoker_healthy_status
          (elim (get_elem? ivks i) [ none ↦ g | some u ↦ remove_invoker_unhealthy_status u g ])
          v
        ≡ get_invoker_healthy_status g v
  remove_other i g h = elim (Option-cases (get_elem? ivks i)) [
    | inl e ↦ rw e refl
    | inr (u, e) ↦
        rw e (get_invoker_healthy_status-remove_invoker_unhealthy_status u v g ∙ rw (h u e) refl)
  ]

  refresh_worker_other :
      (i j : ℕ) (rest : List Invoker) (g : Registry)
      → NotFirst ivks v i
      → get_invoker_healthy_status (refresh_worker asks ivks i j rest g) v
        ≡ get_invoker_healthy_status g v
  unfolding refresh_worker
  refresh_worker_other i j [] g h = refl
  refresh_worker_other i j (u ∷ rest) g h = elim (Bool-cases (j % 3 == i && asks u)) [
    | inl e ↦ rw e (refresh_worker_other i (j + 1) rest _ h ∙ remove_other i g h)
    | inr e ↦ rw e (refresh_worker_other i (j + 1) rest g h)
  ]

either_same :
    (v : Invoker) (b : Bool) (g g' : Registry)
    → get_invoker_healthy_status g' v ≡ get_invoker_healthy_status g v
    → get_invoker_healthy_status (if b then g else g') v ≡ get_invoker_healthy_status g v
either_same v true g g' h = refl
either_same v false g g' h = h

-- TryRefreshBlackList never makes an invoker healthy whose key is not that of one of the first
-- three invokers of the block, even if all of them are available.
pub try_refresh_black_list_first_three :
    (asks : Invoker → Bool) (g : Registry) (v : Invoker)
    → ((i : ℕ) → i < 3 → NotFirst (get_black_list_invokers g 16) v i)
    → get_invoker_healthy_status (try_refresh_black_list asks g) v ≡ get_invoker_healthy_status g v
unfolding try_refresh_black_list
try_refresh_black_list_first_three asks g v h =
    let ivks = get_black_list_invokers g 16 in
    either_same v g.black_list_refreshing g _ (
      refresh_worker_other asks ivks v 2 0 ivks _ (h 2 (omega arith))
      ∙ refresh_worker_other asks ivks v 1 0 ivks _ (h 1 (omega arith))
      ∙ refresh_worker_other asks ivks v 0 0 ivks g (h 0 (omega arith)))
