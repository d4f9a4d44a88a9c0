-- ===== src/Url/Merge.antt =====
-- Clone and MergeURL of common/url.go.
pub mod Precedence
pub mod Methods
use incubator_dubbo_go.Prelude.{
  ℕ, Bool, true, false, Option, none, some, List, [], ◌∷◌, ◌++◌, if◌then◌else◌, Text, codes,
  text_key, insert,
}
use incubator_dubbo_go.Url.{
  Values, Url, is_empty, with_params, get_param, replace_params, first_value,
}

-- RangeParams reads `v[0]` of every entry: an entry with no value is a panic, `none` here.
unfoldable pub range_params : Values → Option (List (Text × Text))
range_params [] = some []
range_params ((k, []) ∷ ps) = none
range_params ((k, v ∷ _) ∷ ps) = elim (range_params ps) [ none ↦ none | some r ↦ some ((k, v) ∷ r) ]

-- The callback of Clone: SetParam on the new URL, for each pair.
unfoldable pub set_all : List (Text × Text) → Values → Values
unfolding insert
set_all [] ps = ps
set_all ((k, v) ∷ r) ps = set_all r (insert k (v ∷ []) ps)

-- Clone. `copy` is copier.Copy onto a new URL: what it made, and whether its error was nil; the
-- parameters are then set anew, to the first value of each.
unfoldable pub clone : (Url → Url × Bool) → Url → Option Url
unfolding range_params set_all
clone copy u =
    let (new_url, copied) = copy u in
    if copied
    then elim (range_params u.params) [
      | none ↦ none
      | some r ↦ some (with_params new_url (set_all r []))
    ]
    else some new_url

-- One round of the first loop of MergeURL: a parameter that the service lacks is taken over whole.
unfoldable pub merge_entry : Url → Text → List Text → Values → Values
unfolding get_param insert
merge_entry merged k vs params =
    if is_empty (get_param (with_params merged params) k [])
    then (if is_empty vs then params else insert k vs params)
    else params

unfoldable pub merge_missing : Url → Values → Values → Values
unfolding merge_entry
merge_missing merged [] params = params
merge_missing merged ((k, vs) ∷ ref) params =
    merge_missing merged ref (merge_entry merged k vs params)

-- `if v := referenceURL.GetParam(k, ""); len(v) > 0 { params[k] = []string{v} }`
unfoldable pub override_param : Url → Text → Values → Values
unfolding get_param insert
override_param reference k params =
    let v = get_param reference k [] in if is_empty v then params else insert k (v ∷ []) params

unfoldable pub override_params : Url → List Text → Values → Values
unfolding override_param
override_params reference [] params = params
override_params reference (k ∷ ks) params =
    override_params reference ks (override_param reference k params)

abbrev pub merge_keys : List Text
merge_keys = codes "loadbalance" ∷ codes "cluster" ∷ codes "retries" ∷ codes "timeout" ∷ []

-- The closures of mergeNormalParam share the loop's variable `paramKey` (the module is at a Go
-- version before 1.22), so each of them reads its last value.
unfoldable pub captured_key : List Text → Text
captured_key [] = []
captured_key (k ∷ []) = k
captured_key (_ ∷ k ∷ ks) = captured_key (k ∷ ks)

-- The closures, one for each key, called for one method.
unfoldable pub call_merge_fcns : Url → List Text → Text → Text → Values → Values
unfolding override_param
call_merge_fcns reference [] captured method params = params
call_merge_fcns reference (_ ∷ ks) captured method params =
    call_merge_fcns reference ks captured method
      (override_param reference (codes "methods." ++ (method ++ (codes "." ++ captured))) params)

unfoldable pub merge_methods : Url → List Text → Values → Values
unfolding call_merge_fcns captured_key
merge_methods reference [] params = params
merge_methods reference (m ∷ ms) params =
    merge_methods reference ms
      (call_merge_fcns reference merge_keys (captured_key merge_keys) m params)

-- The time stamp of the service is kept as the remote one.
unfoldable pub merge_timestamp : Url → Url → Values → Values
unfolding get_param insert
merge_timestamp service reference params =
    let v = get_param service (codes "timestamp") [] in
    if is_empty v
    then params
    else insert (codes "timestamp") (get_param reference (codes "timestamp") [] ∷ [])
        (insert (codes "remote.timestamp") (v ∷ []) params)

unfoldable pub merge_params : Url → Url → Url → Values
unfolding merge_missing override_params merge_timestamp merge_methods
merge_params merged service reference = merge_methods reference reference.methods (
    merge_timestamp service reference
      (override_params reference merge_keys (merge_missing merged reference.params merged.params)))

unfoldable pub merge_url : (Url → Url × Bool) → Url → Url → Option Url
unfolding clone merge_params replace_params
merge_url copy service reference = elim (clone copy service) [
  | none ↦ none
  | some merged ↦ some (replace_params merged (merge_params merged service reference))
]
