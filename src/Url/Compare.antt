-- ===== src/Url/Compare.antt =====
-- common/url.go: the options, the copies and the comparisons of URLs.
pub mod Entries
pub mod Equal
use incubator_dubbo_go.Prelude.{
  ℕ, ◌&&◌, ◌||◌, Bool, true, false, not, List, [], ◌∷◌, ◌++◌, Option, none, some, if◌then◌else◌,
  ◌==◌, length, get_or, Text, codes, text_eq, text_key, lookup, insert, erase,
}
use incubator_dubbo_go.Prelude.Int.{ℤ, pos, negsuc}
use incubator_dubbo_go.Strings.{contains, replace_once, less, split}
use incubator_dubbo_go.Url.{
  Values, Fields, Url, empty_fields, with_params, is_empty, values_get, get_param, set_param,
  service_key, key, trim_slash,
}
use incubator_dubbo_go.Url.Merge.{range_params, set_all, clone}

-- WithPath
unfoldable pub with_path : Text → Text
unfolding trim_slash
with_path path = codes "/" ++ trim_slash path

-- What NewURLWithOptions adds behind the options.
unfoldable pub with_location : Url → Url
with_location u = record u { own = record (u.own) { location = u.ip ++ (codes ":" ++ u.port) } }

unfoldable pub match_key : Text → Text → Text
match_key k protocol = k ++ (codes ":" ++ protocol)

unfoldable pub encoded_service_key : Url → Text
unfolding service_key replace_once
encoded_service_key u = replace_once (service_key u) (codes "/") (codes "*")

-- SetParams: m.Get of each key.
unfoldable pub set_params : Values → Url → Url
unfolding set_param values_get
set_params [] u = u
set_params ((k, vs) ∷ m) u = set_params m (set_param u k (values_get ((k, vs) ∷ m) k))

-- `strings.Split(location, ":")[0]`
unfoldable pub host_of : Text → Text
unfolding split
host_of location = get_or (split b':' location) 0 []

unfoldable pub port_of : Text → Text
unfolding split contains
port_of location =
    if contains location (codes ":") then get_or (split b':' location) 1 [] else codes "0"

unfoldable pub get_raw_param : Url → Text → Text
unfolding host_of get_param text_eq
get_raw_param u k =
    if text_eq k (codes "protocol")
    then u.protocol
    else if text_eq k (codes "username")
    then u.username
    else if text_eq k (codes "host")
    then host_of u.location
    else if text_eq k (codes "password")
    then u.password
    else if text_eq k (codes "port")
    then u.port
    else if text_eq k (codes "path")
    then u.path
    else get_param u k []

-- ToMap. `none` is the panic of RangeParams.
abbrev pub Entries : Type 0
Entries = List (Text × Text)

unfoldable pub put_all : Entries → Entries → Entries
unfolding insert
put_all [] m = m
put_all ((k, v) ∷ r) m = put_all r (insert k v m)

unfoldable pub put_if : Text → Text → Entries → Entries
unfolding insert
put_if k v m = if is_empty v then m else insert k v m

unfoldable pub put_location : Text → Entries → Entries
unfolding insert host_of port_of
put_location l m =
    if is_empty l
    then m
    else insert (codes "port") (port_of l) (insert (codes "host") (host_of l) m)

unfoldable pub to_map : Url → Option Entries
unfolding put_all put_if put_location range_params
to_map u = elim (range_params u.params) [
  | none ↦ none
  | some r ↦ some (
      put_if (codes "path") u.path (
        put_if (codes "protocol") u.protocol (
          put_location u.location (
            put_if (codes "password") u.password (
              put_if (codes "username") u.username
                (put_if (codes "protocol") u.protocol (put_all r [])))))))
]

-- IsEquals
unfoldable pub erase_all : List Text → Entries → Entries
unfolding erase
erase_all [] m = m
erase_all (k ∷ ks) m = erase_all ks (erase k m)

unfoldable pub same_entries : Entries → Entries → Bool
unfolding lookup text_eq
same_entries [] right = true
same_entries ((k, v) ∷ left) right = elim (lookup k right) [
  | none ↦ false
  | some w ↦ text_eq v w && same_entries left right
]

unfoldable pub same_maps : Entries → Entries → Bool
unfolding same_entries
same_maps left right = length left == length right && same_entries left right

-- `none` is a panic: of RangeParams, or of two URLs that are nil.
unfoldable pub is_equals : Option Url → Option Url → List Text → Option Bool
unfolding to_map erase_all same_maps text_eq
is_equals none none excludes = none
is_equals none (some r) excludes = some false
is_equals (some l) none excludes = some false
is_equals (some l) (some r) excludes =
    if not (text_eq l.ip r.ip) || not (text_eq l.port r.port) then some false else elim (to_map l) [
      | none ↦ none
      | some left ↦ elim (to_map r) [
        | none ↦ none
        | some right ↦ some (same_maps (erase_all excludes left) (erase_all excludes right))
      ]
    ]

-- isMatchCategory
unfoldable pub is_match_category : Text → Text → Bool
unfolding contains text_eq
is_match_category category categories =
    if is_empty categories
    then text_eq category (codes "providers")
    else if contains categories (codes "*")
    then true
    else if contains categories (codes "-")
    then not (contains categories (codes "-" ++ category))
    else contains categories category

abbrev without_address : Url → Url
without_address u = record u { own = record (u.own) { ip = []; port = [] } }

-- The keys that URLEqual compares: a group of "*" stands for the other's group.
unfoldable pub group_keys : Url → Url → Text × Text
unfolding get_param key replace_once text_eq
group_keys c u =
    let c_group = get_param c (codes "group") [] in
    let url_group = get_param u (codes "group") [] in
    if text_eq c_group (codes "*")
    then (replace_once (key c) (codes "group=*") (codes "group=" ++ url_group), key u)
    else if text_eq url_group (codes "*")
    then (key c, replace_once (key u) (codes "group=*") (codes "group=" ++ c_group))
    else (key c, key u)

unfoldable pub is_disabled : Url → Bool
unfolding get_param text_eq
is_disabled u =
    not (text_eq (get_param u (codes "enabled") (codes "true")) (codes "true"))
    && not (text_eq (get_param u (codes "enabled") []) (codes "*"))

-- URLEqual, of the two clones.
unfoldable pub equal_clones : Url → Url → Bool
unfolding group_keys is_disabled is_match_category get_param text_eq
equal_clones c u =
    if not (text_eq (group_keys c u).0 (group_keys c u).1)
    then false
    else if is_disabled u
    then false
    else is_match_category (get_param u (codes "category") (codes "providers"))
        (get_param c (codes "category") (codes "providers"))

unfoldable pub url_equal : (Url → Url × Bool) → Url → Url → Option Bool
unfolding clone equal_clones
url_equal copy c u = elim (clone copy c) [
  | none ↦ none
  | some c' ↦ elim (clone copy u) [
    | none ↦ none
    | some u' ↦ some (equal_clones (without_address c') (without_address u'))
  ]
]

-- CloneExceptParams
unfoldable pub drop_keys : (Text → Bool) → Entries → Entries
drop_keys excluded [] = []
drop_keys excluded ((k, v) ∷ r) =
    let rest = drop_keys excluded r in if excluded k then rest else (k, v) ∷ rest

unfoldable pub clone_except_params : (Url → Url × Bool) → (Text → Bool) → Url → Option Url
unfolding range_params set_all drop_keys
clone_except_params copy excluded u =
    let (new_url, copied) = copy u in
    if copied
    then elim (range_params u.params) [
      | none ↦ none
      | some r ↦ some (with_params new_url (set_all (drop_keys excluded r) []))
    ]
    else some new_url

-- CloneWithParams
unfoldable pub reserve_params : Url → List Text → Values → Values
unfolding get_param insert
reserve_params u [] ps = ps
reserve_params u (k ∷ ks) ps =
    let v = get_param u k [] in
    reserve_params u ks (if is_empty v then ps else insert k (v ∷ []) ps)

unfoldable pub clone_with_params : Url → List Text → Url
unfolding reserve_params with_location with_path
clone_with_params u reserved = with_location (record {
  own = record empty_fields {
    protocol = u.protocol;
    username = u.username;
    password = u.password;
    ip = u.ip;
    port = u.port;
    path = with_path u.path;
    methods = u.methods;
    params = reserve_params u reserved [];
  };
  subs = [];
})

-- String; `encode` is Values.Encode.
unfoldable pub url_string : (Values → Text) → Url → Text
url_string encode u =
    let user =
      if is_empty u.username && is_empty u.password
      then []
      else u.username ++ (codes ":" ++ (u.password ++ codes "@")) in
    u.protocol
    ++ (codes "://"
        ++ (user
            ++ (u.ip ++ (codes ":" ++ (u.port ++ (u.path ++ (codes "?" ++ encode u.params)))))))

-- Compare
unfoldable pub compare_url : (Values → Text) → Url → Url → ℤ
unfolding url_string less
compare_url encode a b =
    if less (url_string encode b) (url_string encode a)
    then pos 1
    else if less (url_string encode a) (url_string encode b)
    then negsuc 0
    else pos 0
