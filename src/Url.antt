-- ===== src/Url.antt =====
-- common/url.go: the URL that carries every configuration value, its parameters and its keys.
pub mod Merge
pub mod Params
pub mod Compare
use incubator_dubbo_go.Prelude.{
  ℕ, zero, suc, ◌+◌, ◌≡◌, refl, Bool, true, false, ◌&&◌, ◌||◌, not, Option, none, some, List, [],
  ◌∷◌, ◌++◌, map, arith, ltb, leb, ◌==◌, if◌then◌else◌, Text, codes, text_eq, text_key, lookup,
  insert, erase, length,
}
use incubator_dubbo_go.Prelude.Int.{ℤ, pos, negsuc, eqb_ℤ}
use incubator_dubbo_go.Strconv.{parse_int, parse_bool}

-- Go's url.Values.
abbrev pub Values : Type 0
Values = List (Text × List Text)

-- The fields of URL but for SubURL.
pub record Fields : Type 0 where
  pub protocol : Text
  pub location : Text
  pub ip : Text
  pub port : Text
  pub primitive_url : Text
  pub path : Text
  pub username : Text
  pub password : Text
  pub methods : List Text
  pub params : Values

-- A URL with the chain of its SubURLs: the SubURL of the first is the second, and so on.
pub record Url : Type 0 where
  pub own : Fields
  pub open own use *
  pub subs : List Fields

unfoldable pub sub_url : Url → Option Url
sub_url u = elim u.subs [ [] ↦ none | f ∷ fs ↦ some (record { own = f; subs = fs }) ]

abbrev pub empty_fields : Fields
empty_fields = record {
  protocol = [];
  location = [];
  ip = [];
  port = [];
  primitive_url = [];
  path = [];
  username = [];
  password = [];
  methods = [];
  params = [];
}

abbrev pub with_params : Url → Values → Url
with_params u ps = record u { own = record (u.own) { params = ps } }

abbrev pub is_empty {ℓ} : {A : Type ℓ} → List A → Bool
is_empty [] = true
is_empty (_ ∷ _) = false

-- The first value of a key, as Values.Get reads it.
unfoldable pub first_value : Option (List Text) → Text
first_value none = []
first_value (some []) = []
first_value (some (v ∷ _)) = v

unfoldable pub values_get : Values → Text → Text
unfolding first_value lookup
values_get ps key = first_value (lookup key ps)

-- `if len(r) == 0 { r = d }`
unfoldable pub or_default : Text → Text → Text
or_default r d = if is_empty r then d else r

unfoldable pub get_param : Url → Text → Text → Text
unfolding values_get or_default
get_param u s d = or_default (values_get u.params s) d

unfoldable pub set_param : Url → Text → Text → Url
unfolding insert
set_param u key value = with_params u (insert key (value ∷ []) u.params)

-- Values.Add appends to the values of the key.
unfoldable pub values_add : Values → Text → Text → Values
unfolding insert lookup
values_add ps key value = elim (lookup key ps) [
  | none ↦ insert key (value ∷ []) ps
  | some vs ↦ insert key (vs ++ value ∷ []) ps
]

unfoldable pub add_param : Url → Text → Text → Url
unfolding values_add
add_param u key value = with_params u (values_add u.params key value)

unfoldable pub del_param : Url → Text → Url
unfolding erase
del_param u key = with_params u (erase key u.params)

unfoldable pub replace_params : Url → Values → Url
replace_params u ps = with_params u ps

unfoldable pub get_or_else {ℓ} : {A : Type ℓ} → Option A → A → A
get_or_else none d = d
get_or_else (some x) d = x

unfoldable pub get_param_bool : Url → Text → Bool → Bool
unfolding get_param get_or_else
get_param_bool u key d = get_or_else (parse_bool (get_param u key [])) d

unfoldable pub get_param_int : Url → Text → ℤ → ℤ
unfolding get_param get_or_else
get_param_int u key d = get_or_else (parse_int 10 64 (get_param u key [])) d

unfoldable pub get_param_int32 : Url → Text → ℤ → ℤ
unfolding get_param get_or_else
get_param_int32 u key d = get_or_else (parse_int 10 32 (get_param u key [])) d

-- Go's int has 64 bits here.
unfoldable pub get_param_by_int_value : Url → Text → ℤ → ℤ
unfolding get_param get_or_else
get_param_by_int_value u key d = get_or_else (parse_int 10 64 (get_param u key [])) d

-- "methods." + method + "." + key
unfoldable pub method_key : Text → Text → Text
method_key method key = codes "methods." ++ (method ++ (codes "." ++ key))

unfoldable pub get_method_param_int : Url → Text → Text → ℤ → ℤ
unfolding get_param_int method_key
get_method_param_int u method key d = get_param_int u (method_key method key) d

unfoldable pub get_method_param_int_value : Url → Text → Text → ℤ → ℤ
unfolding get_param_by_int_value method_key
get_method_param_int_value u method key d = get_param_by_int_value u (method_key method key) d

-- math.MinInt64
abbrev pub min_int64 : ℤ
min_int64 = negsuc 0x7fff_ffff_ffff_ffff

unfoldable pub get_method_param_int64 : Url → Text → Text → ℤ → ℤ
unfolding get_method_param_int get_param_int
get_method_param_int64 u method key d =
    let r = get_method_param_int u method key min_int64 in
    if eqb_ℤ r min_int64 then get_param_int u key d else r

unfoldable pub get_method_param : Url → Text → Text → Text → Text
unfolding get_param method_key or_default
get_method_param u method key d = or_default (get_param u (method_key method key) []) d

unfoldable pub get_method_param_bool : Url → Text → Text → Bool → Bool
unfolding get_param_bool method_key
get_method_param_bool u method key d = get_param_bool u (method_key method key) d

-- strings.TrimPrefix(path, "/")
unfoldable pub trim_slash : Text → Text
trim_slash [] = []
trim_slash (c ∷ s) = if c == b'/' then s else c ∷ s

-- `v != "" && v != "0.0.0"`
unfoldable pub has_version : Text → Bool
unfolding text_eq
has_version v = not (is_empty v) && not (text_eq v (codes "0.0.0"))

-- The function ServiceKey(intf, group, version).
unfoldable pub build_service_key : Text → Text → Text → Text
unfolding has_version
build_service_key intf group version =
    if is_empty intf
    then []
    else (if is_empty group then [] else group ++ codes "/")
      ++ (intf ++ (if has_version version then codes ":" ++ version else []))

abbrev interface_of : Url → Text
interface_of u = get_param u (codes "interface") (trim_slash u.path)

unfoldable pub service_key : Url → Text
unfolding get_param trim_slash build_service_key
service_key u =
    build_service_key (interface_of u) (get_param u (codes "group") [])
      (get_param u (codes "version") [])

unfoldable pub colon_separated_key : Url → Text
unfolding get_param trim_slash has_version
colon_separated_key u =
    let version = get_param u (codes "version") [] in
    if is_empty (interface_of u)
    then []
    else interface_of u
      ++ (codes ":"
          ++ ((if has_version version then version else [])
              ++ (codes ":" ++ get_param u (codes "group") [])))

-- The part of Service() that asks the SubURL, with this URL's path.
unfoldable pub sub_service : Option Url → Text → Text
unfolding get_param
sub_service none path = []
sub_service (some s) path = get_param s (codes "interface") path

unfoldable pub service : Url → Text
unfolding get_param trim_slash sub_service sub_url
service u = or_default (interface_of u) (sub_service (sub_url u) (trim_slash u.path))

unfoldable pub key : Url → Text
unfolding get_param service
key u =
    u.protocol
    ++ (codes "://"
        ++ (u.username
            ++ (codes ":"
                ++ (u.password
                    ++ (codes "@"
                        ++ (u.ip
                            ++ (codes ":"
                                ++ (u.port
                                    ++ (codes "/?interface="
                                        ++ (service u
                                            ++ (codes "&group="
                                                ++ (get_param u (codes "group") []
                                                    ++ (codes "&version="
                                                        ++ get_param u (codes "version")
                                                            [])))))))))))))
