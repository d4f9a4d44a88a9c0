-- ===== src/Metadata.antt =====
-- common/metadata_info.go: the services that an instance says it exports.
pub mod Exported
use incubator_dubbo_go.Prelude.{
  ◌≡◌, refl, ◌∙◌, ap, Bool, true, false, List, [], ◌∷◌, ◌++◌, Option, none, some, if◌then◌else◌,
  Text, codes, text_eq, text_key, lookup, insert, erase, lookup-insert, lookup-erase, take, zero,
  suc, ℕ, ◌+◌, ◌%◌, ◌^◌, map, not, ◌&&◌,
}
use incubator_dubbo_go.Strings.{index_byte, split, trim_prefix, less}
use incubator_dubbo_go.Strconv.{itoa}
use incubator_dubbo_go.Protocol.{Outcome, done, panic}
use incubator_dubbo_go.Url.{
  Url, Values, is_empty, get_param, get_method_param, build_service_key, service,
}

pub record ServiceInfo : Type 0 where
  pub name : Text
  pub group : Text
  pub version : Text
  pub protocol : Text
  pub path : Text
  pub params : List (Text × Text)
  pub service_key : Text
  pub match_key : Text
  pub url : Option Url

pub record MetadataInfo : Type 0 where
  pub reported : Bool
  pub app : Text
  pub revision : Text
  pub services : List (Text × ServiceInfo)

unfoldable pub new_metadata_info : Text → Text → List (Text × ServiceInfo) → MetadataInfo
new_metadata_info app revision services = record {
  reported = false;
  app = app;
  revision = revision;
  services = services;
}

unfoldable pub new_metadata_inf_with_app : Text → MetadataInfo
unfolding new_metadata_info
new_metadata_inf_with_app app = new_metadata_info app [] []

unfoldable pub mark_reported : MetadataInfo → MetadataInfo
mark_reported mi = record mi { reported = true }

unfoldable pub made_match_key : Text → Text → Text
made_match_key service_key protocol = service_key ++ codes ":" ++ protocol

-- The members of the set in the order of its source; that of its Values is one that Go chooses.
abbrev pub include_keys : List Text
include_keys =
    codes "application"
    ∷ codes "group"
    ∷ codes "timestamp"
    ∷ codes "serialization"
    ∷ codes "cluster"
    ∷ codes "loadbalance"
    ∷ codes "path"
    ∷ codes "timeout"
    ∷ codes "token"
    ∷ codes "version"
    ∷ codes "warmup"
    ∷ codes "weight"
    ∷ codes "release"
    ∷ []

unfoldable pub new_service_info :
    Text → Text → Text → Text → Text → List (Text × Text) → ServiceInfo
unfolding build_service_key made_match_key trim_prefix
new_service_info name group version protocol path params =
    let key = build_service_key name group version in
    record {
      name = name;
      group = group;
      version = version;
      protocol = protocol;
      path = trim_prefix path (codes "/");
      params = params;
      service_key = key;
      match_key = made_match_key key protocol;
      url = none;
    }

abbrev value_or_empty : Option Text → Text
value_or_empty none = []
value_or_empty (some v) = v

unfoldable pub put_value : Text → Text → List (Text × Text) → List (Text × Text)
unfolding insert
put_value k v p = if is_empty v then p else insert k v p

unfoldable pub method_values : Url → Text → List Text → List (Text × Text) → List (Text × Text)
unfolding put_value get_method_param
method_values u key [] p = p
method_values u key (m ∷ ms) p =
    method_values u key ms (put_value (m ++ codes "." ++ key) (get_method_param u m key []) p)

unfoldable pub included_values : Url → List Text → List (Text × Text) → List (Text × Text)
unfolding put_value method_values get_param
included_values u [] p = p
included_values u (key ∷ keys) p =
    included_values u keys (method_values u key u.methods (put_value key (get_param u key []) p))

unfoldable pub new_service_info_with_url : Url → ServiceInfo
unfolding new_service_info included_values service get_param
new_service_info_with_url u =
    let info =
      new_service_info (service u) (get_param u (codes "group") [])
        (get_param u (codes "version") []) u.protocol u.path [] in
    record info { url = some u; params = included_values u include_keys [] }

-- GetServiceKey and GetMatchKey: the service with the key that is returned.
unfoldable pub get_service_key : ServiceInfo → ServiceInfo
unfolding build_service_key
get_service_key s =
    if is_empty s.service_key
    then record s { service_key = build_service_key s.name s.group s.version }
    else s

unfoldable pub get_match_key : ServiceInfo → ServiceInfo
unfolding get_service_key made_match_key
get_match_key s =
    if is_empty s.match_key
    then (let t = get_service_key s in
        record t { match_key = made_match_key t.service_key t.protocol })
    else s

-- A service may be nil.
unfoldable pub add_service : Option ServiceInfo → MetadataInfo → MetadataInfo
unfolding insert get_match_key
add_service none mi = mi
add_service (some s) mi =
    let t = get_match_key s in record mi { services = insert t.match_key t mi.services }

unfoldable pub remove_service : Option ServiceInfo → MetadataInfo → MetadataInfo
unfolding erase
remove_service none mi = mi
remove_service (some s) mi = record mi { services = erase s.match_key mi.services }

-- What is before the first dot of each key, unless it is the first byte.
unfoldable pub dotted : List (Text × Text) → List Text
unfolding index_byte
dotted [] = []
dotted ((k, v) ∷ ps) =
    let rest = dotted ps in
    elim (index_byte 46 k) [
      | none ↦ rest
      | some i ↦ elim i [ zero ↦ rest | suc n ↦ take (suc n) k ∷ rest ]
    ]

abbrev pub eight_empty : List Text
eight_empty = [] ∷ [] ∷ [] ∷ [] ∷ [] ∷ [] ∷ [] ∷ [] ∷ []

-- GetMethods, whose list is made with eight empty names and appended to.
unfoldable pub get_methods : ServiceInfo → List Text
unfolding lookup dotted split
get_methods s =
    let ms = value_or_empty (lookup (codes "methods") s.params) in
    if is_empty ms then eight_empty ++ dotted s.params else split 44 ms

unfoldable pub prefixed : List (Text × Text) → Values
unfolding insert index_byte
prefixed [] = []
prefixed ((k, v) ∷ ps) =
    let rest = prefixed ps in
    elim (index_byte 46 k) [
      | none ↦ insert k (v ∷ []) rest
      | some i ↦ elim i [
        | zero ↦ insert k (v ∷ []) rest
        | suc n ↦ insert (codes "methods." ++ k) (v ∷ []) rest
      ]
    ]

-- GetParams
unfoldable pub get_params : ServiceInfo → Values
unfolding prefixed
get_params s = prefixed s.params

-- sort.Strings
unfoldable pub insert_text : Text → List Text → List Text
unfolding less
insert_text t [] = t ∷ []
insert_text t (u ∷ us) = let rest = insert_text t us in if less u t then u ∷ rest else t ∷ u ∷ us

unfoldable pub sort_texts : List Text → List Text
unfolding insert_text
sort_texts [] = []
sort_texts (t ∷ ts) = insert_text t (sort_texts ts)

unfoldable pub service_candidates : Text → List Text → List Text
service_candidates key [] = key ∷ []
service_candidates key (m ∷ ms) = map (λ n. key ++ codes ":" ++ n) (m ∷ ms)

-- The loop over the services, which dereferences the URL of each.
unfoldable pub candidates : List (Text × ServiceInfo) → List Text → Outcome (List Text)
unfolding service_candidates
candidates [] cs = done cs
candidates ((k, s) ∷ ss) cs = elim s.url [
  | none ↦ panic
  | some u ↦ candidates ss (cs ++ service_candidates s.service_key u.methods)
]

-- `crc32` is crc32.ChecksumIEEE; the sum is a uint64.
module _ (crc32 : Text → ℕ) where
  unfoldable pub sum_checksums : List Text → ℕ → ℕ
  sum_checksums [] r = r
  sum_checksums (c ∷ cs) r = sum_checksums cs ((r + crc32 c) % 2 ^ 64)

  -- CalAndGetRevision, with the metadata that it leaves.
  unfoldable pub cal_and_get_revision : MetadataInfo → Outcome (Text × MetadataInfo)
  unfolding candidates sort_texts sum_checksums itoa
  cal_and_get_revision mi =
      if not (is_empty mi.revision) && mi.reported
      then done (mi.revision, mi)
      else if is_empty mi.services
      then done (codes "0", mi)
      else elim (candidates mi.services eight_empty) [
        | panic ↦ panic
        | done cs ↦
            let revision = itoa (sum_checksums (sort_texts cs) 0) in
            done (revision, record mi { revision = revision })
      ]
