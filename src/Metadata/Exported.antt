-- ===== src/Metadata/Exported.antt =====
-- The services of a metadata after AddService and RemoveService.
use incubator_dubbo_go.Prelude.{
  ◌≡◌, refl, ◌∙◌, ap, false, [], ◌∷◌, ◌++◌, none, some, if◌then◌else◌, Text, codes, text_eq,
  text_key, lookup, insert, lookup-insert, lookup-erase,
}
use incubator_dubbo_go.Url.{Url, is_empty}
use incubator_dubbo_go.Metadata.{
  MetadataInfo, made_match_key, new_service_info, new_service_info_with_url, get_match_key,
  add_service, remove_service,
}

append-is_empty : (k p : Text) → is_empty (k ++ codes ":" ++ p) ≡ false
append-is_empty [] p = refl
append-is_empty (c ∷ k) p = refl

-- The keys of a service made of a URL are set already.
get_match_key-new :
    (u : Url) → get_match_key (new_service_info_with_url u) ≡ new_service_info_with_url u
unfolding get_match_key new_service_info_with_url new_service_info made_match_key
get_match_key-new u = rw (append-is_empty _ u.protocol) refl

-- After AddService for the URL u and RemoveService for the URL v, there is no service under the
-- match key of v; under that of u, if it is another, there is the service of u; and under any other
-- key there is what there was. So to remove a URL removes every URL that shares its match key.
pub remove_service-add_service :
    (u v : Url) (mi : MetadataInfo) (j : Text)
    → lookup j
        (remove_service
          (some (new_service_info_with_url v))
          (add_service (some (new_service_info_with_url u)) mi)).services
      ≡ (if text_eq (new_service_info_with_url v).match_key j
          then none
          else if text_eq (new_service_info_with_url u).match_key j
          then some (new_service_info_with_url u)
          else lookup j mi.services)
unfolding add_service remove_service
remove_service-add_service u v mi j =
    let s = new_service_info_with_url u in
    let t = new_service_info_with_url v in
    rw (get_match_key-new u) (
      lookup-erase t.match_key j (insert s.match_key s mi.services)
      ∙ ap (λ o. if text_eq t.match_key j then none else o)
          (lookup-insert s.match_key j s mi.services))
