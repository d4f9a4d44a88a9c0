-- ===== src/Url/Compare/Equal.antt =====
-- common/url.go: what IsEquals compares.
use incubator_dubbo_go.Prelude.{
  ◌≡◌, ◌↔◌, refl, sym, ap, ◌∙◌, ◌||◌, Bool, true, false, List, [], ◌∷◌, Option, none, some,
  if◌then◌else◌, Text, codes, text_eq, text_eq_iff, text_key, lookup, erase, lookup-erase,
  Bool-cases, Option-cases, inl, inr, subst,
}
use incubator_dubbo_go.Url.{Url}
use incubator_dubbo_go.Url.Merge.{range_params}
use incubator_dubbo_go.Url.Compare.{
  Entries, put_all, put_if, put_location, to_map, erase_all, same_maps, is_equals,
}
use incubator_dubbo_go.Url.Compare.Entries.{
  Unique, put_all-Unique, put_if-Unique, put_location-Unique, erase_all-Unique, same_maps_iff,
}

abbrev pub listed : Text → List Text → Bool
listed k [] = false
listed k (x ∷ xs) = text_eq x k || listed k xs

abbrev no_text : Option Text
no_text = none

lookup-erase_all :
    (k : Text) (ks : List Text) (m : Entries)
    → lookup k (erase_all ks m) ≡ (if listed k ks then no_text else lookup k m)
unfolding erase_all
lookup-erase_all k [] m = refl
lookup-erase_all k (x ∷ xs) m = elim (Bool-cases (text_eq x k)) [
  | inl e ↦ lookup-erase_all k xs (erase x m) ∙ (rw (lookup-erase x k m, e) (if_same (listed k xs)))
  | inr e ↦ lookup-erase_all k xs (erase x m) ∙ (rw (lookup-erase x k m, e) refl)
]
  where
    if_same : (b : Bool) → (if b then no_text else no_text) ≡ no_text
    if_same true = refl
    if_same false = refl

pub to_map-Unique : (u : Url) (m : Entries) → to_map u ≡ some m → Unique m
unfolding to_map
to_map-Unique u m h = elim (Option-cases (range_params u.params)) [
  | inl e ↦ absurd (cc (rw (e, to_map) at h))
  | inr (r, e) ↦
      let m0 = put_all r [] in
      let m1 = put_if (codes "protocol") u.protocol m0 in
      let m2 = put_if (codes "username") u.username m1 in
      let m3 = put_if (codes "password") u.password m2 in
      let m4 = put_location u.location m3 in
      let m5 = put_if (codes "protocol") u.protocol m4 in
      let u3 = put_if-Unique (codes "password") u.password m2 (
        put_if-Unique (codes "username") u.username m1
          (put_if-Unique (codes "protocol") u.protocol m0 (put_all-Unique r [] tt))) in
      subst Unique (some_injective (rw (e, to_map) at h)) (
        put_if-Unique (codes "path") u.path m5
          (put_if-Unique (codes "protocol") u.protocol m4 (put_location-Unique u.location m3 u3)))
]
  where
    some_injective : {x y : Entries} → some x ≡ some y → x ≡ y
    some_injective e = cc e

-- The two maps have the same value, or none, under each key that is not excluded.
abbrev pub SameBut : List Text → Entries → Entries → Type 0
SameBut excludes a b = (k : Text) → listed k excludes ≡ false → lookup k a ≡ lookup k b

lookup_listed :
    (k : Text) (ks : List Text) (m : Entries)
    → listed k ks ≡ true
    → lookup k (erase_all ks m) ≡ none
lookup_listed k ks m e = lookup-erase_all k ks m ∙ (rw e refl)

lookup_kept :
    (k : Text) (ks : List Text) (m : Entries)
    → listed k ks ≡ false
    → lookup k (erase_all ks m) ≡ lookup k m
lookup_kept k ks m e = lookup-erase_all k ks m ∙ (rw e refl)

same_maps-erase_all :
    (ks : List Text) (a b : Entries)
    → Unique a
    → Unique b
    → (same_maps (erase_all ks a) (erase_all ks b) ≡ true) ↔ SameBut ks a b
same_maps-erase_all ks a b ua ub =
    let (there, back) =
      same_maps_iff (erase_all ks a) (erase_all ks b) (erase_all-Unique ks a ua)
        (erase_all-Unique ks b ub) in
    (
      λ h k n. sym (lookup_kept k ks a n) ∙ there h k ∙ lookup_kept k ks b n,
      λ h. back (λ k. elim (Bool-cases (listed k ks)) [
        | inl e ↦ lookup_listed k ks a e ∙ sym (lookup_listed k ks b e)
        | inr e ↦ lookup_kept k ks a e ∙ h k e ∙ sym (lookup_kept k ks b e)
      ]),
    )

-- Of two URLs that ToMap can read, IsEquals says that they are equal exactly if they have the same
-- ip and port and their maps agree on every key that is not excluded, whatever the order of the
-- entries is.
pub is_equals_iff :
    (l r : Url) (excludes : List Text) (left right : Entries)
    → to_map l ≡ some left
    → to_map r ≡ some right
    → (is_equals (some l) (some r) excludes ≡ some true)
      ↔ ((l.ip ≡ r.ip) × (l.port ≡ r.port) × SameBut excludes left right)
unfolding is_equals
is_equals_iff l r excludes left right el er =
    let (there, back) =
      same_maps-erase_all excludes left right (to_map-Unique l left el)
        (to_map-Unique r right er) in
    elim (Bool-cases (text_eq l.ip r.ip)) [
      | inr e ↦ (
        λ h. absurd (cc (rw (e, is_equals) at h)),
        λ h. absurd (cc (sym e ∙ (text_eq_iff l.ip r.ip).1 h.0)),
      )
      | inl e ↦ elim (Bool-cases (text_eq l.port r.port)) [
        | inr f ↦ (
          λ h. absurd (cc (rw (e, f, is_equals) at h)),
          λ h. absurd (cc (sym f ∙ (text_eq_iff l.port r.port).1 h.1)),
        )
        | inl f ↦ (
          λ h. (
            (text_eq_iff l.ip r.ip).0 e,
            (text_eq_iff l.port r.port).0 f,
            there (some_injective (rw (e, f, el, er, is_equals) at h)),
          ),
          λ h. rw (e, f, el, er, is_equals) (ap some (back h.2)),
        )
      ]
    ]
  where
    some_injective : {x y : Bool} → some x ≡ some y → x ≡ y
    some_injective e = cc e
