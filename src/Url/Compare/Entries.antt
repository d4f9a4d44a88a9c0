-- ===== src/Url/Compare/Entries.antt =====
-- common/url.go, IsEquals: the comparison of two maps.
use incubator_dubbo_go.Prelude.{
  suc, ◌≡◌, ◌↔◌, refl, sym, ap, ◌∙◌, arith, ◌&&◌, Bool, true, false, List, [], ◌∷◌, none, some,
  ◌==◌, ==_iff, length, Text, text_eq, text_eq_iff, text_key, same_refl, lookup, insert, erase,
  lookup-insert, lookup-erase, Bool-cases, Option-cases, inl, inr,
}
use incubator_dubbo_go.Url.Compare.{
  Entries, put_all, put_if, put_location, erase_all, same_entries, same_maps,
}

-- No key stands in the map twice.
abbrev pub Unique : Entries → Type 0
Unique [] = Unit
Unique ((k, v) ∷ m) = (lookup k m ≡ none) × Unique m

text_eq_sym : (j k : Text) → text_eq j k ≡ false → text_eq k j ≡ false
text_eq_sym j k e = elim (Bool-cases (text_eq k j)) [
  | inl t ↦
      let p : k ≡ j = (text_eq_iff k j).0 t in
      let f : text_eq k k ≡ false = rw (sym p) at e in absurd (cc (sym f ∙ same_refl k))
  | inr t ↦ t
]

pub insert-Unique : (k v : Text) (m : Entries) → Unique m → Unique (insert k v m)
unfolding insert lookup
insert-Unique k v [] u = (refl, tt)
insert-Unique k v ((j, w) ∷ m) u = elim (Bool-cases (text_eq j k)) [
  | inl e ↦ rw e u
  | inr e ↦ rw e ((lookup-insert k j v m ∙ (rw (text_eq_sym j k e) u.0)), insert-Unique k v m u.1)
]

pub erase-Unique : (k : Text) (m : Entries) → Unique m → Unique (erase k m)
unfolding erase
erase-Unique k [] u = tt
erase-Unique k ((j, w) ∷ m) u = elim (Bool-cases (text_eq j k)) [
  | inl e ↦ rw e (erase-Unique k m u.1)
  | inr e ↦ rw e ((lookup-erase k j m ∙ (rw (text_eq_sym j k e) u.0)), erase-Unique k m u.1)
]

pub put_if-Unique : (k v : Text) (m : Entries) → Unique m → Unique (put_if k v m)
unfolding put_if
put_if-Unique k [] m u = u
put_if-Unique k (c ∷ v) m u = insert-Unique k (c ∷ v) m u

pub put_location-Unique : (l : Text) (m : Entries) → Unique m → Unique (put_location l m)
unfolding put_location
put_location-Unique [] m u = u
put_location-Unique (c ∷ l) m u = insert-Unique _ _ _ (insert-Unique _ _ m u)

pub put_all-Unique : (r m : Entries) → Unique m → Unique (put_all r m)
unfolding put_all
put_all-Unique [] m u = u
put_all-Unique ((k, v) ∷ r) m u = put_all-Unique r (insert k v m) (insert-Unique k v m u)

pub erase_all-Unique : (ks : List Text) (m : Entries) → Unique m → Unique (erase_all ks m)
unfolding erase_all
erase_all-Unique [] m u = u
erase_all-Unique (k ∷ ks) m u = erase_all-Unique ks (erase k m) (erase-Unique k m u)

-- Erasing a key that is not there.
erase-none : (k : Text) (m : Entries) → lookup k m ≡ none → erase k m ≡ m
unfolding erase lookup
erase-none k [] h = refl
erase-none k ((j, w) ∷ m) h = elim (Bool-cases (text_eq j k)) [
  | inl e ↦ absurd (cc (rw e at h))
  | inr e ↦ rw e (ap (λ (x : Entries). (j, w) ∷ x) (erase-none k m (rw e at h)))
]

length-erase :
    (k v : Text) (m : Entries)
    → Unique m
    → lookup k m ≡ some v
    → length m ≡ suc (length (erase k m))
unfolding erase lookup
length-erase k v [] u h = absurd (cc h)
length-erase k v ((j, w) ∷ m) u h = elim (Bool-cases (text_eq j k)) [
  | inl e ↦ rw e (ap suc (ap length (sym (erase-none k m (rw ((text_eq_iff j k).0 e) at u.0)))))
  | inr e ↦ rw e (ap suc (length-erase k v m u.1 (rw e at h)))
]

-- Two maps agree if every key has the same value in both, or none.
abbrev pub Agree : Entries → Entries → Type 0
Agree a b = (k : Text) → lookup k a ≡ lookup k b

lookup_head : (j v : Text) (a : Entries) → lookup j ((j, v) ∷ a) ≡ some v
unfolding lookup
lookup_head j v a = rw (same_refl j) refl

-- What is left of two maps that agree, without the first entry.
Agree-erase :
    (j v : Text) (a b : Entries) → lookup j a ≡ none → Agree ((j, v) ∷ a) b → Agree a (erase j b)
unfolding lookup
Agree-erase j v a b n h k = elim (Bool-cases (text_eq j k)) [
  | inl e ↦ (rw ((text_eq_iff j k).0 e) at n) ∙ sym (lookup-erase j k b ∙ (rw e refl))
  | inr e ↦ (rw e at (h k)) ∙ sym (lookup-erase j k b ∙ (rw e refl))
]

Agree-back :
    (j v : Text) (a b : Entries) → lookup j b ≡ some v → Agree a (erase j b) → Agree ((j, v) ∷ a) b
unfolding lookup
Agree-back j v a b f h k = elim (Bool-cases (text_eq j k)) [
  | inl e ↦ rw e (sym (rw ((text_eq_iff j k).0 e) at f))
  | inr e ↦ rw e (h k ∙ lookup-erase j k b ∙ (rw e refl))
]

length-Agree : (a b : Entries) → Unique a → Unique b → Agree a b → length a ≡ length b
unfolding lookup
length-Agree [] [] ua ub h = refl
length-Agree [] ((j, v) ∷ b) ua ub h =
    let e : none ≡ some v = h j ∙ lookup_head j v b in absurd (cc e)
length-Agree ((j, v) ∷ a) b ua ub h =
    ap suc (length-Agree a (erase j b) ua.1 (erase-Unique j b ub) (Agree-erase j v a b ua.0 h))
    ∙ sym (length-erase j v b ub (sym (h j) ∙ lookup_head j v a))

-- same_entries sees a key that is erased only if the left map has it.
same_entries-erase :
    (j : Text) (a b : Entries) → lookup j a ≡ none → same_entries a (erase j b) ≡ same_entries a b
unfolding same_entries lookup
same_entries-erase j [] b n = refl
same_entries-erase j ((k, v) ∷ a) b n = elim (Bool-cases (text_eq k j)) [
  | inl e ↦ absurd (cc (rw e at n))
  | inr e ↦
      let same : lookup k (erase j b) ≡ lookup k b =
        lookup-erase j k b ∙ (rw (text_eq_sym k j e) refl) in
      elim (Option-cases (lookup k b)) [
        | inl f ↦ rw (same, f, same_entries) refl
        | inr (w, f) ↦
            rw (same, f, same_entries)
              (ap (λ x. text_eq v w && x) (same_entries-erase j a b (rw e at n)))
      ]
]

same_entries-Agree :
    (a b : Entries)
    → Unique a
    → Unique b
    → length a ≡ length b
    → same_entries a b ≡ true
    → Agree a b
unfolding same_entries
same_entries-Agree [] [] ua ub l h = λ k. refl
same_entries-Agree [] (e ∷ b) ua ub l h = absurd (omega (arith, l))
same_entries-Agree ((j, v) ∷ a) b ua ub l h = elim (Option-cases (lookup j b)) [
  | inl e ↦ absurd (cc (rw (e, same_entries) at h))
  | inr (w, e) ↦
      let both : (text_eq v w && same_entries a b) ≡ true = rw (e, same_entries) at h in
      let (x, y) = both_true (text_eq v w) (same_entries a b) both in
      let found : lookup j b ≡ some v = e ∙ ap some (sym ((text_eq_iff v w).0 x)) in
      Agree-back j v a b found (
        same_entries-Agree a (erase j b) ua.1 (erase-Unique j b ub)
          (omega (arith, l, length-erase j v b ub found)) (same_entries-erase j a b ua.0 ∙ y))
]
  where
    both_true : (x y : Bool) → (x && y) ≡ true → (x ≡ true) × (y ≡ true)
    both_true true true e = (refl, refl)
    both_true true false e = absurd (cc e)
    both_true false y e = absurd (cc e)

Agree-same_entries : (a b : Entries) → Unique a → Agree a b → same_entries a b ≡ true
unfolding same_entries
Agree-same_entries [] b ua h = refl
Agree-same_entries ((j, v) ∷ a) b ua h =
    let found : lookup j b ≡ some v = sym (h j) ∙ lookup_head j v a in
    rw (found, same_refl v, same_entries)
      (sym (same_entries-erase j a b ua.0)
        ∙ Agree-same_entries a (erase j b) ua.1 (Agree-erase j v a b ua.0 h))

pub same_maps_iff : (a b : Entries) → Unique a → Unique b → (same_maps a b ≡ true) ↔ Agree a b
unfolding same_maps
same_maps_iff a b ua ub = (
  λ h.
      let (x, y) = split_and (length a == length b) (same_entries a b) h in
      same_entries-Agree a b ua ub ((==_iff (length a) (length b)).0 x) y,
  λ h.
      rw ((==_iff (length a) (length b)).1 (length-Agree a b ua ub h), Agree-same_entries a b ua h)
        refl,
)
  where
    split_and : (x y : Bool) → (x && y) ≡ true → (x ≡ true) × (y ≡ true)
    split_and true true e = (refl, refl)
    split_and true false e = absurd (cc e)
    split_and false y e = absurd (cc e)
