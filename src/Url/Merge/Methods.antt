-- ===== src/Url/Merge/Methods.antt =====
-- MergeURL: the parameters of single methods.
use incubator_dubbo_go.Prelude.{
  ℕ, ◌≡◌, refl, sym, ap, ◌∙◌, Bool, true, false, ◌||◌, List, [], ◌∷◌, some, ◌++◌, Text, codes,
  text_eq, text_eq_iff, arith, Bool-cases, inl, inr,
}
use mathlib.Core.List.{append_assoc}
use incubator_dubbo_go.Url.{Url, get_param, with_params, method_key, replace_params}
use incubator_dubbo_go.Url.Merge.{merge_params, merge_keys, clone, merge_url}
use incubator_dubbo_go.Url.Merge.Precedence.{
  get_param_empty, is_key, values_get-merge_methods, values_get-merge_timestamp,
  values_get-override_params, values_get-merge_missing,
}

last_byte : Text → ℕ
last_byte [] = 0
last_byte (c ∷ []) = c
last_byte (c ∷ d ∷ s) = last_byte (d ∷ s)

last_byte-append : (s : Text) (c : ℕ) (t : Text) → last_byte (s ++ c ∷ t) ≡ last_byte (c ∷ t)
unfolding last_byte
last_byte-append [] c t = refl
last_byte-append (d ∷ []) c t = refl
last_byte-append (d ∷ e ∷ s) c t = last_byte-append (e ∷ s) c t

last_byte-method_key : (m x : Text) → last_byte (method_key m x) ≡ last_byte (b'.' ∷ x)
unfolding method_key
last_byte-method_key m x =
    ap last_byte (sym (append_assoc (codes "methods.") m (b'.' ∷ x)))
    ∙ last_byte-append (codes "methods." ++ m) b'.' x

-- The keys whose method parameters are meant to be merged, but for the timeout.
abbrev pub other_merge_keys : List Text
other_merge_keys = codes "loadbalance" ∷ codes "cluster" ∷ codes "retries" ∷ []

one_of_three :
    (a b c : Bool) → (a || (b || (c || false))) ≡ true → a ≡ false → b ≡ false → c ≡ false → ⊥
one_of_three a b c h ea eb ec = ground arith

ends_otherwise : (x : Text) → is_key x other_merge_keys ≡ true → last_byte (b'.' ∷ x) ≡ b't' → ⊥
unfolding is_key last_byte
ends_otherwise x h e = elim (Bool-cases (text_eq (codes "loadbalance") x)) [
  | inl p ↦ absurd (
      omega (arith, ap (λ y. last_byte (b'.' ∷ y)) ((text_eq_iff (codes "loadbalance") x).0 p) ∙ e))
  | inr p ↦ elim (Bool-cases (text_eq (codes "cluster") x)) [
    | inl q ↦
        absurd (
          omega (arith, ap (λ y. last_byte (b'.' ∷ y)) ((text_eq_iff (codes "cluster") x).0 q) ∙ e))
    | inr q ↦ elim (Bool-cases (text_eq (codes "retries") x)) [
      | inl r ↦ absurd (
          omega (arith, ap (λ y. last_byte (b'.' ∷ y)) ((text_eq_iff (codes "retries") x).0 r) ∙ e))
      | inr r ↦ one_of_three _ _ _ h p q r
    ]
  ]
]

method_key_apart :
    (m n x : Text)
    → is_key x other_merge_keys ≡ true
    → text_eq (method_key n (codes "timeout")) (method_key m x) ≡ false
unfolding last_byte
method_key_apart m n x h =
    elim (Bool-cases (text_eq (method_key n (codes "timeout")) (method_key m x))) [
      | inr e ↦ e
      | inl e ↦ absurd (
          ends_otherwise x h (
            sym (last_byte-method_key m x)
            ∙ ap last_byte (sym ((text_eq_iff _ (method_key m x)).0 e))
            ∙ last_byte-method_key n (codes "timeout")))
    ]

method_key-is_key : (m x : Text) → is_key (method_key m x) merge_keys ≡ false
unfolding is_key method_key text_eq
method_key-is_key m x = refl

method_key-timestamp : (m x : Text) → text_eq (codes "timestamp") (method_key m x) ≡ false
unfolding method_key text_eq
method_key-timestamp m x = refl

method_key-remote : (m x : Text) → text_eq (codes "remote.timestamp") (method_key m x) ≡ false
unfolding method_key text_eq
method_key-remote m x = refl

merge_params-method :
    (merged service reference : Url) (m x : Text) (c : ℕ) (s : Text)
    → is_key x other_merge_keys ≡ true
    → get_param merged (method_key m x) [] ≡ c ∷ s
    → get_param (with_params merged (merge_params merged service reference)) (method_key m x) []
      ≡ c ∷ s
unfolding merge_params
merge_params-method merged service reference m x c s h e =
    let k = method_key m x in
    get_param_empty (with_params merged (merge_params merged service reference)) k
    ∙ values_get-merge_methods reference reference.methods k _ (λ n. method_key_apart m n x h)
    ∙ values_get-merge_timestamp service reference k _ (method_key-timestamp m x)
        (method_key-remote m x)
    ∙ values_get-override_params reference merge_keys k _
    ∙ rw (method_key-is_key m x) (
        values_get-merge_missing merged reference.params k c s merged.params
          (sym (get_param_empty merged k) ∙ e))

-- A method's load balance, cluster or retries that the copy of the service's URL has is what MergeURL
-- leaves, also where the reference has a value for that method, whatever the reference says.
pub merge_url-method :
    (copy : Url → Url × Bool) (service reference merged : Url) (m x : Text) (c : ℕ) (s : Text)
    → clone copy service ≡ some merged
    → is_key x other_merge_keys ≡ true
    → get_param merged (method_key m x) [] ≡ c ∷ s
    → (u : Url) × (merge_url copy service reference ≡ some u)
      × (get_param u (method_key m x) [] ≡ c ∷ s)
unfolding merge_url replace_params
merge_url-method copy service reference merged m x c s cloned h e = (
  replace_params merged (merge_params merged service reference),
  rw (cloned, merge_url) refl,
  merge_params-method merged service reference m x c s h e,
)
