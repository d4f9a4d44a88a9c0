-- ===== src/Url/Merge/Precedence.antt =====
-- MergeURL: which of the two URLs a parameter comes from.
use incubator_dubbo_go.Prelude.{
  ℕ, ◌≡◌, refl, sym, ap, ◌∙◌, Bool, true, false, ◌||◌, List, [], ◌∷◌, ◌++◌, if◌then◌else◌, Text,
  codes, text_eq, text_eq_iff, text_key, lookup-insert, insert, lookup, arith, Bool-cases, inl, inr,
}
use incubator_dubbo_go.Url.{
  Url, Values, get_param, values_get, or_default, is_empty, with_params, method_key, first_value,
}
use incubator_dubbo_go.Url.Params.{values_get-insert}
use incubator_dubbo_go.Url.Merge.{
  merge_entry, merge_missing, merge_timestamp, merge_params, override_param, override_params,
  merge_keys, call_merge_fcns, merge_methods,
}

pub get_param_empty : (u : Url) (k : Text) → get_param u k [] ≡ values_get u.params k
unfolding get_param or_default
get_param_empty u k = elim (values_get u.params k) as (λ v. (if is_empty v then [] else v) ≡ v) [
  | [] ↦ refl
  | c ∷ s ↦ refl
]

-- The reference's value where it has one, the old one otherwise.
abbrev pub prefer : Text → Text → Text
prefer [] old = old
prefer (c ∷ s) old = c ∷ s

if_same : {A : Type 0} (b : Bool) (x : A) → x ≡ (if b then x else x)
if_same true x = refl
if_same false x = refl

values_get-override_param :
    (reference : Url) (k j : Text) (ps : Values)
    → values_get (override_param reference k ps) j ≡ (
        if text_eq k j
        then prefer (get_param reference k []) (values_get ps j)
        else values_get ps j)
unfolding override_param
values_get-override_param reference k j ps = go (get_param reference k [])
  where
    go :
        (v : Text)
        → values_get (if is_empty v then ps else insert k (v ∷ []) ps) j
          ≡ (if text_eq k j then prefer v (values_get ps j) else values_get ps j)
    go [] = if_same (text_eq k j) (values_get ps j)
    go (c ∷ s) = values_get-insert k j (c ∷ s) ps

-- Whether a key is among the keys.
unfoldable pub is_key : Text → List Text → Bool
is_key k [] = false
is_key k (j ∷ ks) = text_eq j k || is_key k ks

prefer_twice : (v old : Text) → prefer v (prefer v old) ≡ prefer v old
prefer_twice [] old = refl
prefer_twice (c ∷ s) old = refl

if_prefer :
    (b : Bool) (v old : Text) → (if b then prefer v (prefer v old) else prefer v old) ≡ prefer v old
if_prefer true v old = prefer_twice v old
if_prefer false v old = refl

pub values_get-override_params :
    (reference : Url) (ks : List Text) (j : Text) (ps : Values)
    → values_get (override_params reference ks ps) j ≡ (
        if is_key j ks
        then prefer (get_param reference j []) (values_get ps j)
        else values_get ps j)
unfolding override_params is_key
values_get-override_params reference [] j ps = refl
values_get-override_params reference (k ∷ ks) j ps =
    values_get-override_params reference ks j (override_param reference k ps)
    ∙ rw (values_get-override_param reference k j ps) (elim (Bool-cases (text_eq k j)) [
      | inl e ↦
          rw (e, (text_eq_iff k j).0 e)
            (if_prefer (is_key j ks) (get_param reference j []) (values_get ps j))
      | inr e ↦ rw e refl
    ])

-- A key that MergeURL writes for a method.
abbrev pub method_prefix : Text
method_prefix = codes "methods."

values_get-call_merge_fcns :
    (reference : Url) (ks : List Text) (captured method j : Text) (ps : Values)
    → text_eq (method_prefix ++ (method ++ (codes "." ++ captured))) j ≡ false
    → values_get (call_merge_fcns reference ks captured method ps) j ≡ values_get ps j
unfolding call_merge_fcns
values_get-call_merge_fcns reference [] captured method j ps h = refl
values_get-call_merge_fcns reference (_ ∷ ks) captured method j ps h =
    values_get-call_merge_fcns reference ks captured method j _ h
    ∙ values_get-override_param reference (method_prefix ++ (method ++ (codes "." ++ captured))) j
        ps
    ∙ rw h refl

-- The closures that are called for the methods write no key but the timeouts of methods.
pub values_get-merge_methods :
    (reference : Url) (methods : List Text) (j : Text) (ps : Values)
    → ((m : Text) → text_eq (method_key m (codes "timeout")) j ≡ false)
    → values_get (merge_methods reference methods ps) j ≡ values_get ps j
unfolding merge_methods method_key
values_get-merge_methods reference [] j ps h = refl
values_get-merge_methods reference (m ∷ ms) j ps h =
    values_get-merge_methods reference ms j _ h
    ∙ values_get-call_merge_fcns reference merge_keys (codes "timeout") m j ps (h m)

pub values_get-merge_timestamp :
    (service reference : Url) (j : Text) (ps : Values)
    → text_eq (codes "timestamp") j ≡ false
    → text_eq (codes "remote.timestamp") j ≡ false
    → values_get (merge_timestamp service reference ps) j ≡ values_get ps j
unfolding merge_timestamp
values_get-merge_timestamp service reference j ps h h' =
    elim (Bool-cases (is_empty (get_param service (codes "timestamp") []))) [
      | inl e ↦ rw e refl
      | inr e ↦
          rw
            (
              e,
              values_get-insert (codes "timestamp") j (get_param reference (codes "timestamp") []) (
                  insert (codes "remote.timestamp") (get_param service (codes "timestamp") [] ∷ [])
                    ps),
              h,
              values_get-insert (codes "remote.timestamp") j
                  (get_param service (codes "timestamp") []) ps,
              h',
            )
            refl
    ]

values_get-insert_other :
    (k j : Text) (vs : List Text) (ps : Values)
    → text_eq k j ≡ false
    → values_get (insert k vs ps) j ≡ values_get ps j
unfolding values_get
values_get-insert_other k j vs ps h =
    ap first_value {y = lookup j ps} (lookup-insert k j vs ps ∙ rw h refl)

insert_either :
    (b b' : Bool) (k j : Text) (vs : List Text) (ps : Values)
    → text_eq k j ≡ false
    → values_get (if b then (if b' then ps else insert k vs ps) else ps) j ≡ values_get ps j
insert_either true true k j vs ps h = refl
insert_either true false k j vs ps h = values_get-insert_other k j vs ps h
insert_either false b' k j vs ps h = refl

merge_entry_keeps :
    (merged : Url) (k : Text) (vs : List Text) (j : Text) (c : ℕ) (s : Text) (ps : Values)
    → values_get ps j ≡ c ∷ s
    → values_get (merge_entry merged k vs ps) j ≡ c ∷ s
unfolding merge_entry
merge_entry_keeps merged k vs j c s ps h = elim (Bool-cases (text_eq k j)) [
  | inl e ↦ rw ((text_eq_iff k j).0 e, merge_entry, get_param_empty (with_params merged ps) j, h) h
  | inr e ↦
      insert_either (is_empty (get_param (with_params merged ps) k [])) (is_empty vs) k j vs ps e
      ∙ h
]

-- A parameter that is there keeps its value in MergeURL's first loop.
pub values_get-merge_missing :
    (merged : Url) (ref : Values) (j : Text) (c : ℕ) (s : Text) (ps : Values)
    → values_get ps j ≡ c ∷ s
    → values_get (merge_missing merged ref ps) j ≡ c ∷ s
unfolding merge_missing
values_get-merge_missing merged [] j c s ps h = h
values_get-merge_missing merged ((k, vs) ∷ ref) j c s ps h =
    values_get-merge_missing merged ref j c s (merge_entry merged k vs ps)
      (merge_entry_keeps merged k vs j c s ps h)

-- The keys that MergeURL takes from the reference are none of those that it writes otherwise.
abbrev IsPlain : Text → Type 0
IsPlain k =
    ((m : Text) → text_eq (method_key m (codes "timeout")) k ≡ false)
    × (text_eq (codes "timestamp") k ≡ false)
    × (text_eq (codes "remote.timestamp") k ≡ false)

one_of :
    (a b c d : Bool)
    → (a || (b || (c || (d || false)))) ≡ true
    → a ≡ false
    → b ≡ false
    → c ≡ false
    → d ≡ false
    → ⊥
one_of a b c d h ea eb ec ed = ground arith

merge_keys-IsPlain : (k : Text) → is_key k merge_keys ≡ true → IsPlain k
unfolding is_key method_key text_eq
merge_keys-IsPlain k h = elim (Bool-cases (text_eq (codes "loadbalance") k)) [
  | inl e ↦ rw⁻¹ ((text_eq_iff (codes "loadbalance") k).0 e) (λ m. refl, refl, refl)
  | inr e ↦ elim (Bool-cases (text_eq (codes "cluster") k)) [
    | inl e' ↦ rw⁻¹ ((text_eq_iff (codes "cluster") k).0 e') (λ m. refl, refl, refl)
    | inr e' ↦ elim (Bool-cases (text_eq (codes "retries") k)) [
      | inl q ↦ rw⁻¹ ((text_eq_iff (codes "retries") k).0 q) (λ m. refl, refl, refl)
      | inr q ↦ elim (Bool-cases (text_eq (codes "timeout") k)) [
        | inl q' ↦ rw⁻¹ ((text_eq_iff (codes "timeout") k).0 q') (λ m. refl, refl, refl)
        | inr q' ↦ absurd (one_of _ _ _ _ h e e' q q')
      ]
    ]
  ]
]

merge_params_of_key :
    (merged service reference : Url) (k : Text)
    → is_key k merge_keys ≡ true
    → values_get (merge_params merged service reference) k
      ≡ prefer
          (get_param reference k [])
          (values_get (merge_missing merged reference.params merged.params) k)
unfolding merge_params
merge_params_of_key merged service reference k h =
    let plain = merge_keys-IsPlain k h in
    values_get-merge_methods reference reference.methods k _ plain.0
    ∙ values_get-merge_timestamp service reference k _ plain.1 plain.2
    ∙ values_get-override_params reference merge_keys k _
    ∙ rw h refl

-- For the load balance, the cluster, the retries and the timeout MergeURL takes the reference's
-- value where the reference has one.
pub merge_params-reference :
    (merged service reference : Url) (k : Text) (c : ℕ) (s : Text)
    → is_key k merge_keys ≡ true
    → get_param reference k [] ≡ c ∷ s
    → get_param (with_params merged (merge_params merged service reference)) k [] ≡ c ∷ s
merge_params-reference merged service reference k c s h e =
    get_param_empty (with_params merged (merge_params merged service reference)) k
    ∙ merge_params_of_key merged service reference k h
    ∙ rw e refl

-- Where the service has a value for one of these four, MergeURL takes the reference's value, and
-- the service's where the reference has none.
pub merge_params-service :
    (merged service reference : Url) (k : Text) (c : ℕ) (s : Text)
    → is_key k merge_keys ≡ true
    → get_param merged k [] ≡ c ∷ s
    → get_param (with_params merged (merge_params merged service reference)) k []
      ≡ prefer (get_param reference k []) (c ∷ s)
merge_params-service merged service reference k c s h e =
    get_param_empty (with_params merged (merge_params merged service reference)) k
    ∙ merge_params_of_key merged service reference k h
    ∙ ap (prefer (get_param reference k [])) (
        values_get-merge_missing merged reference.params k c s merged.params
          (sym (get_param_empty merged k) ∙ e))
