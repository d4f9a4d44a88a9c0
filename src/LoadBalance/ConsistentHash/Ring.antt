-- ===== src/LoadBalance/ConsistentHash/Ring.antt =====
-- The ring of consistent hashing: which key a hash selects.
use mathlib.Core.Path.{subst}
use incubator_dubbo_go.Prelude.{
  ℕ, zero, suc, ◌+◌, ◌/◌, ◌<◌, ◌≤◌, ◌≡◌, refl, ap, ◌∙◌, ◌⊎◌, inl, inr, Bool, true, false, List, [],
  ◌∷◌, if◌then◌else◌, length, get_or, ◌==◌, ltb, leb, arith, Bool-cases, All,
}
use incubator_dubbo_go.Prelude.{Text, codes, some, Option-cases}
use incubator_dubbo_go.Prelude.Int.{pos}
use incubator_dubbo_go.Url.{get_method_param, get_method_param_int_value}
use incubator_dubbo_go.Protocol.{Invoker}
use incubator_dubbo_go.LoadBalance.ConsistentHash.{
  Selector, sort_keys, add_invokers, new_selector, parse_indices, search_loop, search_index,
  select_index, sort, insert_sorted,
}

at_end : (i j : ℕ) → ltb i j ≡ false → j ≤ i
at_end i j h = ground arith

not_end : (r n : ℕ) → r ≤ n → (r == n) ≡ false → r < n
not_end r n l e = ground arith

-- The halving finds an index between the bounds at which the test changes, when there is fuel for
-- each index between them.
module _ (f : ℕ → Bool) where
  -- Where a search over `n` indexes may end.
  abbrev pub Found : ℕ → ℕ → Type 0
  Found n r = (r ≤ n) × ((k : ℕ) → suc k ≡ r → f k ≡ false) × (r < n → f r ≡ true)

  search_loop-Found :
      (fuel i j n : ℕ)
      → j < i + fuel
      → i ≤ j
      → j ≤ n
      → ((k : ℕ) → suc k ≡ i → f k ≡ false)
      → (j < n → f j ≡ true)
      → Found n (search_loop fuel f i j)
  unfolding search_loop
  search_loop-Found zero i j n enough l m lo hi = absurd (omega arith)
  search_loop-Found (suc fuel) i j n enough l m lo hi = elim (Bool-cases (ltb i j)) [
    | inl e ↦
        rw (e, search_loop)
          (elim (Bool-cases (f ((i + j) / 2))) [
            | inl q ↦ rw q (
                search_loop-Found fuel i ((i + j) / 2) n (ground arith) (ground arith)
                  (ground arith) lo (λ _. q))
            | inr q ↦ rw q (
                search_loop-Found fuel ((i + j) / 2 + 1) j n (ground arith) (ground arith) m
                  (λ k h. ap f (omega (arith, h)) ∙ q) hi)
          ])
    | inr e ↦
        rw (e, search_loop)
          (
            ground arith,
            lo,
            λ h. ap f (omega (arith, at_end i j e)) ∙ hi (omega (arith, at_end i j e)),
          )
  ]

-- No key is greater than one behind it.
abbrev pub Ascending : List ℕ → Type 0
Ascending [] = Unit
Ascending (k ∷ ks) = All (λ j. k ≤ j) ks × Ascending ks

All-get_or : (k i : ℕ) (ks : List ℕ) → All (λ j. k ≤ j) ks → i < length ks → k ≤ get_or ks i 0
All-get_or k i [] a h = absurd (omega arith)
All-get_or k zero (j ∷ ks) a h = a.0
All-get_or k (suc i) (j ∷ ks) a h = All-get_or k i ks a.1 (omega arith)

get_or_mono :
    (ks : List ℕ) (i j : ℕ) → Ascending ks → i ≤ j → j < length ks → get_or ks i 0 ≤ get_or ks j 0
get_or_mono [] i j a l h = absurd (omega arith)
get_or_mono (k ∷ ks) zero zero a l h = omega arith
get_or_mono (k ∷ ks) zero (suc j) a l h = All-get_or k j ks a.0 (omega arith)
get_or_mono (k ∷ ks) (suc i) zero a l h = absurd (omega arith)
get_or_mono (k ∷ ks) (suc i) (suc j) a l h = get_or_mono ks i j a.1 (omega arith) (omega arith)

-- Where on the ring a hash stands: at the first key that is not below it, or at the start if all
-- the keys are.
abbrev pub Selected : List ℕ → ℕ → ℕ → Type 0
Selected ks h i =
    ((h ≤ get_or ks i 0) × ((k : ℕ) → k < i → get_or ks k 0 < h))
    ⊎ ((i ≡ 0) × ((k : ℕ) → k < length ks → get_or ks k 0 < h))

All_below :
    (ks : List ℕ) (h r k : ℕ)
    → Ascending ks
    → r ≤ length ks
    → ((m : ℕ) → suc m ≡ r → leb h (get_or ks m 0) ≡ false)
    → k < r
    → get_or ks k 0 < h
All_below ks h zero k a l f lt = absurd (omega arith)
All_below ks h (suc r) k a l f lt =
    ground (arith, f r refl, get_or_mono ks k r a (omega arith) (omega arith))

below : (h k : ℕ) → leb h k ≡ true → h ≤ k
below h k e = ground arith

-- The wrap to the start behind the search.
wrap-Selected :
    (ks : List ℕ) (h r : ℕ)
    → Ascending ks
    → 1 ≤ length ks
    → Found (λ i. leb h (get_or ks i 0)) (length ks) r
    → ((if r == length ks then 0 else r) < length ks)
      × Selected ks h (if r == length ks then 0 else r)
wrap-Selected ks h r a ne f = elim (Bool-cases (r == length ks)) [
  | inl e ↦ rw e (ne, inr (refl, λ k l. All_below ks h r k a f.0 f.1 (ground arith)))
  | inr e ↦
      let lt = not_end r (length ks) f.0 e in
      rw e (lt, inl (below h (get_or ks r 0) (f.2 lt), λ k l. All_below ks h r k a f.0 f.1 l))
]

-- The search of selectForKey, on keys in order, ends at the first key that is not below the hash,
-- and at the start of the ring if all the keys are below it.
pub select_index-Selected :
    (ks : List ℕ) (h : ℕ)
    → Ascending ks
    → 1 ≤ length ks
    → (select_index ks h < length ks) × Selected ks h (select_index ks h)
unfolding select_index search_index
select_index-Selected ks h a ne =
    let f = (λ (i : ℕ). leb h (get_or ks i 0)) in
    wrap-Selected ks h (search_loop (length ks + 1) f 0 (length ks)) a ne (
      search_loop-Found f (length ks + 1) 0 (length ks) (length ks) (omega arith) (omega arith)
        (omega arith) (λ k e. absurd (omega (arith, e))) (λ l. absurd (omega (arith, l))))

All-insert_sorted :
    (j k : ℕ) (ks : List ℕ) → j ≤ k → All (λ i. j ≤ i) ks → All (λ i. j ≤ i) (insert_sorted k ks)
unfolding insert_sorted
All-insert_sorted j k [] l a = (l, tt)
All-insert_sorted j k (i ∷ ks) l a = elim (Bool-cases (leb k i)) [
  | inl e ↦ rw e (l, a)
  | inr e ↦ rw e (a.0, All-insert_sorted j k ks l a.1)
]

All-weaken : (j k : ℕ) (ks : List ℕ) → j ≤ k → All (λ i. k ≤ i) ks → All (λ i. j ≤ i) ks
All-weaken j k [] l a = tt
All-weaken j k (i ∷ ks) l a = (omega (arith, a.0), All-weaken j k ks l a.1)

above : (k i : ℕ) → leb k i ≡ false → i ≤ k
above k i e = ground arith

insert_sorted-Ascending : (k : ℕ) (ks : List ℕ) → Ascending ks → Ascending (insert_sorted k ks)
unfolding insert_sorted
insert_sorted-Ascending k [] a = (tt, tt)
insert_sorted-Ascending k (i ∷ ks) a = elim (Bool-cases (leb k i)) [
  | inl e ↦ rw e ((below k i e, All-weaken k i ks (below k i e) a.0), a)
  | inr e ↦ rw e (All-insert_sorted i k ks (above k i e) a.0, insert_sorted-Ascending k ks a.1)
]

-- The keys of a new selector are in order.
pub sort-Ascending : (ks : List ℕ) → Ascending (sort ks)
unfolding sort
sort-Ascending [] = tt
sort-Ascending (k ∷ ks) = insert_sorted-Ascending k (sort ks) (sort-Ascending ks)

sort_keys-Ascending : (md5 : Text → List ℕ) (c : Selector) → Ascending (sort_keys md5 c).keys
unfolding sort_keys
sort_keys-Ascending md5 c = sort-Ascending c.keys

-- The ring of a new selector has its keys in order, as its search needs them, whatever md5 and the
-- split at the commas are.
pub new_selector-Ascending :
    (md5 : Text → List ℕ) (split : Text → List Text) (first : Invoker) (is : List Invoker)
    (method : Text) (code : ℕ) (c : Selector)
    → new_selector md5 split first is method code ≡ some c
    → Ascending c.keys
unfolding new_selector
new_selector-Ascending md5 split first is method code c h =
    elim (Option-cases (
      parse_indices
        (split (get_method_param first.url method (codes "hash.arguments") (codes "0"))))) [
          | inl e ↦ absurd (cc (rw (e, new_selector) at h))
          | inr (ks, e) ↦
              kept
                (add_invokers md5 is (record {
                  hash_code = code;
                  replica_num =
                      get_method_param_int_value first.url method (codes "hash.nodes") (pos 160);
                  virtual_invokers = [];
                  keys = [];
                  argument_index = ks;
                }))
                c (rw (e, new_selector) at h)
        ]
  where
    kept : (b c : Selector) → some (sort_keys md5 b) ≡ some c → Ascending c.keys
    kept b c q =
        let r : sort_keys md5 b ≡ c = cc in
        subst (λ (x : Selector). Ascending x.keys) r (sort_keys-Ascending md5 b)
