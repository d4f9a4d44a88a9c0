-- ===== src/LoadBalance/ConsistentHash.antt =====
-- cluster/loadbalance/consistenthashing. md5, crc32 over the JSON of the invokers, and the split at
-- commas are parameters.
pub mod Ring
use incubator_dubbo_go.Prelude.{
  ℕ, zero, suc, ◌+◌, ◌*◌, ◌/◌, ◌%◌, ◌^◌, ◌≡◌, Bool, true, false, not, ◌&&◌, List, [], ◌∷◌, ◌++◌,
  Option, none, some, if◌then◌else◌, length, get_elem?, get_or, ◌==◌, ltb, leb, Text, text_key,
  codes, lookup, insert, nat_key,
}
use Prim.Native.Nat.{bit_or, bit_and}
use incubator_dubbo_go.Prelude.Int.{ℤ, pos, negsuc, pos_part}
use incubator_dubbo_go.Strconv.{atoi, itoa}
use incubator_dubbo_go.Url.{Url, service_key, get_method_param_int_value, get_method_param}
use incubator_dubbo_go.Protocol.{Any, str, nil, obj, Invoker, Invocation, Outcome, done, panic}
use incubator_dubbo_go.LoadBalance.Random.{index_of}

pub record Selector : Type 0 where
  pub hash_code : ℕ  -- uint32
  pub replica_num : ℤ
  pub virtual_invokers : List (ℕ × Invoker)
  pub keys : List ℕ  -- uint32s, in order
  pub argument_index : List ℤ

-- The method hash: bytes 4i to 4i+3 of the digest, the lowest first. The mask 0xFFFFFFF binds to
-- the last operand alone, which it does not change.
unfoldable pub hash : List ℕ → ℕ → ℕ
hash digest i =
    bit_or
      (bit_or
        (bit_or (bit_and (get_or digest (3 + i * 4) 0) 0xff * 2 ^ 24 % 2 ^ 32)
          (bit_and (get_or digest (2 + i * 4) 0) 0xff * 2 ^ 16 % 2 ^ 32))
        (bit_and (get_or digest (1 + i * 4) 0) 0xff * 2 ^ 8 % 2 ^ 32))
      (bit_and (bit_and (get_or digest (i * 4) 0) 0xff) 0xfff_ffff)

-- toKey: `fmt.Fprint` of each argument at the position of an argument index, as far as there are
-- arguments. `args[i].(string)` panics on another type.
unfoldable pub to_key : List ℤ → List Any → Outcome Text
to_key [] args = done []
to_key (_ ∷ is) [] = done []
to_key (_ ∷ is) (str s ∷ args) = elim (to_key is args) [ panic ↦ panic | done t ↦ done (s ++ t) ]
to_key (_ ∷ is) (nil ∷ args) = panic
to_key (_ ∷ is) (obj n ∷ args) = panic

-- sort.Search: the loop over `[i, j)` on fuel.
unfoldable pub search_loop : ℕ → (ℕ → Bool) → ℕ → ℕ → ℕ
search_loop zero f i j = i
search_loop (suc fuel) f i j = elim (ltb i j) [
  | false ↦ i
  | true ↦ elim (f ((i + j) / 2)) [
    | false ↦ search_loop fuel f ((i + j) / 2 + 1) j
    | true ↦ search_loop fuel f i ((i + j) / 2)
  ]
]

unfoldable pub search_index : ℕ → (ℕ → Bool) → ℕ
unfolding search_loop
search_index n f = search_loop (n + 1) f 0 n

unfoldable pub select_index : List ℕ → ℕ → ℕ
unfolding search_index
select_index keys h =
    let idx = search_index (length keys) (λ i. leb h (get_or keys i 0)) in
    if idx == length keys then 0 else idx

-- selectForKey: no keys is an index out of range; a key that is not in the map gives nil.
unfoldable pub select_for_key : Selector → ℕ → Outcome (Option Invoker)
unfolding select_index lookup
select_for_key c h = elim (get_elem? c.keys (select_index c.keys h)) [
  | none ↦ panic
  | some k ↦ done (lookup k c.virtual_invokers)
]

-- sort.Sort on numbers.
unfoldable pub insert_sorted : ℕ → List ℕ → List ℕ
insert_sorted k [] = k ∷ []
insert_sorted k (j ∷ ks) = if leb k j then k ∷ j ∷ ks else j ∷ insert_sorted k ks

unfoldable pub sort : List ℕ → List ℕ
unfolding insert_sorted
sort [] = []
sort (k ∷ ks) = insert_sorted k (sort ks)

unfoldable pub parse_indices : List Text → Option (List ℤ)
parse_indices [] = some []
parse_indices (t ∷ ts) = elim (atoi t) [
  | none ↦ none
  | some i ↦ elim (parse_indices ts) [ none ↦ none | some is ↦ some (i ∷ is) ]
]

module _ (md5 : Text → List ℕ) where
  -- The four keys of one digest, for j = 0 .. 3.
  unfoldable pub add_digest : List ℕ → Invoker → Selector → Selector
  unfolding hash insert
  add_digest digest ivk c =
      let k0 = hash digest 0 in
      let k1 = hash digest 1 in
      let k2 = hash digest 2 in
      let k3 = hash digest 3 in
      record c {
        keys = c.keys ++ k0 ∷ k1 ∷ k2 ∷ k3 ∷ [];
        virtual_invokers =
            insert k3 ivk (insert k2 ivk (insert k1 ivk (insert k0 ivk c.virtual_invokers)));
      }

  -- The loop over i, with the rounds that are left.
  unfoldable pub add_replicas : ℕ → ℕ → Text → Invoker → Selector → Selector
  unfolding add_digest itoa
  add_replicas zero i address ivk c = c
  add_replicas (suc n) i address ivk c =
      add_replicas n (i + 1) address ivk (add_digest (md5 (address ++ itoa i)) ivk c)

  unfoldable pub add_invokers : List Invoker → Selector → Selector
  unfolding add_replicas
  add_invokers [] c = c
  add_invokers (v ∷ vs) c =
      add_invokers vs
        (add_replicas (pos_part c.replica_num / 4) 0 (v.url.ip ++ (codes ":" ++ v.url.port)) v c)

  unfoldable pub sort_keys : Selector → Selector
  unfolding sort
  sort_keys c = record c { keys = sort c.keys }

  -- newSelector: an index that does not parse gives nil.
  unfoldable pub new_selector :
      (Text → List Text) → Invoker → List Invoker → Text → ℕ → Option Selector
  unfolding parse_indices add_invokers sort_keys
  new_selector split first invokers method hash_code =
      elim (parse_indices
        (split (get_method_param first.url method (codes "hash.arguments") (codes "0")))) [
          | none ↦ none
          | some indices ↦ some (
              sort_keys (
                add_invokers invokers (record {
                  hash_code = hash_code;
                  replica_num =
                      get_method_param_int_value first.url method (codes "hash.nodes") (pos 160);
                  virtual_invokers = [];
                  keys = [];
                  argument_index = indices;
                })))
        ]

  -- The selector's Select; on a nil selector it panics.
  unfoldable pub selector_select : Option Selector → Invocation → Outcome (Option Invoker)
  unfolding to_key select_for_key hash
  selector_select none invocation = panic
  selector_select (some c) invocation = elim (to_key c.argument_index invocation.arguments) [
    | panic ↦ panic
    | done k ↦ select_for_key c (hash (md5 k) 0)
  ]

  -- Whether the stored selector still fits: a nil one is dereferenced.
  unfoldable pub is_stale : Option (Option Selector) → ℕ → Outcome Bool
  is_stale none code = done true
  is_stale (some none) code = panic
  is_stale (some (some c)) code = done (not (c.hash_code == code))

  abbrev flatten_selector : Option (Option Selector) → Option Selector
  flatten_selector none = none
  flatten_selector (some c) = c

  -- Select of the load balance, with the map of selectors. `checksum` is the CRC of the invokers'
  -- JSON, `none` when one cannot be marshalled.
  unfoldable pub select :
      (List Invoker → Option ℕ)
      → (Text → List Text)
      → List Invoker
      → Invocation
      → List (Text × Option Selector)
      → Outcome (Option Invoker × List (Text × Option Selector))
  unfolding is_stale new_selector selector_select lookup insert
  select checksum split [] invocation selectors = panic
  select checksum split (i ∷ is) invocation selectors =
      let k = service_key i.url ++ (codes "." ++ invocation.method_name) in
      elim (checksum (i ∷ is)) [
        | none ↦ done (none, selectors)
        | some code ↦ elim (is_stale (lookup k selectors) code) [
          | panic ↦ panic
          | done stale ↦
              let c =
                if stale
                then new_selector split i (i ∷ is) invocation.method_name code
                else flatten_selector (lookup k selectors) in
              elim (selector_select c invocation) [
                | panic ↦ panic
                | done v ↦ done (v, if stale then insert k c selectors else selectors)
              ]
        ]
      ]
