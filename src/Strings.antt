-- ===== src/Strings.antt =====
-- Go's `strings` as far as the program uses it. A text is the list of its bytes.
use incubator_dubbo_go.Prelude.{
  ℕ, zero, suc, Bool, true, false, ◌&&◌, ◌||◌, List, [], ◌∷◌, ◌++◌, ltb, drop, Option, none, some,
  if◌then◌else◌, ◌==◌, leb, length, Text,
}

-- strings.HasPrefix(s, prefix)
unfoldable pub has_prefix : Text → Text → Bool
has_prefix s [] = true
has_prefix [] (p ∷ ps) = false
has_prefix (c ∷ s) (p ∷ ps) = c == p && has_prefix s ps

-- strings.Split(s, sep) at a separator of one byte.
unfoldable pub cons_first : ℕ → List Text → List Text
cons_first c [] = (c ∷ []) ∷ []
cons_first c (w ∷ ws) = (c ∷ w) ∷ ws

unfoldable pub split : ℕ → Text → List Text
unfolding cons_first
split sep [] = [] ∷ []
split sep (c ∷ s) = let rest = split sep s in if c == sep then [] ∷ rest else cons_first c rest

-- unicode.IsSpace on the encodings of one, two and three bytes.
unfoldable pub is_space_1 : ℕ → Bool
is_space_1 a = (leb 9 a && leb a 13) || a == 32

unfoldable pub is_space_2 : ℕ → ℕ → Bool
is_space_2 a b = a == 0xc2 && (b == 0x85 || b == 0xa0)

unfoldable pub is_space_3 : ℕ → ℕ → ℕ → Bool
is_space_3 a b c =
    (a == 0xe1 && b == 0x9a && c == 0x80)
    || (a == 0xe2
        && b == 0x80
        && ((leb 0x80 c && leb c 0x8a) || c == 0xa8 || c == 0xa9 || c == 0xaf))
    || (a == 0xe2 && b == 0x81 && c == 0x9f)
    || (a == 0xe3 && b == 0x80 && c == 0x80)

-- A text without the space that it begins with.
unfoldable pub drop_space : Text → Option Text
unfolding is_space_1 is_space_2 is_space_3
drop_space [] = none
drop_space (a ∷ []) = if is_space_1 a then some [] else none
drop_space (a ∷ b ∷ []) =
    if is_space_1 a then some (b ∷ []) else if is_space_2 a b then some [] else none
drop_space (a ∷ b ∷ c ∷ s) =
    if is_space_1 a
    then some (b ∷ c ∷ s)
    else if is_space_2 a b
    then some (c ∷ s)
    else if is_space_3 a b c
    then some s
    else none

-- A text from behind, without the space that it ends with.
unfoldable pub drop_space_back : Text → Option Text
unfolding is_space_1 is_space_2 is_space_3
drop_space_back [] = none
drop_space_back (a ∷ []) = if is_space_1 a then some [] else none
drop_space_back (b ∷ a ∷ []) =
    if is_space_1 b then some (a ∷ []) else if is_space_2 a b then some [] else none
drop_space_back (c ∷ b ∷ a ∷ s) =
    if is_space_1 c
    then some (b ∷ a ∷ s)
    else if is_space_2 b c
    then some (a ∷ s)
    else if is_space_3 a b c
    then some s
    else none

-- Each round drops a byte at least, so the length is fuel enough.
unfoldable pub drop_spaces : (Text → Option Text) → ℕ → Text → Text
drop_spaces drop zero s = s
drop_spaces drop (suc f) s = elim (drop s) [ none ↦ s | some r ↦ drop_spaces drop f r ]

unfoldable pub reverse_onto : Text → Text → Text
reverse_onto [] acc = acc
reverse_onto (c ∷ s) acc = reverse_onto s (c ∷ acc)

-- strings.TrimSpace
unfoldable pub trim_space : Text → Text
unfolding drop_space drop_space_back drop_spaces reverse_onto
trim_space s =
    let front = drop_spaces drop_space (length s) s in
    reverse_onto (drop_spaces drop_space_back (length front) (reverse_onto front [])) []

-- strings.Contains(s, sub)
unfoldable pub contains : Text → Text → Bool
unfolding has_prefix
contains [] sub = has_prefix [] sub
contains (c ∷ s) sub = has_prefix (c ∷ s) sub || contains s sub

-- strings.TrimPrefix(s, prefix)
unfoldable pub trim_prefix : Text → Text → Text
unfolding has_prefix
trim_prefix s prefix = if has_prefix s prefix then drop (length prefix) s else s

-- strings.Replace(s, old, new, 1) for a text `old` that is not empty.
unfoldable pub replace_once : Text → Text → Text → Text
unfolding has_prefix
replace_once [] old new = []
replace_once (c ∷ s) old new =
    let rest = replace_once s old new in
    if has_prefix (c ∷ s) old then new ++ drop (length old) (c ∷ s) else c ∷ rest

-- `s < t` on strings.
unfoldable pub less : Text → Text → Bool
less s [] = false
less [] (d ∷ t) = true
less (c ∷ s) (d ∷ t) = ltb c d || (c == d && less s t)

-- strings.Index(s, sep) for a separator of one byte.
unfoldable pub index_byte : ℕ → Text → Option ℕ
index_byte sep [] = none
index_byte sep (c ∷ s) =
    let rest = index_byte sep s in
    if c == sep then some 0 else elim rest [ none ↦ none | some i ↦ some (suc i) ]

-- strings.Join(ts, sep)
unfoldable pub join : List Text → Text → Text
join [] sep = []
join (t ∷ []) sep = t
join (t ∷ u ∷ ts) sep = t ++ sep ++ join (u ∷ ts) sep
