-- ===== src/Strconv.antt =====
-- Go's `strconv` as far as the program uses it: ParseInt in base 10 and base 0, Atoi, ParseBool, and
-- Itoa and FormatInt in base 10.
-- The callers look only at `err != nil`, so a syntax error and a range error are both `none`.
use incubator_dubbo_go.Prelude.{
  ℕ, zero, suc, ◌+◌, ◌-◌, ◌*◌, ◌/◌, ◌%◌, ◌^◌, ◌≡◌, refl, Bool, true, false, ◌&&◌, ◌||◌, Option,
  none, some, [], ◌∷◌, arith, ltb, leb, ◌==◌, if◌then◌else◌, Text, codes, text_eq,
}
use incubator_dubbo_go.Prelude.Int.{ℤ, pos, negsuc, InInt64}

-- The value of a digit or letter, up to base 36.
unfoldable pub digit : ℕ → Option ℕ
digit c =
    if leb b'0' c && leb c b'9'
    then some (c - b'0')
    else if leb b'a' c && leb c b'z'
    then some (c - b'a' + 10)
    else if leb b'A' c && leb c b'Z'
    then some (c - b'A' + 10)
    else none

-- The loop of ParseUint over the digits. `sep` says that underscores are skipped.
unfoldable pub parse_digits : Bool → ℕ → ℕ → Text → Option ℕ
parse_digits sep base n [] = some n
parse_digits sep base n (c ∷ s) =
    let skipped = parse_digits sep base n s in
    let next = λ (d : ℕ). parse_digits sep base (n * base + d) s in
    if sep && c == b'_'
    then skipped
    else elim (digit c) [ none ↦ none | some d ↦ if ltb d base then next d else none ]

-- `lower` of strconv sets the bit 0x20; only these three letters matter here.
abbrev is_letter : ℕ → ℕ → Bool
is_letter c l = c == l || c == l - 32

-- `prev` of underscoreOK: what stood before.
pub data Prev : Type 0 where
  start digit_seen underscore other : Prev

unfoldable pub underscore_ok_loop : Bool → Prev → Text → Bool
underscore_ok_loop hex underscore [] = false
underscore_ok_loop hex _ [] = true
underscore_ok_loop hex prev (c ∷ s) =
    let after_digit = underscore_ok_loop hex digit_seen s in
    let after_underscore = underscore_ok_loop hex underscore s in
    let after_other = underscore_ok_loop hex other s in
    if (leb b'0' c && leb c b'9')
      || (hex && ((leb b'a' c && leb c b'f') || (leb b'A' c && leb c b'F')))
    then after_digit
    else if c == b'_'
    then elim prev [ digit_seen ↦ after_underscore | _ ↦ false ]
    else elim prev [ underscore ↦ false | _ ↦ after_other ]

-- underscoreOK, of a text whose sign is gone.
unfoldable pub underscore_ok : Text → Bool
unfolding underscore_ok_loop
underscore_ok (z ∷ p ∷ s) =
    if z == b'0' && (is_letter p b'b' || is_letter p b'o' || is_letter p b'x')
    then underscore_ok_loop (is_letter p b'x') digit_seen s
    else underscore_ok_loop false start (z ∷ p ∷ s)
underscore_ok s = underscore_ok_loop false start s

-- The base that a prefix announces when the base argument is 0, and the digits behind it.
unfoldable pub detect_base : Text → ℕ × Text
detect_base (z ∷ p ∷ d ∷ s) =
    if z == b'0'
    then if is_letter p b'b'
      then (2, d ∷ s)
      else if is_letter p b'o'
      then (8, d ∷ s)
      else if is_letter p b'x'
      then (16, d ∷ s)
      else (8, p ∷ d ∷ s)
    else (10, z ∷ p ∷ d ∷ s)
detect_base (z ∷ s) = if z == b'0' then (8, s) else (10, z ∷ s)
detect_base [] = (10, [])

-- ParseUint without its range check; base 0 takes the base from the prefix.
unfoldable pub parse_magnitude : ℕ → Text → Option ℕ
unfolding parse_digits underscore_ok detect_base digit
parse_magnitude base [] = none
parse_magnitude zero (c ∷ s) =
    let (base, digits) = detect_base (c ∷ s) in
    if underscore_ok (c ∷ s) then parse_digits true base 0 digits else none
parse_magnitude (suc b) (c ∷ s) = parse_digits false (suc b) 0 (c ∷ s)

-- `cutoff` and the sign: what ParseInt accepts in `bits` bits.
unfoldable pub to_signed : Bool → ℕ → ℕ → Option ℤ
to_signed negative cutoff n =
    if negative
    then (if ltb cutoff n then none else some (if n == 0 then pos 0 else negsuc (n - 1)))
    else if leb cutoff n
    then none
    else some (pos n)

-- The two ways out of ParseUint's call in ParseInt.
unfoldable pub signed_of : Bool → ℕ → Option ℕ → Option ℤ
unfolding to_signed
signed_of negative bits none = none
signed_of negative bits (some n) = to_signed negative (2 ^ (bits - 1)) n

-- strconv.ParseInt; `bits` is 64 where the source writes 0.
unfoldable pub parse_int : ℕ → ℕ → Text → Option ℤ
parse_int base bits [] = none
parse_int base bits (c ∷ s) =
    if c == b'-'
    then signed_of true bits (parse_magnitude base s)
    else if c == b'+'
    then signed_of false bits (parse_magnitude base s)
    else signed_of false bits (parse_magnitude base (c ∷ s))

-- strconv.Atoi on a 64-bit machine.
unfoldable pub atoi : Text → Option ℤ
unfolding parse_int parse_magnitude signed_of
atoi s = parse_int 10 64 s

-- Whether ParseUint finds that the digits so far do not fit into 64 bits.
unfoldable pub overflows : ℕ → Text → Bool
unfolding digit
overflows n [] = false
overflows n (c ∷ s) =
    let more = λ (d : ℕ). overflows (n * 10 + d) s in
    elim (digit c) [
      | none ↦ false
      | some d ↦ if ltb d 10 then (leb (2 ^ 64) (n * 10 + d) || more d) else false
    ]

-- What Atoi returns with an error: the nearest int if the number is out of range, and 0 if it is none.
unfoldable pub clamped : Bool → Text → ℤ
unfolding overflows parse_magnitude
clamped negative s =
    let nearest = if negative then negsuc (2 ^ 63 - 1) else pos (2 ^ 63 - 1) in
    elim (parse_magnitude 10 s) [
      | some n ↦ nearest
      | none ↦ if overflows 0 s then nearest else pos 0
    ]

unfoldable pub out_of_range : Text → ℤ
unfolding clamped
out_of_range [] = pos 0
out_of_range (c ∷ s) =
    if c == b'-'
    then clamped true s
    else if c == b'+'
    then clamped false s
    else clamped false (c ∷ s)

-- What Atoi returns beside its error.
unfoldable pub atoi_value : Text → ℤ
unfolding atoi out_of_range
atoi_value s = elim (atoi s) [ some v ↦ v | none ↦ out_of_range s ]

-- strconv.ParseBool.
unfoldable pub parse_bool : Text → Option Bool
parse_bool s =
    if text_eq s (codes "1")
      || text_eq s (codes "t")
      || text_eq s (codes "T")
      || text_eq s (codes "true")
      || text_eq s (codes "TRUE")
      || text_eq s (codes "True")
    then some true
    else if text_eq s (codes "0")
        || text_eq s (codes "f")
        || text_eq s (codes "F")
        || text_eq s (codes "false")
        || text_eq s (codes "FALSE")
        || text_eq s (codes "False")
    then some false
    else none

signed_of-InInt64 :
    (negative : Bool) (n : Option ℕ) {v : ℤ} → signed_of negative 64 n ≡ some v → InInt64 v
unfolding signed_of
signed_of-InInt64 negative none h = cc
signed_of-InInt64 negative (some n) h = ground arith

-- A parsed int64 fits into an int64.
pub parse_int-InInt64 : (base : ℕ) (s : Text) {v : ℤ} → parse_int base 64 s ≡ some v → InInt64 v
unfolding parse_int
parse_int-InInt64 base [] h = cc
parse_int-InInt64 base (c ∷ s) {v} h = ground (
  arith,
  signed_of-InInt64 true (parse_magnitude base s) {v = v},
  signed_of-InInt64 false (parse_magnitude base s) {v = v},
  signed_of-InInt64 false (parse_magnitude base (c ∷ s)) {v = v},
)

tests :
    (parse_int 0 64 (codes "0x1F") ≡ some (pos 31))
    × (atoi (codes "-12") ≡ some (negsuc 11))
    × (atoi (codes "9223372036854775808") ≡ none)
    × (parse_int 0 64 (codes "1_0") ≡ some (pos 10))
    × (atoi (codes "1_0") ≡ none)
    × (parse_int 0 64 (codes "017") ≡ some (pos 15))
unfolding atoi
tests = (refl, refl, refl, refl, refl, refl)

-- strconv.Itoa of a loop counter, by fuel: `n + 1` rounds are more than n has digits.
unfoldable pub itoa_loop : ℕ → ℕ → Text → Text
itoa_loop zero n s = s
itoa_loop (suc f) n s =
    let rest = itoa_loop f (n / 10) ((b'0' + n % 10) ∷ s) in
    if ltb n 10 then (b'0' + n) ∷ s else rest

unfoldable pub itoa : ℕ → Text
unfolding itoa_loop
itoa n = itoa_loop (n + 1) n []

-- strconv.FormatInt(n, 10)
unfoldable pub format_int : ℤ → Text
unfolding itoa
format_int (pos n) = itoa n
format_int (negsuc n) = b'-' ∷ itoa (suc n)
