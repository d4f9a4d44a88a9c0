-- ===== src/Codec/Written.antt =====
-- A header as packRequest and packResponse write it, and what ReadHeader reads from it.
use Prim.Native.Nat.{bit_and, bit_or}
use incubator_dubbo_go.Prelude.{
  ℕ, zero, suc, ◌+◌, ◌*◌, ◌/◌, ◌%◌, ◌^◌, ◌<◌, ◌≤◌, ◌≡◌, ◌≢◌, refl, ◌∙◌, ap, Bool, true, false, not,
  ◌&&◌, List, [], ◌∷◌, ◌++◌, Option, none, if◌then◌else◌, length, ◌==◌, arith,
}
use incubator_dubbo_go.Prelude.Int.{ℤ, pos, negsuc, signed64, InInt64}
use incubator_dubbo_go.Codec.{
  DubboHeader, empty_header, ProtocolCodec, to_u64, put_id, put_body_len, header_bytes, CodecError,
  read_flags, read_lengths, read_header, has_bits,
}

-- A test passes on each number under a bound.
pub holds_under : (ℕ → Bool) → ℕ → Bool
holds_under test zero = true
holds_under test (suc top) = holds_under test top && test top

pub passed : (test : ℕ → Bool) (top s : ℕ) → s < top → holds_under test top ≡ true → test s ≡ true
unfolding holds_under
passed test zero s under all = absurd (omega (arith, under))
passed test (suc top) s under all = ground (arith, passed test top s)

-- The flag byte with a serial id in it, for the start of a header.
abbrev pub flags_with : ℕ → ℕ → ℕ
flags_with start serial = bit_or start (bit_and serial 0x1f)

-- An id goes through its eight bytes.
id_bytes : (id : ℤ) → InInt64 id → signed64 (to_u64 id) ≡ id
unfolding to_u64
id_bytes (pos n) h = ground arith
id_bytes (negsuc n) h = ground arith

u64_bytes :
    (v : ℕ)
    → v < 2 ^ 64
    → v / 2 ^ 56 % 256 * 2 ^ 56
        + v / 2 ^ 48 % 256 * 2 ^ 48
        + v / 2 ^ 40 % 256 * 2 ^ 40
        + v / 2 ^ 32 % 256 * 2 ^ 32
        + v / 2 ^ 24 % 256 * 2 ^ 24
        + v / 2 ^ 16 % 256 * 2 ^ 16
        + v / 2 ^ 8 % 256 * 2 ^ 8
        + v % 256
      ≡ v
u64_bytes v h = omega arith

u32_bytes :
    (v : ℕ)
    → v < 2 ^ 32
    → v / 2 ^ 24 % 256 * 2 ^ 24 + v / 2 ^ 16 % 256 * 2 ^ 16 + v / 2 ^ 8 % 256 * 2 ^ 8 + v % 256 ≡ v
u32_bytes v h = omega arith

to_u64-lt : (id : ℤ) → to_u64 id < 2 ^ 64
unfolding to_u64
to_u64-lt (pos n) = omega arith
to_u64-lt (negsuc n) = omega arith

abbrev pub fresh_codec : List ℕ → ProtocolCodec
fresh_codec bs = record { reader = bs; pkg_type = 0; body_len = 0; header_read = false }

-- A header as it is written, with its flags, status, id and body length.
abbrev pub written : ℕ → ℕ → ℕ → ℕ → List ℕ
written f st v n = put_body_len (put_id (header_bytes f st) v) n

abbrev header_read_back : DubboHeader → ℕ → ℕ → ℕ → ℕ → DubboHeader
header_read_back h f st v n = record (read_flags f st (record h { serial_id = bit_and f 0x1f })) {
  id = signed64 v;
  body_len = n;
}

length-append_le : (xs ys : List ℕ) → length xs ≤ length (xs ++ ys)
length-append_le [] ys = omega arith
length-append_le (x ∷ xs) ys = omega (arith, length-append_le xs ys)

read_header_lem :
    (h : DubboHeader) (f st v n : ℕ) (body rest : List ℕ)
    → v < 2 ^ 64
    → n < 2 ^ 32
    → length body ≡ n
    → bit_and f 0x1f ≢ 0
    → read_header h (fresh_codec (written f st v n ++ (body ++ rest))) ≡ (
      none,
      header_read_back h f st v n,
      record {
        reader = body ++ rest;
        pkg_type = (header_read_back h f st v n).type;
        body_len = n;
        header_read = true;
      },
    )
unfolding read_header put_id put_body_len read_lengths
read_header_lem h f st v n body rest hv hn hl hf =
    ground (arith, u64_bytes v hv, u32_bytes n hn, length-append_le body rest)

abbrev iff : Bool → Bool → Bool
iff true b = b
iff false b = not b

-- What the flag byte says, for a start byte and every serial id.
pub flag_facts : ℕ → Bool → Bool → Bool → ℕ → Bool
flag_facts start event request two_way s =
    let f = flags_with start s in
    bit_and f 0x1f == s
    && (iff (has_bits f 0x20) event
        && (iff (has_bits f 0x80) request && iff (has_bits f 0x40) two_way))

pub two_way_table : holds_under (flag_facts 0xc0 false true true) 32 ≡ true
unfolding holds_under flag_facts
two_way_table = refl

pub heartbeat_table : holds_under (flag_facts 0xe0 true true true) 32 ≡ true
unfolding holds_under flag_facts
heartbeat_table = refl

pub one_way_table : holds_under (flag_facts 0x80 false true false) 32 ≡ true
unfolding holds_under flag_facts
one_way_table = refl

pub response_table : holds_under (flag_facts 0 false false false) 32 ≡ true
unfolding holds_under flag_facts
response_table = refl

pong_table : holds_under (flag_facts 0x20 true false false) 32 ≡ true
unfolding holds_under flag_facts
pong_table = refl

-- The type bits of ReadHeader, from the flags and the status.
abbrev read_flags_type : Bool → Bool → Bool → ℕ → ℕ
read_flags_type event request two_way st =
    (if event then 0x08 else 0)
    + (if request
        then 0x02 + (if two_way then 0x10 else 0)
        else 0x04 + (if st == 20 then 0 else 0x20))

-- The header that is read, once the flags and the id are known.
read_back :
    (start s st t : ℕ) (event request two_way : Bool) (id : ℤ) (n : ℕ)
    → flag_facts start event request two_way s ≡ true
    → InInt64 id
    → (read_flags_type event request two_way st ≡ t)
    → header_read_back empty_header (flags_with start s) st (to_u64 id) n ≡ record {
      serial_id = s;
      type = t;
      id = id;
      body_len = n;
      response_status = if request then 0 else st;
    }
unfolding flag_facts read_flags
read_back start s st t true true true id n hf hid ht = ground (arith, id_bytes id hid)
read_back start s st t true true false id n hf hid ht = ground (arith, id_bytes id hid)
read_back start s st t true false two_way id n hf hid ht = ground (arith, id_bytes id hid)
read_back start s st t false true true id n hf hid ht = ground (arith, id_bytes id hid)
read_back start s st t false true false id n hf hid ht = ground (arith, id_bytes id hid)
read_back start s st t false false two_way id n hf hid ht = ground (arith, id_bytes id hid)

-- What a reader of a written package is left with.
abbrev pub received : DubboHeader → List ℕ → Option CodecError × DubboHeader × ProtocolCodec
received h unread = (
  none,
  h,
  record { reader = unread; pkg_type = h.type; body_len = h.body_len; header_read = true },
)

pub read_written :
    (start s st t : ℕ) (event request two_way : Bool) (id : ℤ) (body rest : List ℕ)
    → flag_facts start event request two_way s ≡ true
    → 0 < s
    → InInt64 id
    → length body < 2 ^ 32
    → (read_flags_type event request two_way st ≡ t)
    → read_header empty_header
        (fresh_codec (written (flags_with start s) st (to_u64 id) (length body) ++ (body ++ rest)))
      ≡ received
          (record {
            serial_id = s;
            type = t;
            id = id;
            body_len = length body;
            response_status = if request then 0 else st;
          })
          (body ++ rest)
unfolding flag_facts
read_written start s st t event request two_way id body rest hf hs hid hl ht =
    read_header_lem empty_header (flags_with start s) st (to_u64 id) (length body) body rest
      (to_u64-lt id) hl refl (ground arith)
    ∙ ap (λ h. received h (body ++ rest))
        (read_back start s st t event request two_way id (length body) hf hid ht)
