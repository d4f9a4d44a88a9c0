-- ===== src/Codec.antt =====
-- protocol/dubbo/impl: the header of the dubbo protocol, written by packRequest and packResponse
-- and read by ReadHeader. A byte is a number below 256.
pub mod PackageType
pub mod Written
pub mod RoundTrip
pub mod Magic
use Prim.Native.Nat.{bit_and, bit_or}
use incubator_dubbo_go.Prelude.{
  ℕ, zero, suc, ◌+◌, ◌-◌, ◌*◌, ◌/◌, ◌%◌, ◌^◌, Bool, true, false, not, ◌&&◌, ◌||◌, List, [], ◌∷◌,
  ◌++◌, Option, none, some, if◌then◌else◌, length, get_or, set, drop, ◌==◌, ltb, leb,
}
use incubator_dubbo_go.Prelude.Int.{ℤ, pos, negsuc, signed64}
use incubator_dubbo_go.Protocol.{Any, Outcome, done, panic}

pub record DubboHeader : Type 0 where
  pub serial_id : ℕ  -- byte
  pub type : ℕ  -- PackageType
  pub id : ℤ  -- int64
  pub body_len : ℕ
  pub response_status : ℕ  -- byte

abbrev pub empty_header : DubboHeader
empty_header = record { serial_id = 0; type = 0; id = pos 0; body_len = 0; response_status = 0 }

pub record DubboPackage : Type 0 where
  pub header : DubboHeader
  pub body : Any

abbrev pub has_bits : ℕ → ℕ → Bool
has_bits x mask = not (bit_and x mask == 0)

unfoldable pub is_heart_beat : DubboPackage → Bool
is_heart_beat p = has_bits p.header.type PackageType.heartbeat

unfoldable pub is_request : DubboPackage → Bool
is_request p = has_bits p.header.type 0x12

unfoldable pub is_response : DubboPackage → Bool
is_response p = p.header.type == PackageType.response

unfoldable pub is_response_with_exception : DubboPackage → Bool
is_response_with_exception p = bit_and p.header.type 0x24 == 0x24

pub data CodecError : Type 0 where
  header_not_enough illegal_package no_serialization_id body_not_enough : CodecError
  nil_serializer data_too_large unrecognized_type : CodecError
  marshal_failed unmarshal_failed java_decode_failed : CodecError

pub data Result {ℓ} (A : Type ℓ) : Type ℓ where
  ok : A → Result A
  err : CodecError → Result A

-- uint64(id) of an int64.
unfoldable pub to_u64 : ℤ → ℕ
to_u64 (pos n) = n % 2 ^ 64
to_u64 (negsuc n) = 2 ^ 64 - 1 - n % 2 ^ 64

-- binary.BigEndian.PutUint64 at bs[4:].
unfoldable pub put_id : List ℕ → ℕ → List ℕ
put_id bs v =
    set
      (set
        (set
          (set
            (set (set (set (set bs 4 (v / 2 ^ 56 % 256)) 5 (v / 2 ^ 48 % 256)) 6 (v / 2 ^ 40 % 256))
              7 (v / 2 ^ 32 % 256))
            8 (v / 2 ^ 24 % 256))
          9 (v / 2 ^ 16 % 256))
        10 (v / 2 ^ 8 % 256))
      11 (v % 256)

-- binary.BigEndian.PutUint32 at bs[12:], of a length.
unfoldable pub put_body_len : List ℕ → ℕ → List ℕ
put_body_len bs n =
    set (set (set (set bs 12 (n / 2 ^ 24 % 256)) 13 (n / 2 ^ 16 % 256)) 14 (n / 2 ^ 8 % 256)) 15
      (n % 256)

abbrev at : List ℕ → ℕ → ℕ
at bs i = get_or bs i 0

unfoldable pub read_u64 : List ℕ → ℕ
read_u64 bs =
    at bs 4 * 2 ^ 56
    + at bs 5 * 2 ^ 48
    + at bs 6 * 2 ^ 40
    + at bs 7 * 2 ^ 32
    + at bs 8 * 2 ^ 24
    + at bs 9 * 2 ^ 16
    + at bs 10 * 2 ^ 8
    + at bs 11

unfoldable pub read_u32 : List ℕ → ℕ
read_u32 bs = at bs 12 * 2 ^ 24 + at bs 13 * 2 ^ 16 + at bs 14 * 2 ^ 8 + at bs 15

-- A header of 16 bytes with these flags and this status, and zeros.
abbrev pub header_bytes : ℕ → ℕ → List ℕ
header_bytes flags status =
    0xda ∷ 0xbb ∷ flags ∷ status ∷ 0 ∷ 0 ∷ 0 ∷ 0 ∷ 0 ∷ 0 ∷ 0 ∷ 0 ∷ 0 ∷ 0 ∷ 0 ∷ 0 ∷ []

-- `bs[2] |= header.SerialID & SERIAL_MASK`
unfoldable pub put_serial : List ℕ → ℕ → List ℕ
put_serial bs serial = set bs 2 (bit_or (at bs 2) (bit_and serial 0x1f))

abbrev pub max_len : ℕ
max_len = 8388608

-- ProtocolCodec. `reader` holds the bytes that are buffered and not read.
pub record ProtocolCodec : Type 0 where
  pub reader : List ℕ
  pub pkg_type : ℕ
  pub body_len : ℕ
  pub header_read : Bool

-- The flags of ReadHeader: the type bits, and the status of a response.
unfoldable pub read_flags : ℕ → ℕ → DubboHeader → DubboHeader
read_flags flags status h =
    let t = if has_bits flags 0x20 then bit_or h.type PackageType.heartbeat else h.type in
    let t' = bit_or t (if has_bits flags 0x80 then PackageType.request else PackageType.response) in
    if has_bits flags 0x80
    then record h {
      type = if has_bits flags 0x40 then bit_or t' PackageType.request_two_way else t';
    }
    else record h {
      type = if status == 20 then t' else bit_or t' PackageType.response_exception;
      response_status = status;
    }

-- What follows the flags.
unfoldable pub read_lengths : List ℕ → DubboHeader → DubboHeader
unfolding read_u64 read_u32
read_lengths bs h = record h { id = signed64 (read_u64 bs); body_len = read_u32 bs }

-- ReadHeader: an error or none, with the header and the codec as they are left. bufio's buffers
-- hold 16 bytes at least, so its first test does not fire; Peek fails where there are fewer.
unfoldable pub read_header :
    DubboHeader → ProtocolCodec → Option CodecError × DubboHeader × ProtocolCodec
unfolding read_flags read_lengths
read_header h c =
    if ltb (length c.reader) 16
    then (some header_not_enough, h, c)
    else let bs = c.reader in
      let c' = record c { reader = drop 16 bs } in
      if not (at bs 0 == 0xda) && not (at bs 1 == 0xbb)
      then (some illegal_package, h, c')
      else let serial = bit_and (at bs 2) 0x1f in
        let h' = record h { serial_id = serial } in
        if serial == 0
        then (some no_serialization_id, h', c')
        else let h'' = read_lengths bs (read_flags (at bs 2) (at bs 3) h') in
          let c'' = record c' { pkg_type = h''.type; body_len = h''.body_len } in
          if ltb (length c''.reader) h''.body_len
          then (some body_not_enough, h'', c'')
          else (none, h'', record c'' { header_read = true })

module _ (marshal : DubboPackage → Result (List ℕ)) where
  abbrev sized : (List ℕ → List ℕ) → Result (List ℕ) → Result (List ℕ)
  sized f (err e) = err e
  sized f (ok body) = if ltb max_len (length body) then err data_too_large else ok (f body)

  unfoldable pub request_header : ℕ → List ℕ
  request_header t =
      if t == PackageType.heartbeat
      then header_bytes 0xe0 0
      else if t == PackageType.request_two_way
      then header_bytes 0xc0 0
      else header_bytes 0x80 0

  unfoldable pub pack_request : DubboPackage → Result (List ℕ)
  unfolding request_header put_serial put_id put_body_len is_heart_beat to_u64
  pack_request p =
      let h = p.header in
      let bs = put_id (put_serial (request_header h.type) h.serial_id) (to_u64 h.id) in
      if is_heart_beat p
      then ok (put_body_len bs 1 ++ b'N' ∷ [])
      else sized (λ body. put_body_len bs (length body) ++ body) (marshal p)

  -- `if header.ResponseStatus != 0 { byteArray[3] = header.ResponseStatus }`
  unfoldable pub put_status : List ℕ → ℕ → List ℕ
  put_status bs status = if status == 0 then bs else set bs 3 status

  unfoldable pub pack_response : DubboPackage → Result (List ℕ)
  unfolding put_serial put_status put_id put_body_len is_heart_beat to_u64
  pack_response p =
      let h = p.header in
      let start = if is_heart_beat p then header_bytes 0x20 0 else header_bytes 0 20 in
      let bs = put_id (put_status (put_serial start h.serial_id) h.response_status) (to_u64 h.id) in
      sized (λ body. put_body_len bs (length body) ++ body) (marshal p)

  -- Encode; `serialized` says that the codec has a serializer.
  unfoldable pub encode : Bool → DubboPackage → Result (List ℕ)
  unfolding pack_request pack_response
  encode serialized p =
      let h = p.header in
      if not serialized
      then err nil_serializer
      else if h.type == PackageType.heartbeat
      then (if h.response_status == 0 then pack_request p else pack_response p)
      else if h.type == PackageType.request || h.type == PackageType.request_two_way
      then pack_request p
      else if h.type == PackageType.response
      then pack_response p
      else err unrecognized_type
