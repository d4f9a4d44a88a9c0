-- ===== src/Codec/RoundTrip.antt =====
-- ReadHeader reads back what packRequest and packResponse write.
use incubator_dubbo_go.Prelude.{
  ℕ, ◌<◌, ◌≤◌, ◌≡◌, refl, true, false, List, [], ◌∷◌, ◌++◌, if◌then◌else◌, length, ◌==◌, arith,
}
use incubator_dubbo_go.Prelude.Int.{InInt64}
use incubator_dubbo_go.Codec.PackageType
use incubator_dubbo_go.Codec.{
  empty_header, DubboPackage, Result, ok, to_u64, max_len, read_header, pack_request, pack_response,
}
use incubator_dubbo_go.Codec.Written.{
  passed, flags_with, fresh_codec, written, read_written, received, two_way_table, one_way_table,
  heartbeat_table, response_table,
}

module _ (marshal : DubboPackage → Result (List ℕ)) (p : DubboPackage) (body rest : List ℕ)
    (serial_lo : 0 < p.header.serial_id) (serial_hi : p.header.serial_id < 32)
    (id_fits : InInt64 p.header.id) (marshalled : marshal p ≡ ok body)
    (fits : length body ≤ max_len) where
  open p use {header.{serial_id, id}}

  abbrev two_way_bytes : List ℕ
  two_way_bytes = written (flags_with 0xc0 serial_id) 0 (to_u64 id) (length body) ++ body

  -- A two-way request that packRequest has written, with more bytes behind it, is read back with
  -- its serial id, id and body length, as a request that wants an answer, and the body is left.
  pub read_header-pack_request_two_way :
      p.header.type ≡ PackageType.request_two_way
      → (pack_request marshal p ≡ ok two_way_bytes)
        × (read_header empty_header (fresh_codec (two_way_bytes ++ rest))
            ≡ received
                (record {
                  serial_id = serial_id;
                  type = 0x12;
                  id = id;
                  body_len = length body;
                  response_status = 0;
                })
                (body ++ rest))
  unfolding pack_request
  read_header-pack_request_two_way t = (
    ground arith,
    read_written 0xc0 serial_id 0 0x12 false true true id body rest
        (passed _ 32 serial_id serial_hi two_way_table) serial_lo id_fits (omega arith) refl,
  )

  abbrev one_way_bytes : List ℕ
  one_way_bytes = written (flags_with 0x80 serial_id) 0 (to_u64 id) (length body) ++ body

  -- The same of a one-way request.
  pub read_header-pack_request_one_way :
      p.header.type ≡ PackageType.request
      → (pack_request marshal p ≡ ok one_way_bytes)
        × (read_header empty_header (fresh_codec (one_way_bytes ++ rest))
            ≡ received
                (record {
                  serial_id = serial_id;
                  type = 0x02;
                  id = id;
                  body_len = length body;
                  response_status = 0;
                })
                (body ++ rest))
  unfolding pack_request
  read_header-pack_request_one_way t = (
    ground arith,
    read_written 0x80 serial_id 0 0x02 false true false id body rest
        (passed _ 32 serial_id serial_hi one_way_table) serial_lo id_fits (omega arith) refl,
  )

  -- The status that is written: 20, which is OK, where the header has none.
  abbrev sent_status : ℕ
  sent_status = if p.header.response_status == 0 then 20 else p.header.response_status

  abbrev response_bytes : List ℕ
  response_bytes = written (flags_with 0 serial_id) sent_status (to_u64 id) (length body) ++ body

  -- A response that packResponse has written is read back with its serial id, id, body length and
  -- status; it carries the exception bit exactly when the status is not OK.
  pub read_header-pack_response :
      p.header.type ≡ PackageType.response
      → (pack_response marshal p ≡ ok response_bytes)
        × (read_header empty_header (fresh_codec (response_bytes ++ rest))
            ≡ received
                (record {
                  serial_id = serial_id;
                  type = if sent_status == 20 then 0x04 else 0x24;
                  id = id;
                  body_len = length body;
                  response_status = sent_status;
                })
                (body ++ rest))
  unfolding pack_response
  read_header-pack_response t = (
    ground arith,
    read_written 0 serial_id sent_status _ false false false id body rest
        (passed _ 32 serial_id serial_hi response_table) serial_lo id_fits (omega arith)
        (ground arith),
  )

-- A heartbeat that packRequest has written is read back with its serial id and id, as a two-way
-- request with the heartbeat bit, and its one byte of a body is left; nothing is marshalled.
pub read_header-pack_request-heartbeat :
    (marshal : DubboPackage → Result (List ℕ)) (p : DubboPackage) (rest : List ℕ)
    → 0 < p.header.serial_id
    → p.header.serial_id < 32
    → InInt64 p.header.id
    → p.header.type ≡ PackageType.heartbeat
    → (pack_request marshal p
        ≡ ok (written (flags_with 0xe0 p.header.serial_id) 0 (to_u64 p.header.id) 1 ++ b'N' ∷ []))
      × (read_header empty_header (
            fresh_codec (
              (written (flags_with 0xe0 p.header.serial_id) 0 (to_u64 p.header.id) 1 ++ b'N' ∷ [])
              ++ rest))
          ≡ received
              (record {
                serial_id = p.header.serial_id;
                type = 0x1a;
                id = p.header.id;
                body_len = 1;
                response_status = 0;
              })
              (b'N' ∷ rest))
unfolding pack_request
read_header-pack_request-heartbeat marshal p rest lo hi id_fits t = (
  ground arith,
  read_written 0xe0 p.header.serial_id 0 0x1a true true true p.header.id (b'N' ∷ []) rest
      (passed _ 32 p.header.serial_id hi heartbeat_table) lo id_fits (omega arith) refl,
)
