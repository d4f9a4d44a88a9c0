-- ===== src/Examples/CodecRuns.antt =====
-- The header codec on small packages.
use incubator_dubbo_go.Prelude.{
  ℕ, ◌≡◌, ◌≢◌, refl, arith, false, true, ◌||◌, List, [], ◌∷◌, ◌++◌, none, some, if◌then◌else◌, ◌==◌,
}
use incubator_dubbo_go.Prelude.Int.{pos}
use incubator_dubbo_go.Protocol.{nil}
use incubator_dubbo_go.Codec.PackageType
use incubator_dubbo_go.Codec.{
  DubboPackage, ProtocolCodec, Result, ok, empty_header, put_id, put_body_len, to_u64, pack_request,
  pack_response, read_header, illegal_package,
}
use incubator_dubbo_go.Codec.RoundTrip.{read_header-pack_request_two_way, read_header-pack_response}
use incubator_dubbo_go.Codec.Magic.{read_header-magic}

abbrev package_of : ℕ → ℕ → DubboPackage
package_of t status = record {
  header = record { serial_id = 2; type = t; id = pos 7; body_len = 0; response_status = status };
  body = nil;
}

abbrev marshal_three : DubboPackage → Result (List ℕ)
marshal_three p = ok (1 ∷ 2 ∷ 3 ∷ [])

-- The 16 bytes of a header with id 7 and a body of three bytes, and the body.
abbrev bytes_of : ℕ → ℕ → List ℕ
bytes_of flags status =
    0xda ∷ 0xbb ∷ flags ∷ status ∷ 0 ∷ 0 ∷ 0 ∷ 0 ∷ 0 ∷ 0 ∷ 0 ∷ 7 ∷ 0 ∷ 0 ∷ 0 ∷ 3 ∷ 1 ∷ 2 ∷ 3 ∷ []

abbrev reader_of : List ℕ → ProtocolCodec
reader_of bs = record { reader = bs; pkg_type = 0; body_len = 0; header_read = false }

read_header-pack_request_two_way_example :
    (pack_request marshal_three (package_of PackageType.request_two_way 0) ≡ ok (bytes_of 0xc2 0))
    × (read_header empty_header (reader_of (bytes_of 0xc2 0 ++ 9 ∷ [])) ≡ (
      none,
      record { serial_id = 2; type = 0x12; id = pos 7; body_len = 3; response_status = 0 },
      record { reader = 1 ∷ 2 ∷ 3 ∷ 9 ∷ []; pkg_type = 0x12; body_len = 3; header_read = true },
    ))
unfolding put_id put_body_len to_u64
read_header-pack_request_two_way_example =
    read_header-pack_request_two_way marshal_three (package_of PackageType.request_two_way 0)
      (1 ∷ 2 ∷ 3 ∷ []) (9 ∷ []) (omega arith) (omega arith) (omega arith, omega arith) refl
      (omega arith) refl

read_header-pack_response_example :
    (pack_response marshal_three (package_of PackageType.response 40) ≡ ok (bytes_of 0x02 40))
    × (read_header empty_header (reader_of (bytes_of 0x02 40 ++ 9 ∷ [])) ≡ (
      none,
      record { serial_id = 2; type = 0x24; id = pos 7; body_len = 3; response_status = 40 },
      record { reader = 1 ∷ 2 ∷ 3 ∷ 9 ∷ []; pkg_type = 0x24; body_len = 3; header_read = true },
    ))
unfolding put_id put_body_len to_u64
read_header-pack_response_example =
    read_header-pack_response marshal_three (package_of PackageType.response 40) (1 ∷ 2 ∷ 3 ∷ [])
      (9 ∷ []) (omega arith) (omega arith) (omega arith, omega arith) refl (omega arith) refl

abbrev fourteen : List ℕ
fourteen = 0xc2 ∷ 0 ∷ 0 ∷ 0 ∷ 0 ∷ 0 ∷ 0 ∷ 0 ∷ 0 ∷ 7 ∷ 0 ∷ 0 ∷ 0 ∷ 0 ∷ []

read_header-magic_example :
    ((read_header empty_header (reader_of (0xda ∷ 1 ∷ fourteen))).0 ≡ (
      if (0xda == 0xda) || (1 == 0xbb)
      then (read_header empty_header (reader_of (0xda ∷ 0xbb ∷ fourteen))).0
      else some illegal_package))
    × ((read_header empty_header (reader_of (0xda ∷ 0xbb ∷ fourteen))).0 ≢ some illegal_package)
read_header-magic_example = read_header-magic empty_header 0xda 1 fourteen (omega arith)
