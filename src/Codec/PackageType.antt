-- ===== src/Codec/PackageType.antt =====
-- The bits of PackageType, protocol/dubbo/impl/package.go.
use incubator_dubbo_go.Prelude.{ℕ}

abbrev pub request : ℕ
request = 0x02

abbrev pub response : ℕ
response = 0x04

abbrev pub heartbeat : ℕ
heartbeat = 0x08

abbrev pub request_two_way : ℕ
request_two_way = 0x10

abbrev pub response_exception : ℕ
response_exception = 0x20
