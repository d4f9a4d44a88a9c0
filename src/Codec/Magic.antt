-- ===== src/Codec/Magic.antt =====
-- The test of the magic bytes in ReadHeader.
use incubator_dubbo_go.Prelude.{
  false, ◌||◌, ◌==◌, if◌then◌else◌, ℕ, ◌≡◌, ◌≢◌, List, ◌∷◌, some, ◌≤◌, length, arith,
}
use incubator_dubbo_go.Codec.{DubboHeader, ProtocolCodec, illegal_package, read_header}

abbrev fresh : List ℕ → ProtocolCodec
fresh bs = record { reader = bs; pkg_type = 0; body_len = 0; header_read = false }

-- Of a header of 16 bytes or more ReadHeader says that it is illegal exactly when both magic bytes
-- are wrong: with one of them right it says what it says of the right two.
pub read_header-magic :
    (h : DubboHeader) (m n : ℕ) (bs : List ℕ)
    → 14 ≤ length bs
    → ((read_header h (fresh (m ∷ n ∷ bs))).0 ≡ (
        if (m == 0xda) || (n == 0xbb)
        then (read_header h (fresh (0xda ∷ 0xbb ∷ bs))).0
        else some illegal_package))
      × ((read_header h (fresh (0xda ∷ 0xbb ∷ bs))).0 ≢ some illegal_package)
unfolding read_header
read_header-magic h m n bs l = (ground arith, λ e. ground arith)
