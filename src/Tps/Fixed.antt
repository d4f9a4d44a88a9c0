-- ===== src/Tps/Fixed.antt =====
-- The fixed window: how many requests of a window it lets through.
use incubator_dubbo_go.Prelude.{
  ℕ, suc, ◌+◌, ◌-◌, ◌^◌, ◌<◌, ◌≡◌, refl, false, List, [], ◌∷◌, if◌then◌else◌, length, arith, leb,
  All,
}
use incubator_dubbo_go.Prelude.Int.{ℤ, pos, ◌+ℤ◌, ltb_ℤ, wrap32, wrap64}
use incubator_dubbo_go.Tps.{FixedWindow, roll, count_one, fixed_allowable}

-- How many of the requests at these times are allowed, one after the other.
unfoldable pub allowed : List ℤ → FixedWindow → ℕ
allowed [] w = 0
allowed (t ∷ ts) w =
    let (a, w') = fixed_allowable t w in let rest = allowed ts w' in if a then suc rest else rest

-- The time lies in the window that has begun.
abbrev pub InWindow : FixedWindow → ℤ → Type 0
InWindow w t = ltb_ℤ (wrap64 (w.timestamp +ℤ w.interval)) t ≡ false

roll-InWindow : (t : ℤ) (w : FixedWindow) → InWindow w t → roll t w ≡ w
unfolding roll
roll-InWindow t w h = rw h refl

wrap32_suc : (n : ℕ) → n + 1 < 2 ^ 31 → wrap32 (pos n +ℤ pos 1) ≡ pos (n + 1)
unfolding wrap32 ◌+ℤ◌
wrap32_suc n h = ground arith

fixed_allowable-count :
    (t : ℤ) (w : FixedWindow) (n r : ℕ)
    → w.count ≡ pos n
    → w.rate ≡ pos r
    → n + 1 < 2 ^ 31
    → InWindow w t
    → fixed_allowable t w ≡ (leb (n + 1) r, record w { count = pos (n + 1) })
unfolding fixed_allowable count_one
fixed_allowable-count t w n r hn hr fits h =
    rw (roll-InWindow t w h, hn, wrap32_suc n fits, hr) (ground arith)

-- Of the requests in one window a fixed window of rate `r` that has counted `n` so far lets the
-- first through, up to the rate, and rejects the others. The count must not pass an int32.
pub allowed-count :
    (ts : List ℤ) (w : FixedWindow) (n r : ℕ)
    → w.count ≡ pos n
    → w.rate ≡ pos r
    → n + length ts < 2 ^ 31
    → All (InWindow w) ts
    → allowed ts w ≡ (if leb (n + length ts) r then length ts else r - n)
unfolding allowed
allowed-count [] w n r hn hr fits a = ground arith
allowed-count (t ∷ ts) w n r hn hr fits a =
    rw (fixed_allowable-count t w n r hn hr (omega arith) a.0) (
      ground (
        arith,
        allowed-count ts (record w { count = pos (n + 1) }) (n + 1) r refl hr (omega arith) a.1,
      ))
