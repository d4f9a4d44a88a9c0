-- ===== src/Tps.antt =====
-- filter/tps/strategy: the fixed and the sliding window. Times are in nanoseconds, of time.Now.
pub mod Fixed
pub mod Sliding
pub mod Limiter
use incubator_dubbo_go.Prelude.{
  ℕ, ◌+◌, ◌≡◌, Bool, true, false, List, [], ◌∷◌, ◌++◌, Option, none, some, if◌then◌else◌, length,
}
use incubator_dubbo_go.Prelude.Int.{ℤ, pos, negsuc, ◌+ℤ◌, ◌-ℤ◌, ◌*ℤ◌, ltb_ℤ, leb_ℤ, wrap32, wrap64}

pub record FixedWindow : Type 0 where
  pub rate : ℤ  -- int32
  pub interval : ℤ
  pub count : ℤ  -- int32
  pub timestamp : ℤ

-- Create: the interval comes in milliseconds.
unfoldable pub create_fixed : ℤ → ℤ → ℤ → FixedWindow
create_fixed now rate interval = record {
  rate = wrap32 rate;
  interval = wrap64 (interval *ℤ pos 1_000_000);
  count = pos 0;
  timestamp = now;
}

-- A new window begins when the last one is over.
unfoldable pub roll : ℤ → FixedWindow → FixedWindow
roll current w =
    if ltb_ℤ (wrap64 (w.timestamp +ℤ w.interval)) current
    then record w { timestamp = current; count = pos 0 }
    else w

unfoldable pub count_one : FixedWindow → Bool × FixedWindow
count_one w = let n = wrap32 (w.count +ℤ pos 1) in (leb_ℤ n w.rate, record w { count = n })

-- IsAllowable.
unfoldable pub fixed_allowable : ℤ → FixedWindow → Bool × FixedWindow
unfolding roll count_one
fixed_allowable current w = count_one (roll current w)

-- `queue` has the oldest time first.
pub record SlidingWindow : Type 0 where
  pub rate : ℤ
  pub interval : ℤ
  pub queue : List ℤ

unfoldable pub create_sliding : ℤ → ℤ → SlidingWindow
create_sliding rate interval = record {
  rate = rate;
  interval = wrap64 (interval *ℤ pos 1_000_000);
  queue = [];
}

-- The loop that drops what is older than the boundary from the front.
unfoldable pub evict : ℤ → List ℤ → List ℤ
evict boundary [] = []
evict boundary (t ∷ ts) = let rest = evict boundary ts in if ltb_ℤ t boundary then rest else t ∷ ts

-- IsAllowable.
unfoldable pub sliding_allowable : ℤ → SlidingWindow → Bool × SlidingWindow
unfolding evict
sliding_allowable current w =
    if ltb_ℤ (pos (length w.queue)) w.rate
    then (true, record w { queue = w.queue ++ current ∷ [] })
    else let q = evict (wrap64 (current -ℤ w.interval)) w.queue in
      if ltb_ℤ (pos (length q)) w.rate
      then (true, record w { queue = q ++ current ∷ [] })
      else (false, record w { queue = q })
