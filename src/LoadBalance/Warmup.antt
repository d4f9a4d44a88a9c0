-- ===== src/LoadBalance/Warmup.antt =====
-- The weight of a provider while it warms up.
use incubator_dubbo_go.Prelude.{ℕ, ◌<◌, ◌≡◌, refl, true, arith, codes}
use incubator_dubbo_go.Prelude.Int.{ℤ, pos, ◌-ℤ◌, ltb_ℤ, wrap64}
use native.Mathlib.Nat.{mul-le-mul_left}
use incubator_dubbo_go.Url.{Url, get_param_int}
use incubator_dubbo_go.LoadBalance.{warm_weight, warmed_up}

positive : (n : ℕ) → 0 < n → ltb_ℤ (pos 0) (pos n) ≡ true
positive n h = ground arith

below : (m n : ℕ) → m < n → ltb_ℤ (pos m) (pos n) ≡ true
below m n h = ground arith

warm_weight_one :
    (uptime warmup weight : ℕ) → uptime < warmup → 0 < weight → warm_weight uptime warmup weight ≡ 1
unfolding warm_weight
warm_weight_one uptime warmup weight h w =
    ground (arith, mul-le-mul_left {m = 1} {n = weight} warmup (omega arith))

-- As long as a provider warms up, GetWeight's weight is 1, however long it has been up.
pub warmed_up_one :
    (now : ℤ) (u : Url) (weight uptime warmup : ℕ)
    → wrap64 (now -ℤ get_param_int u (codes "remote.timestamp") now) ≡ pos uptime
    → get_param_int u (codes "warmup") (pos 600) ≡ pos warmup
    → 0 < weight
    → 0 < uptime
    → uptime < warmup
    → warmed_up now u (pos weight) ≡ pos 1
unfolding warmed_up
warmed_up_one now u weight uptime warmup eu ew hw hu h =
    rw
      (
        eu,
        ew,
        positive weight hw,
        positive uptime hu,
        below uptime warmup h,
        warm_weight_one uptime warmup weight h hw,
      )
      refl
