-- ===== src/Tps/Sliding/History.antt =====
-- filter/tps/strategy/sliding_window.go: the answers of a sliding window to a sequence of requests,
-- from what it has let through.
use incubator_dubbo_go.Prelude.{
  ℕ, ◌*◌, ◌^◌, ◌<◌, ◌≤◌, ◌≡◌, refl, sym, ap, subst, ◌∙◌, Bool, List, [], ◌∷◌, arith,
}
use incubator_dubbo_go.Prelude.Int.{ℤ, pos, ◌-ℤ◌, ◌*ℤ◌, ◌≤ℤ◌, ltb_ℤ, InInt64, wrap64, wrap64_fits}
use incubator_dubbo_go.Tps.{SlidingWindow, create_sliding, sliding_allowable}
use incubator_dubbo_go.Tps.Sliding.{
  recent, IsWindow, with_time, sliding_allowable-recent, sliding_allowable-IsWindow,
  recent-sliding_allowable, recent-with_time, sliding_allowable-same,
}

-- The answers to requests at these times, one after the other.
unfoldable pub window_answers : List ℕ → SlidingWindow → List Bool
window_answers [] w = []
window_answers (t ∷ ts) w =
    (sliding_allowable (pos t) w).0 ∷ window_answers ts (sliding_allowable (pos t) w).1

-- The same from the whole history of the requests that were let through: fewer than `rate` of them
-- lie in the interval that ends now.
abbrev pub history_allows : ℤ → ℕ → ℕ → List ℤ → Bool
history_allows rate interval t past = ltb_ℤ (pos (recent (pos t -ℤ pos interval) past)) rate

abbrev pub history_answers : ℤ → ℕ → List ℕ → List ℤ → List Bool
history_answers rate interval [] past = []
history_answers rate interval (t ∷ ts) past =
    history_allows rate interval t past
    ∷ history_answers rate interval ts
        (with_time (history_allows rate interval t past) (pos t) past)

-- Times that do not go back and fit an int64.
abbrev pub Onward : ℕ → List ℕ → Type 0
Onward last [] = Unit
Onward last (t ∷ ts) = (last ≤ t) × (t < 2 ^ 63) × Onward t ts

-- The queue has as many recent times as the history, at all boundaries that may still come.
record Tracks (rate : ℤ) (interval last : ℕ) (w : SlidingWindow) (past : List ℤ) : Type 0 where
  same_rate : w.rate ≡ rate
  same_interval : w.interval ≡ pos interval
  is_window : IsWindow (pos last) w
  agree : (b : ℤ) → pos last -ℤ pos interval ≤ℤ b → recent b w.queue ≡ recent b past

module _ (rate : ℤ) (interval : ℕ) (small : interval < 2 ^ 63) where
  boundary-InInt64 : (t : ℕ) → t < 2 ^ 63 → InInt64 (pos t -ℤ pos interval)
  unfolding ◌-ℤ◌
  boundary-InInt64 t h = ground (arith, small, h)

  boundary_fits :
      (t : ℕ) (w : SlidingWindow)
      → t < 2 ^ 63
      → w.interval ≡ pos interval
      → wrap64 (pos t -ℤ w.interval) ≡ pos t -ℤ pos interval
  boundary_fits t w h e = rw e (wrap64_fits (pos t -ℤ pos interval) (boundary-InInt64 t h))

  later_boundary : (last t : ℕ) → last ≤ t → pos last -ℤ pos interval ≤ℤ pos t -ℤ pos interval
  unfolding ◌-ℤ◌
  later_boundary last t h = ground (arith, h)

  Tracks-answer :
      (last t : ℕ) (w : SlidingWindow) (past : List ℤ)
      → Tracks rate interval last w past
      → last ≤ t
      → t < 2 ^ 63
      → (sliding_allowable (pos t) w).0 ≡ history_allows rate interval t past
  Tracks-answer last t w past k l h =
      sliding_allowable-recent (pos last) (pos t) w k.is_window
      ∙ ap (λ b. ltb_ℤ (pos (recent b w.queue)) w.rate) (boundary_fits t w h k.same_interval)
      ∙ ap (λ n. ltb_ℤ (pos n) w.rate) (k.agree (pos t -ℤ pos interval) (later_boundary last t l))
      ∙ ap (λ r. ltb_ℤ (pos (recent (pos t -ℤ pos interval) past)) r) k.same_rate

  Tracks-next :
      (last t : ℕ) (w : SlidingWindow) (past : List ℤ)
      → Tracks rate interval last w past
      → last ≤ t
      → t < 2 ^ 63
      → Tracks rate interval t
          (sliding_allowable (pos t) w).1
          (with_time (sliding_allowable (pos t) w).0 (pos t) past)
  Tracks-next last t w past k l h = record {
    same_rate = (sliding_allowable-same (pos t) w).0 ∙ k.same_rate;
    same_interval = (sliding_allowable-same (pos t) w).1 ∙ k.same_interval;
    is_window = sliding_allowable-IsWindow (pos last) (pos t) w (omega (arith, l)) k.is_window;
    agree = λ b le.
        recent-sliding_allowable b (pos t) w
          (subst (λ c. c ≤ℤ b) (sym (boundary_fits t w h k.same_interval)) le)
        ∙ recent-with_time b (pos t) (sliding_allowable (pos t) w).0 w.queue past
            (k.agree b (omega (arith, later_boundary last t l, le)));
  }

  Tracks-answers :
      (ts : List ℕ) (last : ℕ) (w : SlidingWindow) (past : List ℤ)
      → Tracks rate interval last w past
      → Onward last ts
      → window_answers ts w ≡ history_answers rate interval ts past
  unfolding window_answers
  Tracks-answers [] last w past k o = refl
  Tracks-answers (t ∷ ts) last w past k (l, h, o) =
      let a = Tracks-answer last t w past k l h in
      rw (sym a) (
        ap (λ more. (sliding_allowable (pos t) w).0 ∷ more)
          (Tracks-answers ts t (sliding_allowable (pos t) w).1 _ (Tracks-next last t w past k l h)
            o))

interval_fits :
    (n : ℕ) → n * 1_000_000 < 2 ^ 63 → wrap64 (pos n *ℤ pos 1_000_000) ≡ pos (n * 1_000_000)
unfolding ◌*ℤ◌
interval_fits n h =
    let e : pos n *ℤ pos 1_000_000 ≡ pos (n * 1_000_000) = ground arith in
    rw e (wrap64_fits (pos (n * 1_000_000)) (omega (arith, h)))

-- A new sliding window lets each request through exactly if fewer than `rate` of all the requests
-- that it has let through before lie in the interval that ends now. The times do not go back, the
-- rate is not negative, and the interval in nanoseconds fits an int64.
pub window_answers-history :
    (rate : ℤ) (interval : ℕ) (ts : List ℕ)
    → pos 0 ≤ℤ rate
    → interval * 1_000_000 < 2 ^ 63
    → Onward 0 ts
    → window_answers ts (create_sliding rate (pos interval))
      ≡ history_answers rate (interval * 1_000_000) ts []
unfolding create_sliding
window_answers-history rate interval ts r small o =
    Tracks-answers rate (interval * 1_000_000) small ts 0 (create_sliding rate (pos interval)) []
      (record {
        same_rate = refl;
        same_interval = interval_fits interval small;
        is_window = (tt, r);
        agree = λ b le. refl;
      })
      o
