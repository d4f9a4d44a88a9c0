-- ===== src/Tps/Sliding.antt =====
-- The sliding window: when it lets a request through, and what its queue holds.
pub mod History
use incubator_dubbo_go.Prelude.{
  ℕ, suc, ◌+◌, ◌≤◌, ◌≡◌, refl, sym, ap, ◌∙◌, Bool, true, false, List, [], ◌∷◌, ◌++◌, if◌then◌else◌,
  length, length-append, arith, All, All-append, Bool-cases, inl, inr,
}
use incubator_dubbo_go.Prelude.Int.{ℤ, pos, ◌-ℤ◌, ◌≤ℤ◌, ltb_ℤ, wrap64}
use incubator_dubbo_go.Tps.{SlidingWindow, evict, sliding_allowable}

-- How many of the times are not before the boundary.
unfoldable pub recent : ℤ → List ℤ → ℕ
recent boundary [] = 0
recent boundary (t ∷ ts) =
    let rest = recent boundary ts in if ltb_ℤ t boundary then rest else suc rest

-- The times are in order, and none is after `now`.
abbrev pub Ordered : ℤ → List ℤ → Type 0
Ordered now [] = Unit
Ordered now (t ∷ ts) = All (λ u. t ≤ℤ u) ts × (t ≤ℤ now) × Ordered now ts

-- What holds of a sliding window at a time: its queue is in order, ends by that time, and has no
-- more times than the rate.
abbrev pub IsWindow : ℤ → SlidingWindow → Type 0
IsWindow now w = Ordered now w.queue × (pos (length w.queue) ≤ℤ w.rate)

recent_after :
    (b t : ℤ) (ts : List ℤ) → All (λ u. t ≤ℤ u) ts → ltb_ℤ t b ≡ false → recent b ts ≡ length ts
unfolding recent
recent_after b t [] a h = refl
recent_after b t (u ∷ ts) a h = ground (arith, a.0, recent_after b t ts a.1)

length-evict : (now b : ℤ) (ts : List ℤ) → Ordered now ts → length (evict b ts) ≡ recent b ts
unfolding evict recent
length-evict now b [] o = refl
length-evict now b (t ∷ ts) o = elim (Bool-cases (ltb_ℤ t b)) [
  | inl h ↦ rw h (length-evict now b ts o.2)
  | inr h ↦ rw h (omega (arith, recent_after b t ts o.0 h))
]

recent-le : (b : ℤ) (ts : List ℤ) → recent b ts ≤ length ts
unfolding recent
recent-le b [] = omega arith
recent-le b (t ∷ ts) = ground (arith, recent-le b ts)

evict-Ordered : (now b : ℤ) (ts : List ℤ) → Ordered now ts → Ordered now (evict b ts)
unfolding evict
evict-Ordered now b [] o = tt
evict-Ordered now b (t ∷ ts) o = elim (Bool-cases (ltb_ℤ t b)) [
  | inl h ↦ rw h (evict-Ordered now b ts o.2)
  | inr h ↦ rw h o
]

Ordered-append :
    (now later : ℤ) (ts : List ℤ) → now ≤ℤ later → Ordered now ts → Ordered later (ts ++ later ∷ [])
Ordered-append now later [] l o = (tt, omega arith, tt)
Ordered-append now later (t ∷ ts) l o = (
  All-append (λ u. t ≤ℤ u) ts (later ∷ []) o.0 (omega (arith, o.1), tt),
  omega (arith, o.1),
  Ordered-append now later ts l o.2,
)

Ordered-later : (now later : ℤ) (ts : List ℤ) → now ≤ℤ later → Ordered now ts → Ordered later ts
Ordered-later now later [] l o = tt
Ordered-later now later (t ∷ ts) l o = (o.0, omega (arith, o.1), Ordered-later now later ts l o.2)

-- A sliding window lets a request through exactly if fewer than `rate` of the times in its queue lie
-- in the interval that ends now.
pub sliding_allowable-recent :
    (last now : ℤ) (w : SlidingWindow)
    → IsWindow last w
    → (sliding_allowable now w).0 ≡ ltb_ℤ (pos (recent (wrap64 (now -ℤ w.interval)) w.queue)) w.rate
unfolding sliding_allowable
sliding_allowable-recent last now w h = ground (
  arith,
  recent-le (wrap64 (now -ℤ w.interval)) w.queue,
  length-evict last (wrap64 (now -ℤ w.interval)) w.queue h.0,
)

length-append-lt :
    (ts : List ℤ) (t rate : ℤ)
    → ltb_ℤ (pos (length ts)) rate ≡ true
    → pos (length (ts ++ t ∷ [])) ≤ℤ rate
length-append-lt ts t rate h = rw (length-append ts (t ∷ [])) (ground arith)

-- As time goes on a sliding window keeps its queue in order and no longer than the rate.
pub sliding_allowable-IsWindow :
    (last now : ℤ) (w : SlidingWindow)
    → last ≤ℤ now
    → IsWindow last w
    → IsWindow now (sliding_allowable now w).1
unfolding sliding_allowable
sliding_allowable-IsWindow last now w l h =
    let b = wrap64 (now -ℤ w.interval) in
    elim (Bool-cases (ltb_ℤ (pos (length w.queue)) w.rate)) [
      | inl e ↦ rw e (Ordered-append last now w.queue l h.0, length-append-lt w.queue now w.rate e)
      | inr e ↦ rw e (elim (Bool-cases (ltb_ℤ (pos (length (evict b w.queue))) w.rate)) [
        | inl q ↦ rw q (
          Ordered-append last now (evict b w.queue) l (evict-Ordered last b w.queue h.0),
          length-append-lt (evict b w.queue) now w.rate q,
        )
        | inr q ↦ rw q (
          Ordered-later last now (evict b w.queue) l (evict-Ordered last b w.queue h.0),
          omega (arith, h.1, length-evict last b w.queue h.0, recent-le b w.queue),
        )
      ])
    ]

recent-append :
    (b t : ℤ) (ts : List ℤ) → recent b (ts ++ t ∷ []) ≡ recent b ts + (if ltb_ℤ t b then 0 else 1)
unfolding recent
recent-append b t [] = ground arith
recent-append b t (u ∷ ts) = ground (arith, recent-append b t ts)

-- What is dropped is not recent at any later boundary.
recent-evict : (b c : ℤ) (ts : List ℤ) → c ≤ℤ b → recent b (evict c ts) ≡ recent b ts
unfolding recent evict
recent-evict b c [] h = refl
recent-evict b c (t ∷ ts) h = elim (Bool-cases (ltb_ℤ t c)) [
  | inl e ↦ let old : ltb_ℤ t b ≡ true = ground (arith, h, e) in rw (e, old) (recent-evict b c ts h)
  | inr e ↦ rw e refl
]

abbrev pub with_time : Bool → ℤ → List ℤ → List ℤ
with_time true t ts = ts ++ t ∷ []
with_time false t ts = ts

recent-sliding_allowable :
    (b now : ℤ) (w : SlidingWindow)
    → wrap64 (now -ℤ w.interval) ≤ℤ b
    → recent b (sliding_allowable now w).1.queue
      ≡ recent b (with_time (sliding_allowable now w).0 now w.queue)
unfolding sliding_allowable
recent-sliding_allowable b now w h =
    let c = wrap64 (now -ℤ w.interval) in
    elim (Bool-cases (ltb_ℤ (pos (length w.queue)) w.rate)) [
      | inl e ↦ rw e refl
      | inr e ↦ rw e (elim (Bool-cases (ltb_ℤ (pos (length (evict c w.queue))) w.rate)) [
        | inl q ↦ rw q (
            recent-append b now (evict c w.queue)
            ∙ ap (λ n. n + (if ltb_ℤ now b then 0 else 1)) (recent-evict b c w.queue h)
            ∙ sym (recent-append b now w.queue))
        | inr q ↦ rw q (recent-evict b c w.queue h)
      ])
    ]

recent-with_time :
    (b t : ℤ) (a : Bool) (ts us : List ℤ)
    → recent b ts ≡ recent b us
    → recent b (with_time a t ts) ≡ recent b (with_time a t us)
recent-with_time b t true ts us h =
    recent-append b t ts ∙ ap (λ n. n + (if ltb_ℤ t b then 0 else 1)) h ∙ sym (recent-append b t us)
recent-with_time b t false ts us h = h

sliding_allowable-same :
    (now : ℤ) (w : SlidingWindow)
    → ((sliding_allowable now w).1.rate ≡ w.rate)
      × ((sliding_allowable now w).1.interval ≡ w.interval)
unfolding sliding_allowable
sliding_allowable-same now w = (ground arith, ground arith)
