-- ===== src/LoadBalance/Random/Weighted.antt =====
-- The random strategy: which draw gives which invoker.
use incubator_dubbo_go.Prelude.{
  ℕ, ◌+◌, ◌-◌, ◌%◌, ◌^◌, ◌<◌, ◌≤◌, ◌≡◌, refl, ap, ◌∙◌, true, false, List, [], ◌∷◌, ◌++◌, some, map,
  length, arith,
}
use incubator_dubbo_go.Prelude.Int.{ℤ, pos, ◌+ℤ◌, ◌-ℤ◌, ltb_ℤ, wrap64}
use incubator_dubbo_go.Protocol.{Invoker, done}
use incubator_dubbo_go.LoadBalance.Random.{
  sum_weights, same_weights, pick_by_offset, or_evenly, select_by,
}

module _ (weight : Invoker → ℕ) where
  abbrev pub weigh : Invoker → ℤ
  weigh i = pos (weight i)

  -- The sum of the weights, with no bound.
  unfoldable pub total : List Invoker → ℕ
  total [] = 0
  total (i ∷ is) = weight i + total is

  sub_fits : (o w : ℕ) → w ≤ o → o < 2 ^ 63 → wrap64 (pos o -ℤ pos w) ≡ pos (o - w)
  unfolding wrap64 ◌-ℤ◌
  sub_fits o w h fits = ground arith

  sub_below : (o w : ℕ) → o < w → w < 2 ^ 63 → ltb_ℤ (wrap64 (pos o -ℤ pos w)) (pos 0) ≡ true
  unfolding wrap64 ◌-ℤ◌
  sub_below o w h fits = ground arith

  pos_not_negative : (n : ℕ) → ltb_ℤ (pos n) (pos 0) ≡ false
  pos_not_negative n = ground arith

  pick_by_offset_above :
      (i : Invoker) (is : List Invoker) (o : ℕ)
      → weight i ≤ o
      → o < 2 ^ 63
      → pick_by_offset weigh (pos o) (i ∷ is) ≡ pick_by_offset weigh (pos (o - weight i)) is
  unfolding pick_by_offset
  pick_by_offset_above i is o h fits =
      rw (sub_fits o (weight i) h fits, pos_not_negative (o - weight i)) refl

  pick_by_offset-interval :
      (before : List Invoker) (v : Invoker) (after : List Invoker) (o : ℕ)
      → total before ≤ o
      → o < total before + weight v
      → total before + weight v < 2 ^ 63
      → pick_by_offset weigh (pos o) (before ++ v ∷ after) ≡ some v
  unfolding total pick_by_offset
  pick_by_offset-interval [] v after o l h fits =
      rw (sub_below o (weight v) (omega arith) (omega arith)) refl
  pick_by_offset-interval (i ∷ before) v after o l h fits =
      pick_by_offset_above i (before ++ v ∷ after) o (omega arith) (omega arith)
      ∙ pick_by_offset-interval before v after (o - weight i) (omega arith) (omega arith)
          (omega arith)

  add_fits : (n w : ℕ) → n + w < 2 ^ 63 → wrap64 (pos n +ℤ pos w) ≡ pos (n + w)
  unfolding wrap64 ◌+ℤ◌
  add_fits n w fits = ground arith

  sum_weights-total :
      (n : ℕ) (is : List Invoker)
      → n + total is < 2 ^ 63
      → sum_weights (pos n) (map weigh is) ≡ pos (n + total is)
  unfolding total sum_weights
  sum_weights-total n [] fits = ap pos (omega arith)
  sum_weights-total n (i ∷ is) fits =
      rw (sum_weights, add_fits n (weight i) (omega arith))
        (sum_weights-total (n + weight i) is (omega arith) ∙ ap pos (omega arith))

  abbrev pub Uneven : List Invoker → Type 0
  Uneven [] = ⊥
  Uneven (i ∷ is) = same_weights (weigh i) (map weigh is) ≡ false

  total-append :
      (before after : List Invoker) → total (before ++ after) ≡ total before + total after
  unfolding total
  total-append [] after = omega arith
  total-append (i ∷ before) after = omega (arith, total-append before after)

  total_of_interval :
      (before after : List Invoker) (v : Invoker)
      → total (before ++ v ∷ after) ≡ total before + weight v + total after
  unfolding total
  total_of_interval before after v = omega (arith, total-append before (v ∷ after))

  positive : (n : ℕ) → 0 < n → ltb_ℤ (pos 0) (pos n) ≡ true
  positive n h = ground arith

  select_by-Uneven :
      (l : List Invoker) (draw draw' : ℕ)
      → 2 ≤ length l
      → Uneven l
      → total l < 2 ^ 63
      → 0 < total l
      → select_by weigh draw draw' l
        ≡ or_evenly (pick_by_offset weigh (pos (draw % total l)) l) draw' l
  unfolding select_by total
  select_by-Uneven [] draw draw' two u fits h = absurd u
  select_by-Uneven (i ∷ []) draw draw' two u fits h = absurd (omega arith)
  select_by-Uneven (i ∷ j ∷ is) draw draw' two u fits h =
      rw (sum_weights-total (weight i) (j ∷ is) fits, u, positive (weight i + total (j ∷ is)) h)
        refl

  -- Where the weights are not all the same, Select gives each invoker exactly the draws of an
  -- interval as long as its weight, in the order of the list. The sum of the weights must not
  -- overflow an int64.
  pub select_by-interval :
      (before after : List Invoker) (v : Invoker) (draw draw' : ℕ)
      → 2 ≤ length (before ++ v ∷ after)
      → Uneven (before ++ v ∷ after)
      → total (before ++ v ∷ after) < 2 ^ 63
      → total before ≤ draw % total (before ++ v ∷ after)
      → draw % total (before ++ v ∷ after) < total before + weight v
      → select_by weigh draw draw' (before ++ v ∷ after) ≡ done v
  unfolding or_evenly
  select_by-interval before after v draw draw' two u fits lo hi =
      select_by-Uneven (before ++ v ∷ after) draw draw' two u fits
        (omega (arith, total_of_interval before after v))
      ∙ rw
          (pick_by_offset-interval before v after (draw % total (before ++ v ∷ after)) lo hi
            (omega (arith, total_of_interval before after v)))
          refl
