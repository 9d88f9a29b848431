-- ===== src/Allocation/Weights/Complete.antt =====
-- The checks behind resolveAllocationWeights, apps/api/src/expenses/allocation-weights.ts.
use text.Mathlib.Text.{◌==◌ as str_eq}
use text.Mathlib.TextEquality.{eq_iff}
use koinoxrista.Prelude.{
  ℕ, ◌+◌, ◌*◌, ◌^◌, ◌<◌, ◌≡◌, refl, sym, ap, ◌∙◌, ◌≢◌, false, total, String, List, [], ◌∷◌, map,
  arith, any, ok, >>=-eq-ok, All, length,
}
use koinoxrista.Prelude.Int.{ℤ, pos, negsuc, ◌+ℤ◌, ◌≤ℤ◌, leb_ℤ, pos_part}
use koinoxrista.Allocation.Float.{Float, IsAccurate}
use koinoxrista.Allocation.Split.{SplitResult, split_by_largest_remainder, SplitInput}
use koinoxrista.Allocation.Split.Exact.{Fits, split_conserves, total_weight}
use koinoxrista.Allocation.Weights.{
  Area, Strategy, AllocatableUnit, assert_supported, weight_for, weights_for, has_bad_id, sum_ℤ,
  assert_strategy, is_bad_weight, assert_complete, inputs_of, resolve_allocation_weights,
}

-- No two of the ids are the same, and none is empty.
abbrev pub AreDistinct : List String → Type 0
AreDistinct [] = Unit
AreDistinct (x ∷ xs) = (x ≢ "") × All (λ y. x ≢ y) xs × AreDistinct xs

str_ne : (s t : String) → str_eq s t ≡ false → s ≢ t
str_ne s t h e = let same = (eq_iff s t).1 e in cc

abbrev pub HasTotal : Strategy → ℕ → Type 0
HasTotal Strategy.milimes n = n ≡ 1000
HasTotal Strategy.share_fraction n = n ≡ 1000
HasTotal _ n = 0 < n

nonneg_weight : (w : ℤ) → is_bad_weight w ≡ false → pos 0 ≤ℤ w
unfolding is_bad_weight
nonneg_weight (pos n) h = omega arith
nonneg_weight (negsuc n) h = ground arith

add_pos : (w : ℤ) (n : ℕ) → pos 0 ≤ℤ w → w +ℤ pos n ≡ pos (pos_part w + n)
unfolding ◌+ℤ◌
add_pos w n h = ground arith

pos_of_test : (n : ℕ) → leb_ℤ (pos n) (pos 0) ≡ false → 0 < n
pos_of_test n h = ground arith

away_head :
    (x : String) (seen ys : List String)
    → All (λ y. any (str_eq y) (x ∷ seen) ≡ false) ys
    → All (λ y. x ≢ y) ys
away_head x seen [] h = tt
away_head x seen (y ∷ ys) h =
    (λ e. str_ne y x (ground (arith, h.0)) (sym e), away_head x seen ys h.1)

away_tail :
    (x : String) (seen ys : List String)
    → All (λ y. any (str_eq y) (x ∷ seen) ≡ false) ys
    → All (λ y. any (str_eq y) seen ≡ false) ys
away_tail x seen [] h = tt
away_tail x seen (y ∷ ys) h = (ground (arith, h.0), away_tail x seen ys h.1)

module _ (area : Area) where
  abbrev ids : List (AllocatableUnit area) → List String
  ids us = map (λ u. u.id) us

  distinct :
      (seen : List String) (us : List (AllocatableUnit area))
      → has_bad_id area seen us ≡ false
      → AreDistinct (ids us) × All (λ y. any (str_eq y) seen ≡ false) (ids us)
  unfolding has_bad_id
  distinct seen [] h = (tt, tt)
  distinct seen (u ∷ us) h =
      let rest : has_bad_id area (u.id ∷ seen) us ≡ false = ground arith in
      let (ds, away) = distinct (u.id ∷ seen) us rest in
      let new : str_eq u.id "" ≡ false = ground arith in
      (
        (str_ne u.id "" new, away_head u.id seen (ids us) away, ds),
        (ground arith, away_tail u.id seen (ids us) away),
      )

  sum-pos :
      (us : List (AllocatableUnit area)) (ws : List ℤ)
      → length ws ≡ length us
      → any is_bad_weight ws ≡ false
      → sum_ℤ ws ≡ pos (total_weight (inputs_of area us ws))
  unfolding inputs_of
  sum-pos [] [] e h = refl
  sum-pos [] (w ∷ ws) e h = absurd (omega arith)
  sum-pos (u ∷ us) [] e h = absurd (omega arith)
  sum-pos (u ∷ us) (w ∷ ws) e h =
      let here : pos 0 ≤ℤ w = nonneg_weight w (ground arith) in
      let rest = sum-pos us ws (omega arith) (ground arith) in rw rest (add_pos w _ here)

  ids-inputs_of :
      (us : List (AllocatableUnit area)) (ws : List ℤ)
      → length ws ≡ length us
      → map (λ i. i.id) (inputs_of area us ws) ≡ ids us
  unfolding inputs_of
  ids-inputs_of [] ws e = refl
  ids-inputs_of (u ∷ us) [] e = absurd (omega arith)
  ids-inputs_of (u ∷ us) (w ∷ ws) e = ap (λ l. u.id ∷ l) (ids-inputs_of us ws (omega arith))

  length-weights_for :
      (s : Strategy) (us : List (AllocatableUnit area)) (ws : List ℤ)
      → weights_for area s us ≡ ok ws
      → length ws ≡ length us
  unfolding weights_for
  length-weights_for s [] ws h = ground arith
  length-weights_for s (u ∷ us) ws h =
      let (w, _, next) = >>=-eq-ok (weight_for area s u) _ h in
      let (rest, run, last) = >>=-eq-ok (weights_for area s us) _ next in
      let counted = length-weights_for s us rest run in
      let same : w ∷ rest ≡ ws = cc in rw (← same) (omega arith)

  total-assert_strategy :
      (us : List (AllocatableUnit area)) (s : Strategy) (n : ℕ)
      → 0 < n
      → assert_strategy area us s (pos n) ≡ ok tt
      → HasTotal s n
  unfolding assert_strategy
  total-assert_strategy us Strategy.milimes n p h = ground arith
  total-assert_strategy us Strategy.share_fraction n p h = ground arith
  total-assert_strategy us Strategy.square_meters n p h = p
  total-assert_strategy us _ n p h = p

  complete_checks :
      (us : List (AllocatableUnit area)) (s : Strategy) (ws : List ℤ)
      → assert_complete area us s ws ≡ ok tt
      → (has_bad_id area [] us ≡ false)
        × (any is_bad_weight ws ≡ false)
        × (leb_ℤ (sum_ℤ ws) (pos 0) ≡ false)
        × (assert_strategy area us s (sum_ℤ ws) ≡ ok tt)
  unfolding assert_complete
  complete_checks us s ws h = ground arith

  -- What a successful call ran through.
  resolve_runs :
      (us : List (AllocatableUnit area)) (s : Strategy) (inputs : List SplitInput)
      → resolve_allocation_weights area us s ≡ ok inputs
      → (ws : List ℤ) × (weights_for area s us ≡ ok ws)
        × (assert_complete area us s ws ≡ ok tt)
        × (inputs_of area us ws ≡ inputs)
  resolve_runs us s inputs h =
      unfold resolve_allocation_weights in
      let (_, _, h1) = >>=-eq-ok (assert_supported s) _ h in
      let (ws, run, h2) = >>=-eq-ok (weights_for area s us) _ h1 in
      let (_, complete, h3) = >>=-eq-ok (assert_complete area us s ws) _ h2 in
      (ws, run, complete, cc)

  -- A list of weights that resolves has the ids of the units, all different and none empty, in
  -- their order; the weights total 1000 for the two strategies by thousandths, and are not all zero
  -- for the others.
  pub resolve_complete :
      (us : List (AllocatableUnit area)) (s : Strategy) (inputs : List SplitInput)
      → resolve_allocation_weights area us s ≡ ok inputs
      → (map (λ i. i.id) inputs ≡ ids us) × AreDistinct (ids us) × HasTotal s (total_weight inputs)
  resolve_complete us s inputs h =
      let (ws, run, complete, same) = resolve_runs us s inputs h in
      let (ids_ok, weights_ok, positive, strategy_ok) = complete_checks us s ws complete in
      let counted = length-weights_for s us ws run in
      let n : ℕ = total_weight (inputs_of area us ws) in
      let summed : sum_ℤ ws ≡ pos n = sum-pos us ws counted weights_ok in
      rw (← same) (
        ids-inputs_of us ws counted,
        (distinct [] us ids_ok).0,
        total-assert_strategy us s n (pos_of_test n (rw summed at positive))
            (rw summed at strategy_ok),
      )

HasTotal-pos : (s : Strategy) (n : ℕ) → HasTotal s n → 0 < n
HasTotal-pos Strategy.milimes n h = omega arith
HasTotal-pos Strategy.share_fraction n h = omega arith
HasTotal-pos Strategy.units n h = h
HasTotal-pos Strategy.custom n h = h
HasTotal-pos Strategy.radiators n h = h
HasTotal-pos Strategy.elevator_floors n h = h
HasTotal-pos Strategy.meters n h = h
HasTotal-pos Strategy.square_meters n h = h
HasTotal-pos Strategy.headcount n h = h
HasTotal-pos (Strategy.other t) n h = h

-- Weights that resolve, with numbers small enough for doubles, can be split: the call returns one
-- amount for each unit, in the order of the units, and the amounts add up to the whole.
pub allocation_conserves :
    (f : Float) (area : Area) (us : List (AllocatableUnit area)) (s : Strategy) (t : ℕ)
    (inputs : List SplitInput)
    → IsAccurate f
    → resolve_allocation_weights area us s ≡ ok inputs
    → total_weight inputs < 2 ^ 53
    → t < 2 ^ 53
    → total_weight inputs * t < 2 ^ 51
    → (out : List SplitResult) × (split_by_largest_remainder f (pos t) inputs ≡ ok out)
      × (total (λ r. r.amount_cents) out ≡ t)
      × (map (λ r. r.id) out ≡ map (λ u. u.id) us)
allocation_conserves f area us s t inputs accurate h lt_w lt_t lt_p =
    let (same_ids, _, has) = resolve_complete area us s inputs h in
    let positive = HasTotal-pos s (total_weight inputs) has in
    let fits : Fits t inputs = record {
      has_weight = positive;
      weight_lt = lt_w;
      total_lt = lt_t;
      product_lt = lt_p;
    } in
    let (out, run, summed, out_ids) = split_conserves f t inputs accurate fits in
    (out, run, summed, out_ids ∙ same_ids)
