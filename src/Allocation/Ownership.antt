-- ===== src/Allocation/Ownership.antt =====
-- The basis of ownership and its weights: libs/shared/src/lib/ownership-weights.ts. Square metres
-- are of the parameter Area; the other numbers are whole.
pub mod Basis
mod Tests
use koinoxrista.Prelude.{
  ℕ, zero, suc, ◌+◌, ◌-◌, ◌*◌, ◌/◌, ◌%◌, ◌^◌, ◌≤◌, ◌<◌, min, max, String, ◌≡◌, refl, sym, ap, ◌∙◌,
  ◌≢◌, ◌↔◌, ◌⊎◌, inl, inr, Bool, true, false, not, ◌&&◌, ◌||◌, Option, none, some, List, [], ◌∷◌,
  ◌++◌, map, arith, ltb, leb, ◌==◌, if◌then◌else◌, ltb→lt, lt→ltb, leb→le, ==_iff, ==_refl,
  Bool-cases, Option-cases, length, get_elem?, take, get_or, length-append, length-map, total,
  total-append, total_scale, All, filter, All-append, total_mono, any, all, any-false, all-true,
  sum, sum-map, Result, ok, err, ◌>>=◌, ◌>>◌, throw_if, throw_if-ok, >>=-eq-ok, ok-injective,
}
use koinoxrista.Prelude.Int.{
  ℤ, pos, negsuc, pos_part, neg_part, sub_ℕ, ◌+ℤ◌, ◌-ℤ◌, ◌≤ℤ◌, ltb_ℤ, leb_ℤ, min_ℤ, max_ℤ, int_laws,
  pos_part-eq, +ℤ_parts, -ℤ_parts, eq_of_parts,
}
use koinoxrista.Prelude.Sort.{insert, sort, total-sort, sort-All, IsSorted, sort-IsSorted}
use koinoxrista.Prelude.Tables.{
  find, count, update_many, update_many-none, count_mono, update_many-All, find-holds, find-only,
}
use text.Mathlib.Text.{◌==◌ as str_eq}
use text.Mathlib.TextEquality.{eq_iff}
use text.Mathlib.TextPositions.{eq_refl}
use koinoxrista.Allocation.Weights.{Area, is_safe}

pub data OwnershipBasis : Type 0 where
  millimes share_fraction square_meters : OwnershipBasis

pub data OwnershipError : Type 0 where
  incomplete : OwnershipBasis → OwnershipError
  not_whole not_finite total_unsafe : OwnershipError

-- `hasPositiveWeight` of a whole number.
abbrev pub has_positive : Option ℤ → Bool
has_positive none = false
has_positive (some n) = ltb_ℤ (pos 0) n

module _ (area : Area) where
  open area use {Meters, hundredths, is_positive}

  pub record WeightedUnit : Type 0 where
    pub millimes : ℤ
    pub square_meters : Option Meters
    pub share_fraction : Option ℤ

  abbrev pub has_area : WeightedUnit → Bool
  has_area u = elim u.square_meters [ none ↦ false | some m ↦ is_positive m ]

  abbrev pub has_share : WeightedUnit → Bool
  has_share u = has_positive u.share_fraction

  -- `hasPositiveWeight(valueFor(unit))`
  abbrev pub has_value : OwnershipBasis → WeightedUnit → Bool
  has_value share_fraction u = has_share u
  has_value square_meters u = has_area u
  has_value millimes u = ltb_ℤ (pos 0) u.millimes

  -- `assertComplete`
  unfoldable pub assert_complete :
      List WeightedUnit → OwnershipBasis → Result OwnershipError (Unit {0})
  assert_complete units basis =
      throw_if (ltb 0 (length (filter (λ u. not (has_value basis u)) units))) (incomplete basis)

  -- `resolveOwnershipBasis`
  unfoldable pub resolve_ownership_basis : List WeightedUnit → Result OwnershipError OwnershipBasis
  resolve_ownership_basis units =
      if any has_share units
      then assert_complete units share_fraction
        >> (if any has_area units then assert_complete units square_meters else ok tt)
        >> ok share_fraction
      else if any has_area units
      then assert_complete units square_meters >> ok square_meters
      else ok millimes

  -- `unitOwnershipWeight`
  unfoldable pub unit_ownership_weight : OwnershipBasis → WeightedUnit → Result OwnershipError ℤ
  unit_ownership_weight share_fraction u = elim u.share_fraction [
    | none ↦ err (incomplete share_fraction)
    | some n ↦
        if not (ltb_ℤ (pos 0) n)
        then err (incomplete share_fraction)
        else if is_safe n
        then ok n
        else err not_whole
  ]
  unit_ownership_weight square_meters u = elim u.square_meters [
    | none ↦ err (incomplete square_meters)
    | some m ↦ if is_positive m then ok (hundredths m) else err (incomplete square_meters)
  ]
  unit_ownership_weight millimes u =
      if ltb_ℤ u.millimes (pos 0)
      then err not_finite
      else if is_safe u.millimes
      then ok u.millimes
      else err not_whole

  unfoldable pub add_weights : OwnershipBasis → List WeightedUnit → ℤ → Result OwnershipError ℤ
  add_weights basis [] sum = ok sum
  add_weights basis (u ∷ us) sum =
      unit_ownership_weight basis u >>= λ w. add_weights basis us (sum +ℤ w)

  -- `totalOwnershipWeight`
  unfoldable pub total_ownership_weight :
      List WeightedUnit → OwnershipBasis → Result OwnershipError ℤ
  total_ownership_weight units basis = do
    assert_complete units basis
    sum ← add_weights basis units (pos 0)
    if is_safe sum then ok sum else err total_unsafe
