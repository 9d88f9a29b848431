-- ===== src/Allocation/Weights.antt =====
-- One integer weight for each unit, apps/api/src/expenses/allocation-weights.ts. Columns that the
-- schema types as Int are integers; `squareMeters` is a Float column, so its type is a parameter.
pub mod Complete
use text.Mathlib.Text.{◌==◌ as str_eq}
use koinoxrista.Prelude.{
  ℕ, suc, ◌+◌, ◌-◌, ◌*◌, ◌^◌, Bool, true, false, not, ◌&&◌, ◌||◌, String, Option, none, some, List,
  [], ◌∷◌, map, arith, ltb, leb, ◌==◌, if◌then◌else◌, any, Result, ok, err, ◌>>=◌, ◌>>◌, throw_if,
}
use koinoxrista.Prelude.Int.{ℤ, pos, negsuc, ◌+ℤ◌, ltb_ℤ, leb_ℤ, max_ℤ, pos_part}
use koinoxrista.Allocation.Split.{SplitInput}

-- What the code does with an area: `Math.round(x * 100)`, and `Number.isFinite(x) && x > 0`.
pub record Area : Type 1 where
  pub Meters : Type 0
  pub hundredths : Meters → ℤ
  pub is_positive : Meters → Bool

-- The enum of the schema; `other` is a string outside of it.
pub data Strategy : Type 0 where
  milimes units custom radiators elevator_floors meters square_meters share_fraction headcount :
      Strategy
  other : String → Strategy

pub data WeightError : Type 0 where
  custom_unsupported unsupported needs_readings no_units bad_id bad_weight zero_requirement
        zero_total millimes_total missing_area missing_share share_total bad_millimes :
      WeightError

abbrev pub total_millimes : ℕ
total_millimes = 1000

pub is_supported : Strategy → Bool
is_supported Strategy.custom = false
is_supported (Strategy.other s) = false
is_supported _ = true

pub assert_supported : Strategy → Result WeightError (Unit {0})
unfolding is_supported
assert_supported Strategy.custom = err WeightError.custom_unsupported
assert_supported s = throw_if (not (is_supported s)) WeightError.unsupported

-- `Number.isSafeInteger`
abbrev pub is_safe : ℤ → Bool
is_safe (pos n) = ltb n (2 ^ 53)
is_safe (negsuc n) = ltb (n + 1) (2 ^ 53)

-- `x ?? 0`
abbrev pub or_zero : Option ℤ → ℤ
or_zero none = pos 0
or_zero (some x) = x

abbrev pub sum_ℤ : List ℤ → ℤ
sum_ℤ [] = pos 0
sum_ℤ (x ∷ xs) = x +ℤ sum_ℤ xs

-- `strategyRequirement(strategy) !== null`
pub has_requirement : Strategy → Bool
has_requirement Strategy.radiators = true
has_requirement Strategy.elevator_floors = true
has_requirement Strategy.square_meters = true
has_requirement Strategy.share_fraction = true
has_requirement _ = false

pub is_bad_weight : ℤ → Bool
is_bad_weight w = not (is_safe w) || ltb_ℤ w (pos 0)

module _ (area : Area) where
  open area use {Meters, hundredths, is_positive}

  pub record AllocatableUnit : Type 0 where
    pub id : String
    pub millimes : ℤ
    pub floor : Option ℤ
    pub radiator_count : Option ℤ
    pub square_meters : Option Meters
    pub share_fraction : Option ℤ

  pub weight_for : Strategy → AllocatableUnit → Result WeightError ℤ
  weight_for Strategy.milimes u = ok u.millimes
  weight_for Strategy.units u = ok (pos 1)
  weight_for Strategy.radiators u = ok (or_zero u.radiator_count)
  weight_for Strategy.elevator_floors u = ok (max_ℤ (or_zero u.floor) (pos 0))
  weight_for Strategy.square_meters u =
      ok (elim u.square_meters [ none ↦ pos 0 | some x ↦ hundredths x ])
  weight_for Strategy.share_fraction u = ok (or_zero u.share_fraction)
  weight_for Strategy.headcount u = ok (pos 1)
  weight_for Strategy.meters u = err WeightError.needs_readings
  weight_for Strategy.custom u = err WeightError.custom_unsupported
  weight_for (Strategy.other s) u = err WeightError.unsupported

  -- The loop over `ids`: an id that is empty, or that stands in the list twice.
  pub has_bad_id : List String → List AllocatableUnit → Bool
  has_bad_id seen [] = false
  has_bad_id seen (u ∷ us) = str_eq u.id "" || any (str_eq u.id) seen || has_bad_id (u.id ∷ seen) us

  pub lacks_area : AllocatableUnit → Bool
  lacks_area u = elim u.square_meters [ none ↦ true | some x ↦ not (is_positive x) ]

  pub lacks_share : AllocatableUnit → Bool
  lacks_share u = elim u.share_fraction [
    | none ↦ true
    | some x ↦ not (is_safe x) || leb_ℤ x (pos 0)
  ]

  pub invalid_millimes : AllocatableUnit → Bool
  invalid_millimes u = not (is_safe u.millimes) || leb_ℤ u.millimes (pos 0)

  -- The checks that only one strategy makes, in the order of the source.
  pub assert_strategy : List AllocatableUnit → Strategy → ℤ → Result WeightError (Unit {0})
  assert_strategy us Strategy.milimes total = do
    throw_if (not (leb_ℤ total (pos total_millimes) && leb_ℤ (pos total_millimes) total))
        WeightError.millimes_total
    throw_if (any invalid_millimes us) WeightError.bad_millimes
  assert_strategy us Strategy.square_meters total =
      throw_if (any lacks_area us) WeightError.missing_area
  assert_strategy us Strategy.share_fraction total = do
    throw_if (any lacks_share us) WeightError.missing_share
    throw_if (not (leb_ℤ total (pos 1000) && leb_ℤ (pos 1000) total)) WeightError.share_total
  assert_strategy us _ total = ok tt

  abbrev is_empty : List AllocatableUnit → Bool
  is_empty [] = true
  is_empty (u ∷ us) = false

  -- `assertCompleteStrategyWeights`
  pub assert_complete : List AllocatableUnit → Strategy → List ℤ → Result WeightError (Unit {0})
  assert_complete us s weights = do
    throw_if (is_empty us) WeightError.no_units
    throw_if (has_bad_id [] us) WeightError.bad_id
    throw_if (any is_bad_weight weights) WeightError.bad_weight
    throw_if (leb_ℤ (sum_ℤ weights) (pos 0) && has_requirement s) WeightError.zero_requirement
    throw_if (leb_ℤ (sum_ℤ weights) (pos 0)) WeightError.zero_total
    assert_strategy us s (sum_ℤ weights)

  -- `units.map(...)`, which stops at the first throw.
  pub weights_for : Strategy → List AllocatableUnit → Result WeightError (List ℤ)
  unfolding weight_for
  weights_for s [] = ok []
  weights_for s (u ∷ us) = do w ← weight_for s u; ws ← weights_for s us; ok (w ∷ ws)

  -- The inputs of the splitter; the weights have been checked, so none is negative.
  pub inputs_of : List AllocatableUnit → List ℤ → List SplitInput
  inputs_of [] ws = []
  inputs_of (u ∷ us) [] = []
  inputs_of (u ∷ us) (w ∷ ws) = record { id = u.id; weight = pos_part w } ∷ inputs_of us ws

  -- `resolveAllocationWeights`
  unfoldable pub resolve_allocation_weights :
      List AllocatableUnit → Strategy → Result WeightError (List SplitInput)
  unfolding assert_supported weights_for assert_complete inputs_of has_bad_id has_requirement
      is_bad_weight ◌+ℤ◌ assert_strategy lacks_area lacks_share invalid_millimes
  resolve_allocation_weights us s = do
    assert_supported s
    weights ← weights_for s us
    assert_complete us s weights
    ok (inputs_of us weights)
