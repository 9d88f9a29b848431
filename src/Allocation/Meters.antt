-- ===== src/Allocation/Meters.antt =====
-- The METERS strategy, apps/api/src/meters/meter-allocation.ts: shares by consumption.
use text.Mathlib.Text.{◌==◌ as str_eq}
use koinoxrista.Prelude.{
  ℕ, ◌<◌, ◌≡◌, refl, ap, ◌∙◌, ◌↔◌, true, false, not, String, List, [], ◌∷◌, map, arith, any, filter,
  Result, ok, err, All, total, if◌then◌else◌,
}
use koinoxrista.Prelude.Int.{ℤ, pos, negsuc, ltb_ℤ, leb_ℤ, pos_part, ◌≤ℤ◌}
use koinoxrista.Allocation.Float.{Float, IsAccurate}
use koinoxrista.Allocation.Split.{SplitInput, SplitResult, SplitError, split_by_largest_remainder}
use koinoxrista.Allocation.Split.Exact.{Fits, total_weight, split_conserves}

pub record MeterConsumption : Type 0 where
  pub unit_id : String
  pub consumed : ℤ

pub record MeterShare : Type 0 where
  pub unit_id : String
  pub amount_cents : ℕ

pub data MeterError : Type 0 where
  bad_total bad_consumed no_consumption : MeterError
  missing_readings : List String → MeterError
  split_failed : SplitError → MeterError

-- `unitIds.filter((unitId) => !withReadings.has(unitId))`
unfoldable pub missing_units : List String → List String → List String
missing_units unit_ids with_readings = filter (λ u. not (any (str_eq u) with_readings)) unit_ids

-- `validateAllUnitsHaveReadings`, given the unit ids of the readings.
unfoldable pub validate_all_units_have_readings :
    List String → List String → Result MeterError (Unit {0})
unfolding missing_units
validate_all_units_have_readings unit_ids with_readings =
    elim (missing_units unit_ids with_readings) [
      | [] ↦ ok tt
      | u ∷ us ↦ err (MeterError.missing_readings (u ∷ us))
    ]

abbrev pub as_input : MeterConsumption → SplitInput
as_input r = record { id = r.unit_id; weight = pos_part r.consumed }

abbrev pub as_share : SplitResult → MeterShare
as_share r = record { unit_id = r.id; amount_cents = r.amount_cents }

abbrev pub wrap_split : Result SplitError (List SplitResult) → Result MeterError (List MeterShare)
wrap_split (ok out) = ok (map as_share out)
wrap_split (err e) = err (MeterError.split_failed e)

-- `splitByMeterReading`; consumptions have been checked when they become weights.
unfoldable pub split_by_meter_reading :
    Float → ℤ → List MeterConsumption → Result MeterError (List MeterShare)
unfolding split_by_largest_remainder
split_by_meter_reading f (negsuc n) readings = err MeterError.bad_total
split_by_meter_reading f (pos t) [] = ok []
split_by_meter_reading f (pos t) (r ∷ rs) =
    let readings : List MeterConsumption = r ∷ rs in
    if any (λ m. ltb_ℤ m.consumed (pos 0)) readings
    then err MeterError.bad_consumed
    else if leb_ℤ (pos (total (λ m. pos_part m.consumed) readings)) (pos 0)
    then err MeterError.no_consumption
    else wrap_split (split_by_largest_remainder f (pos t) (map as_input readings))

-- Every unit has a reading.
abbrev pub AllRead : List String → List String → Type 0
AllRead unit_ids seen = All (λ u. any (str_eq u) seen ≡ true) unit_ids

missing-AllRead :
    (unit_ids seen : List String) → (missing_units unit_ids seen ≡ []) ↔ AllRead unit_ids seen
unfolding missing_units
missing-AllRead [] seen = (λ _. tt, λ _. refl)
missing-AllRead (u ∷ us) seen = ground (arith, missing-AllRead us seen)

-- The validation passes exactly when every unit of the building has a reading.
pub validate_iff :
    (unit_ids seen : List String)
    → (validate_all_units_have_readings unit_ids seen ≡ ok tt) ↔ AllRead unit_ids seen
unfolding validate_all_units_have_readings
validate_iff unit_ids seen = ground (arith, missing-AllRead unit_ids seen)

total-as_share :
    (out : List SplitResult)
    → (total (λ s. s.amount_cents) (map as_share out) ≡ total (λ r. r.amount_cents) out)
      × (map (λ s. s.unit_id) (map as_share out) ≡ map (λ r. r.id) out)
total-as_share [] = (refl, refl)
total-as_share (r ∷ rs) = ground (arith, total-as_share rs)

ids-as_input :
    (readings : List MeterConsumption)
    → (map (λ i. i.id) (map as_input readings) ≡ map (λ m. m.unit_id) readings)
      × (total_weight (map as_input readings) ≡ total (λ m. pos_part m.consumed) readings)
ids-as_input [] = (refl, refl)
ids-as_input (r ∷ rs) = ground (arith, ids-as_input rs)

none_negative :
    (readings : List MeterConsumption)
    → All (λ m. pos 0 ≤ℤ m.consumed) readings
    → any (λ m. ltb_ℤ m.consumed (pos 0)) readings ≡ false
none_negative [] h = refl
none_negative (r ∷ rs) h = ground (arith, h.0, none_negative rs h.1)

meter-runs :
    (f : Float) (t : ℕ) (readings : List MeterConsumption)
    → All (λ m. pos 0 ≤ℤ m.consumed) readings
    → 0 < total (λ m. pos_part m.consumed) readings
    → split_by_meter_reading f (pos t) readings
      ≡ wrap_split (split_by_largest_remainder f (pos t) (map as_input readings))
unfolding split_by_meter_reading
meter-runs f t [] h p = absurd (omega arith)
meter-runs f t (r ∷ rs) h p = rw (none_negative (r ∷ rs) h) (ground arith)

-- Consumptions that are not negative, not all zero and small enough for doubles are split: there is
-- one share for each reading, in order, and the shares add up to exactly the expense.
pub meters_conserve :
    (f : Float) (t : ℕ) (readings : List MeterConsumption)
    → IsAccurate f
    → All (λ m. pos 0 ≤ℤ m.consumed) readings
    → Fits t (map as_input readings)
    → (out : List MeterShare) × (split_by_meter_reading f (pos t) readings ≡ ok out)
      × (total (λ s. s.amount_cents) out ≡ t)
      × (map (λ s. s.unit_id) out ≡ map (λ m. m.unit_id) readings)
meters_conserve f t readings accurate nonneg fits =
    let (out, run, summed, out_ids) = split_conserves f t (map as_input readings) accurate fits in
    let (in_ids, weights) = ids-as_input readings in
    let (share_total, share_ids) = total-as_share out in
    (
      map as_share out,
      meter-runs f t readings nonneg (omega (arith, weights, fits.has_weight)) ∙ ap wrap_split run,
      share_total ∙ summed,
      share_ids ∙ out_ids ∙ in_ids,
    )
