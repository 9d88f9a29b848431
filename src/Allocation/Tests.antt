-- ===== src/Allocation/Tests.antt =====
-- Runs of the splitter and of its callers, with exact fractions for the doubles.
use koinoxrista.Prelude.{
  ℕ, ◌+◌, ◌*◌, ◌≡◌, ◌≤◌, refl, none, some, String, List, [], ◌∷◌, map, arith, ltb, ok, err, total,
}
use koinoxrista.Prelude.Int.{pos, negsuc}
use koinoxrista.Allocation.Float.{exact, exact-IsAccurate}
use koinoxrista.Allocation.Split.{SplitInput, SplitResult, split_by_largest_remainder}
use koinoxrista.Allocation.Split.Exact.{Fits, total_weight, split_conserves, split_near}
use koinoxrista.Allocation.Weights.{
  Area, Strategy, WeightError, AllocatableUnit, resolve_allocation_weights,
}
use koinoxrista.Allocation.Weights.Complete.{
  AreDistinct, HasTotal, resolve_complete, allocation_conserves,
}
use koinoxrista.Allocation.Meters.{
  MeterConsumption, MeterShare, MeterError, split_by_meter_reading,
  validate_all_units_have_readings, meters_conserve,
}

abbrev inputs : List SplitInput
inputs =
    record { id = "a"; weight = 1 }
    ∷ record { id = "b"; weight = 1 }
    ∷ record { id = "c"; weight = 1 }
    ∷ []

abbrev thirds : List SplitResult
thirds =
    record { id = "a"; amount_cents = 34 }
    ∷ record { id = "b"; amount_cents = 33 }
    ∷ record { id = "c"; amount_cents = 33 }
    ∷ []

run_thirds : split_by_largest_remainder exact (pos 100) inputs ≡ ok thirds
unfolding split_by_largest_remainder
run_thirds = refl

abbrev fits : Fits 100 inputs
fits = omega arith

split_conserves_example :
    (out : List SplitResult) × (split_by_largest_remainder exact (pos 100) inputs ≡ ok out)
    × (total (λ r. r.amount_cents) out ≡ 100)
    × (map (λ r. r.id) out ≡ map (λ i. i.id) inputs)
split_conserves_example = split_conserves exact 100 inputs exact-IsAccurate fits

split_near_example : (34 * 3 ≤ 100 * 1 + 3) × (100 * 1 ≤ 34 * 3 + 3)
split_near_example = split_near exact 100 inputs thirds 0 exact-IsAccurate fits run_thirds refl refl

-- Areas in whole hundredths of a square metre.
abbrev whole : Area
whole = record { Meters = ℕ; hundredths = λ n. pos n; is_positive = λ n. ltb 0 n }

abbrev flat : String → ℕ → AllocatableUnit whole
flat i m = record {
  id = i;
  millimes = pos m;
  floor = some (negsuc 0);
  radiator_count = none;
  square_meters = some 4000;
  share_fraction = none;
}

abbrev flats : List (AllocatableUnit whole)
flats = flat "a" 600 ∷ flat "b" 400 ∷ []

abbrev flat_inputs : List SplitInput
flat_inputs = record { id = "a"; weight = 600 } ∷ record { id = "b"; weight = 400 } ∷ []

run_milimes : resolve_allocation_weights whole flats Strategy.milimes ≡ ok flat_inputs
unfolding resolve_allocation_weights
run_milimes = refl

-- A building whose units all lie below the ground floor has no elevator weights.
run_elevator :
    resolve_allocation_weights whole flats Strategy.elevator_floors
    ≡ err WeightError.zero_requirement
unfolding resolve_allocation_weights
run_elevator = refl

resolve_complete_example :
    (map (λ i. i.id) flat_inputs ≡ map (λ u. u.id) flats)
    × AreDistinct (map (λ u. u.id) flats)
    × HasTotal Strategy.milimes (total_weight flat_inputs)
resolve_complete_example = resolve_complete whole flats Strategy.milimes flat_inputs run_milimes

allocation_conserves_example :
    (out : List SplitResult) × (split_by_largest_remainder exact (pos 100) flat_inputs ≡ ok out)
    × (total (λ r. r.amount_cents) out ≡ 100)
    × (map (λ r. r.id) out ≡ map (λ u. u.id) flats)
allocation_conserves_example =
    allocation_conserves exact whole flats Strategy.milimes 100 flat_inputs exact-IsAccurate
      run_milimes (omega arith) (omega arith) (omega arith)

abbrev readings : List MeterConsumption
readings =
    record { unit_id = "a"; consumed = pos 7 } ∷ record { unit_id = "b"; consumed = pos 0 } ∷ []

run_meters :
    split_by_meter_reading exact (pos 90) readings
    ≡ ok (
        record { unit_id = "a"; amount_cents = 90 }
        ∷ record { unit_id = "b"; amount_cents = 0 }
        ∷ [])
unfolding split_by_meter_reading
run_meters = refl

run_missing :
    validate_all_units_have_readings ("a" ∷ "b" ∷ "c" ∷ []) ("b" ∷ [])
    ≡ err (MeterError.missing_readings ("a" ∷ "c" ∷ []))
unfolding validate_all_units_have_readings
run_missing = refl

meters_conserve_example :
    (out : List MeterShare) × (split_by_meter_reading exact (pos 90) readings ≡ ok out)
    × (total (λ s. s.amount_cents) out ≡ 90)
    × (map (λ s. s.unit_id) out ≡ map (λ m. m.unit_id) readings)
meters_conserve_example =
    meters_conserve exact 90 readings exact-IsAccurate (omega arith) (omega arith)
