-- ===== src/Allocation/Ownership/Tests.antt =====
-- A building by shares.
use koinoxrista.Prelude.{ℕ, ◌≡◌, refl, Option, none, some, List, [], ◌∷◌, ltb, ok, err}
use koinoxrista.Prelude.Int.{ℤ, pos, ◌+ℤ◌}
use koinoxrista.Allocation.Weights.{Area}
use koinoxrista.Allocation.Ownership.{
  OwnershipBasis, OwnershipError, WeightedUnit, assert_complete, resolve_ownership_basis,
  unit_ownership_weight, add_weights, total_ownership_weight,
}
use koinoxrista.Allocation.Ownership.Basis.{Provides, resolve-Provides}

-- Areas in hundredths.
abbrev hundredth : Area
hundredth = record { Meters = ℕ; hundredths = λ n. pos n; is_positive = λ n. ltb 0 n }

abbrev flat : ℤ → Option ℤ → WeightedUnit hundredth
flat m s = record { millimes = m; square_meters = none; share_fraction = s }

abbrev flats : List (WeightedUnit hundredth)
flats = flat (pos 500) (some (pos 7)) ∷ flat (pos 500) (some (pos 5)) ∷ []

run_basis : resolve_ownership_basis hundredth flats ≡ ok OwnershipBasis.share_fraction
unfolding resolve_ownership_basis assert_complete
run_basis = refl

run_half :
    resolve_ownership_basis hundredth (flat (pos 500) none ∷ flats)
    ≡ err (OwnershipError.incomplete OwnershipBasis.share_fraction)
unfolding resolve_ownership_basis assert_complete
run_half = refl

abbrev empty_flat : List (WeightedUnit hundredth)
empty_flat = flat (pos 0) none ∷ []

-- Thousandths of zero resolve to a basis that is then refused as incomplete.
run_thousandths : resolve_ownership_basis hundredth empty_flat ≡ ok OwnershipBasis.millimes
unfolding resolve_ownership_basis
run_thousandths = refl

run_refused :
    assert_complete hundredth empty_flat OwnershipBasis.millimes
    ≡ err (OwnershipError.incomplete OwnershipBasis.millimes)
unfolding assert_complete
run_refused = refl

run_total : total_ownership_weight hundredth flats OwnershipBasis.share_fraction ≡ ok (pos 12)
unfolding total_ownership_weight assert_complete add_weights unit_ownership_weight ◌+ℤ◌
run_total = refl

resolve-Provides_example : Provides hundredth OwnershipBasis.share_fraction flats
resolve-Provides_example = resolve-Provides hundredth flats OwnershipBasis.share_fraction run_basis
