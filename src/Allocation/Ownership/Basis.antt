-- ===== src/Allocation/Ownership/Basis.antt =====
-- Resolved bases and totals of libs/shared/src/lib/ownership-weights.ts.
use koinoxrista.Prelude.{
  suc, ◌≡◌, refl, sym, ◌≢◌, ◌⊎◌, inl, inr, Bool, true, false, not, List, [], ◌∷◌, arith,
  if◌then◌else◌, Bool-cases, Option-cases, length, All, filter, any, any-false, Result, ok, err,
  ◌>>=◌, ◌>>◌, >>=-eq-ok, ok-injective,
}
use koinoxrista.Prelude.Int.{ℤ, pos, ◌+ℤ◌, ◌≤ℤ◌, +ℤ_parts}
use koinoxrista.Allocation.Weights.{Area, is_safe}
use koinoxrista.Allocation.Ownership.{
  OwnershipBasis, millimes, share_fraction, square_meters, OwnershipError, WeightedUnit, has_area,
  has_share, has_value, assert_complete, resolve_ownership_basis, unit_ownership_weight,
  add_weights, total_ownership_weight,
}

none_missing :
    {A : Type 0} (p : A → Bool) (xs : List A)
    → length (filter (λ x. not (p x)) xs) ≡ 0
    → All (λ x. p x ≡ true) xs
none_missing p [] h = tt
none_missing p (x ∷ xs) h = (ground arith, none_missing p xs (ground arith))

abbrev choose :
    Bool
    → Bool
    → Result OwnershipError (Unit {0})
    → Result OwnershipError (Unit {0})
    → Result OwnershipError OwnershipBasis
choose shares areas check_shares check_areas =
    if shares
    then check_shares >> (if areas then check_areas else ok tt) >> ok share_fraction
    else if areas
    then check_areas >> ok square_meters
    else ok millimes

-- Which checks a basis has passed.
abbrev Passed :
    Bool
    → Bool
    → Result OwnershipError (Unit {0})
    → Result OwnershipError (Unit {0})
    → OwnershipBasis
    → Type 0
Passed shares areas check_shares check_areas share_fraction =
    (check_shares ≡ ok tt) × ((check_areas ≡ ok tt) ⊎ (areas ≡ false))
Passed shares areas check_shares check_areas square_meters =
    (check_areas ≡ ok tt) × (shares ≡ false)
Passed shares areas check_shares check_areas millimes = (areas ≡ false) × (shares ≡ false)

choose-Passed :
    (shares areas : Bool) (cs ca : Result OwnershipError (Unit {0})) (basis : OwnershipBasis)
    → choose shares areas cs ca ≡ ok basis
    → Passed shares areas cs ca basis
choose-Passed true areas (err e) ca basis h = cc
choose-Passed true true (ok x) (err e) basis h = cc
choose-Passed true true (ok x) (ok y) basis h = rw (sym (ok-injective h)) (refl, inl refl)
choose-Passed true false (ok x) ca basis h = rw (sym (ok-injective h)) (refl, inr refl)
choose-Passed false true cs (err e) basis h = cc
choose-Passed false true cs (ok x) basis h = rw (sym (ok-injective h)) (refl, refl)
choose-Passed false false cs ca basis h = rw (sym (ok-injective h)) (refl, refl)

module _ (area : Area) where
  complete-All :
      (units : List (WeightedUnit area)) (basis : OwnershipBasis)
      → assert_complete area units basis ≡ ok tt
      → All (λ u. has_value area basis u ≡ true) units
  unfolding assert_complete
  complete-All units basis h = none_missing (has_value area basis) units (ground arith)

  -- What the units provide for a basis.
  abbrev pub Provides : OwnershipBasis → List (WeightedUnit area) → Type 0
  Provides share_fraction units =
      All (λ u. has_share area u ≡ true) units
      × (All (λ u. has_area area u ≡ true) units ⊎ All (λ u. has_area area u ≡ false) units)
  Provides square_meters units =
      All (λ u. has_area area u ≡ true) units × All (λ u. has_share area u ≡ false) units
  Provides millimes units =
      All (λ u. has_area area u ≡ false) units × All (λ u. has_share area u ≡ false) units

  -- A basis that is resolved says which data the units have: where it is by shares, every unit has
  -- a share, and all units have an area or none has; where it is by areas, every unit has an area
  -- and none has a share; where it is by thousandths, no unit has an area or a share, and nothing
  -- is said of the thousandths themselves.
  pub resolve-Provides :
      (units : List (WeightedUnit area)) (basis : OwnershipBasis)
      → resolve_ownership_basis area units ≡ ok basis
      → Provides basis units
  unfolding resolve_ownership_basis
  resolve-Provides units basis h = provided units basis (
      choose-Passed (any (has_share area) units) (any (has_area area) units)
        (assert_complete area units share_fraction) (assert_complete area units square_meters) basis
        h)
    where
      provided :
          (units : List (WeightedUnit area)) (basis : OwnershipBasis)
          → Passed
              (any (has_share area) units)
              (any (has_area area) units)
              (assert_complete area units share_fraction)
              (assert_complete area units square_meters)
              basis
          → Provides basis units
      provided units share_fraction (c, inl d) =
          (complete-All units share_fraction c, inl (complete-All units square_meters d))
      provided units share_fraction (c, inr d) =
          (complete-All units share_fraction c, inr (any-false (has_area area) units d))
      provided units square_meters (c, d) =
          (complete-All units square_meters c, any-false (has_share area) units d)
      provided units millimes (c, d) =
          (any-false (has_area area) units c, any-false (has_share area) units d)

  weight_positive :
      (basis : OwnershipBasis) (u : WeightedUnit area) (w : ℤ)
      → basis ≢ square_meters
      → has_value area basis u ≡ true
      → unit_ownership_weight area basis u ≡ ok w
      → pos 1 ≤ℤ w
  unfolding unit_ownership_weight
  weight_positive square_meters u w b v h = absurd (b refl)
  weight_positive share_fraction u w b v h = elim (Option-cases u.share_fraction) [
    | inl e ↦ ground (arith, e)
    | inr (n, e) ↦ ground (arith, e)
  ]
  weight_positive millimes u w b v h = ground arith

  sum_at_least :
      (basis : OwnershipBasis) (us : List (WeightedUnit area)) (start whole : ℤ)
      → basis ≢ square_meters
      → All (λ u. has_value area basis u ≡ true) us
      → add_weights area basis us start ≡ ok whole
      → pos (length us) +ℤ start ≤ℤ whole
  unfolding add_weights
  sum_at_least basis [] start whole b v h =
      rw (sym (ok-injective h)) (omega (arith, +ℤ_parts (pos 0) start))
  sum_at_least basis (u ∷ us) start whole b v h =
      let (w, weighed, rest) =
        >>=-eq-ok (unit_ownership_weight area basis u) (λ w. add_weights area basis us (start +ℤ w))
          h in
      omega (
        arith,
        sum_at_least basis us (start +ℤ w) whole b v.1 rest,
        weight_positive basis u w b v.0 weighed,
        +ℤ_parts start w,
        +ℤ_parts (pos (length us)) (start +ℤ w),
        +ℤ_parts (pos (suc (length us))) start,
      )

  -- The total of a basis by shares or thousandths is at least the number of units, and it
  -- is in the safe range.
  pub total_at_least :
      (units : List (WeightedUnit area)) (basis : OwnershipBasis) (whole : ℤ)
      → basis ≢ square_meters
      → total_ownership_weight area units basis ≡ ok whole
      → (pos (length units) ≤ℤ whole) × (is_safe whole ≡ true)
  unfolding total_ownership_weight
  total_at_least units basis whole b h =
      let (_, checked, rest) =
        >>=-eq-ok (assert_complete area units basis)
          (λ _. add_weights area basis units (pos 0) >>= λ n.
            if is_safe n then ok n else err OwnershipError.total_unsafe)
          h in
      let (n, added, safe) =
        >>=-eq-ok (add_weights area basis units (pos 0))
          (λ n. if is_safe n then ok n else err OwnershipError.total_unsafe) rest in
      let (same, range) = safe_sum n whole safe in
      rw (sym same) (
        omega (
          arith,
          sum_at_least basis units (pos 0) n b (complete-All units basis checked) added,
          +ℤ_parts (pos (length units)) (pos 0),
        ),
        range,
      )
    where
      safe_sum :
          (n m : ℤ)
          → (if is_safe n then ok n else err OwnershipError.total_unsafe) ≡ ok m
          → (n ≡ m) × (is_safe n ≡ true)
      safe_sum n m h = elim (Bool-cases (is_safe n)) [
        | inl t ↦ (ground (arith, t), t)
        | inr f ↦ ground (arith, f)
      ]
