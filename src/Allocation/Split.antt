-- ===== src/Allocation/Split.antt =====
-- The largest-remainder splitter, apps/api/src/prisma/split-by-largest-remainder.ts. Every caller
-- passes integer weights that are not negative, so weights are numbers and `Math.round` of one is
-- it.
pub mod Distribute
pub mod Exact
use koinoxrista.Prelude.{
  ℕ, zero, suc, ◌+◌, ◌≡◌, Bool, not, ◌&&◌, ◌||◌, String, List, [], ◌∷◌, map, ltb, ◌==◌,
  if◌then◌else◌, Result, ok, err, total, sum,
}
use koinoxrista.Prelude.Int.{ℤ, pos, negsuc, ◌-ℤ◌}
use koinoxrista.Prelude.Sort.{sort}
use koinoxrista.Allocation.Float.{Float}

pub record SplitInput : Type 0 where
  pub id : String
  pub weight : ℕ

pub record SplitResult : Type 0 where
  pub id : String
  pub amount_cents : ℕ

pub data SplitError : Type 0 where
  bad_total bad_weights : SplitError

-- `amounts[i] += 1`
pub bump : List ℕ → ℕ → List ℕ
bump [] i = []
bump (a ∷ as') zero = (a + 1) ∷ as'
bump (a ∷ as') (suc i) = a ∷ bump as' i

-- `remainder === 0`
abbrev pub is_zero : ℤ → Bool
is_zero (pos n) = n == 0
is_zero (negsuc n) = ltb 1 0

-- The ids of the inputs beside the amounts at the same index.
pub results : List SplitInput → List ℕ → List SplitResult
results [] amounts = []
results (i ∷ is') [] = []
results (i ∷ is') (a ∷ as') = record { id = i.id; amount_cents = a } ∷ results is' as'

module _ (f : Float) where
  open f use {Double, quotient, scale, floor, minus, less}

  abbrev pub Candidate : Type 0
  Candidate = record { index : ℕ; fraction : Double }

  -- `distributionOrder` before it is sorted, from the index `i` on.
  pub candidates : ℕ → List Double → List Candidate
  candidates i [] = []
  candidates i (s ∷ ss) = record { index = i; fraction = minus s (floor s) } ∷ candidates (i + 1) ss

  -- The comparator: the larger fraction first, then the smaller index.
  pub before : Candidate → Candidate → Bool
  before a b =
      less b.fraction a.fraction || (not (less a.fraction b.fraction) && ltb a.index b.index)

  -- The loop over `distributionOrder`.
  pub distribute : List Candidate → ℤ → List ℕ → List ℕ
  unfolding bump
  distribute [] remainder amounts = amounts
  distribute (c ∷ cs) remainder amounts =
      if is_zero remainder
      then amounts
      else distribute cs (remainder -ℤ pos 1) (bump amounts c.index)

  abbrev pub shares : ℕ → List SplitInput → List Double
  shares t inputs = map (λ i. scale i.weight (quotient t (total (λ j. j.weight) inputs))) inputs

  -- The amounts, in the order of the inputs.
  unfoldable pub amounts_of : ℕ → List SplitInput → List ℕ
  unfolding distribute candidates before sort ◌-ℤ◌
  amounts_of t inputs =
      let bases = map floor (shares t inputs) in
      distribute (sort before (candidates 0 (shares t inputs))) (pos t -ℤ pos (sum bases)) bases

  -- `splitByLargestRemainder`
  unfoldable pub split_by_largest_remainder :
      ℤ → List SplitInput → Result SplitError (List SplitResult)
  unfolding amounts_of results
  split_by_largest_remainder (negsuc n) inputs = err SplitError.bad_total
  split_by_largest_remainder (pos t) [] = ok []
  split_by_largest_remainder (pos t) (i ∷ is') =
      let inputs : List SplitInput = i ∷ is' in
      if total (λ j. j.weight) inputs == 0
      then err SplitError.bad_weights
      else ok (results inputs (amounts_of t inputs))
