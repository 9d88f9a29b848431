-- ===== src/Allocation/Split/Exact.antt =====
-- The amounts of splitByLargestRemainder, apps/api/src/prisma/split-by-largest-remainder.ts.
use native.Mathlib.Nat.{le_of_mul-le-mul_left, mul-le-mul_left}
use koinoxrista.Prelude.{
  ℕ, zero, suc, ◌+◌, ◌-◌, ◌*◌, ◌^◌, ◌≤◌, ◌<◌, ◌≡◌, refl, sym, ap, ◌∙◌, some, List, [], ◌∷◌, map,
  arith, ok, length, length-map, get_or, get_elem?, sum, total, total_mono, total_scale, All,
}
use koinoxrista.Prelude.Int.{pos, ◌-ℤ◌}
use koinoxrista.Prelude.Sort.{sort, total-sort, sort-All}
use koinoxrista.Allocation.Float.{Float, IsAccurate}
use koinoxrista.Allocation.Split.{
  SplitInput, SplitResult, results, Candidate, candidates, before, distribute, shares, amounts_of,
  split_by_largest_remainder,
}
use koinoxrista.Allocation.Split.Distribute.{
  hit, sum-distribute, length-distribute, get_or-distribute, candidates-All, length-candidates,
  hit-candidates,
}

abbrev pub total_weight : List SplitInput → ℕ
total_weight inputs = total (λ j. j.weight) inputs

-- The weights have a positive total, and the numbers stay where doubles are accurate.
pub record Fits (t : ℕ) (inputs : List SplitInput) : Type 0 where
  pub has_weight : 0 < total_weight inputs
  pub weight_lt : total_weight inputs < 2 ^ 53
  pub total_lt : t < 2 ^ 53
  pub product_lt : total_weight inputs * t < 2 ^ 51

pos-sub : (a b : ℕ) → b ≤ a → pos a -ℤ pos b ≡ pos (a - b)
unfolding ◌-ℤ◌
pos-sub a b h = ground arith

module _ {A B : Type 0} (g : B → ℕ) (h : A → B) where
  sum-map-map : (xs : List A) → sum (map g (map h xs)) ≡ total (λ x. g (h x)) xs
  sum-map-map [] = refl
  sum-map-map (x ∷ xs) = ap (λ n. g (h x) + n) (sum-map-map xs)

  get_or-map-map :
      (xs : List A) (j : ℕ) {x : A}
      → get_elem? xs j ≡ some x
      → get_or (map g (map h xs)) j 0 ≡ g (h x)
  get_or-map-map [] j e = cc
  get_or-map-map (y ∷ ys) zero e = cc
  get_or-map-map (y ∷ ys) (suc j) e = get_or-map-map ys j e

mul_cancel : (w a b : ℕ) → 0 < w → w * a ≤ w * b → a ≤ b
mul_cancel w a b h e = le_of_mul-le-mul_left e h

total_suc :
    {A : Type 0} (g : A → ℕ) (xs : List A) → total (λ x. g x + 1) xs ≡ total g xs + length xs
total_suc g [] = omega arith
total_suc g (x ∷ xs) = omega (arith, total_suc g xs)

length-one : {A : Type 0} (xs : List A) → total (λ _. 1) xs ≡ length xs
length-one [] = refl
length-one (x ∷ xs) = omega (arith, length-one xs)

weights-le : (W : ℕ) (xs : List SplitInput) → total_weight xs ≤ W → All (λ i. i.weight ≤ W) xs
weights-le W [] h = tt
weights-le W (x ∷ xs) h = (omega arith, weights-le W xs (omega arith))

All-map_into :
    {A : Type 0} {P Q : A → Type 0} (xs : List A) → ((x : A) → P x → Q x) → All P xs → All Q xs
All-map_into [] k h = tt
All-map_into (x ∷ xs) k h = (k x h.0, All-map_into xs k h.1)

All-get_elem? :
    {A : Type 0} (P : A → Type 0) (xs : List A) (j : ℕ) {x : A}
    → All P xs
    → get_elem? xs j ≡ some x
    → P x
All-get_elem? P [] j h e = absurd (cc)
All-get_elem? P (y ∷ ys) zero h e = ground (arith, h.0)
All-get_elem? P (y ∷ ys) (suc j) h e = All-get_elem? P ys j h.1 e

ids-results :
    (inputs : List SplitInput) (amounts : List ℕ)
    → length amounts ≡ length inputs
    → (map (λ r. r.id) (results inputs amounts) ≡ map (λ i. i.id) inputs)
      × (total (λ r. r.amount_cents) (results inputs amounts) ≡ sum amounts)
unfolding results
ids-results [] [] e = (refl, refl)
ids-results [] (a ∷ as') e = absurd (omega arith)
ids-results (i ∷ is') [] e = absurd (omega arith)
ids-results (i ∷ is') (a ∷ as') e = ground (arith, ids-results is' as')

get_elem?-results :
    (inputs : List SplitInput) (amounts : List ℕ) (j : ℕ) {o : SplitResult}
    → get_elem? (results inputs amounts) j ≡ some o
    → o.amount_cents ≡ get_or amounts j 0
unfolding results
get_elem?-results [] amounts j e = cc
get_elem?-results (i ∷ is') [] j e = cc
get_elem?-results (i ∷ is') (a ∷ as') zero e = ground arith
get_elem?-results (i ∷ is') (a ∷ as') (suc j) e = get_elem?-results is' as' j e

split-runs :
    (f : Float) (t : ℕ) (inputs : List SplitInput)
    → 0 < total_weight inputs
    → split_by_largest_remainder f (pos t) inputs ≡ ok (results inputs (amounts_of f t inputs))
unfolding split_by_largest_remainder
split-runs f t [] h = absurd (omega arith)
split-runs f t (i ∷ is') h = ground arith

module _ (f : Float) (accurate : IsAccurate f) (t : ℕ) (inputs : List SplitInput)
    (fits : Fits t inputs) where
  abbrev W : ℕ
  W = total_weight inputs

  abbrev base : SplitInput → ℕ
  base i = f.floor (f.scale i.weight (f.quotient t W))

  bases-near : All (λ i. (W * base i ≤ t * i.weight) × (t * i.weight ≤ W * (base i + 1))) inputs
  bases-near =
      All-map_into inputs
        (λ i (le : i.weight ≤ W).
          let small : i.weight * t < 2 ^ 51 = grind (arith, fits.product_lt) in
          let a = accurate i.weight t W fits.has_weight fits.weight_lt fits.total_lt small in
          omega (arith, a.0, a.1))
        (weights-le W inputs (omega arith))

  -- The remainder after the floors is not negative, and there is a candidate for each cent of it.
  remainder-fits : (total base inputs ≤ t) × (t ≤ total base inputs + length inputs)
  remainder-fits =
      let low =
        total_mono (λ i. W * base i) (λ i. t * i.weight) inputs
          (All-map_into inputs (λ i p. p.0) bases-near) in
      let high =
        total_mono (λ i. t * i.weight) (λ i. W * (base i + 1)) inputs
          (All-map_into inputs (λ i p. p.1) bases-near) in
      let base_total = total_scale W base inputs in
      let weight_total = total_scale t (λ i. i.weight) inputs in
      let next_total = total_scale W (λ i. base i + 1) inputs in
      let counted : total (λ i. base i + 1) inputs ≡ total base inputs + length inputs =
        total_suc base inputs in
      (
        mul_cancel W (total base inputs) t fits.has_weight (omega arith),
        mul_cancel W t (total base inputs + length inputs) fits.has_weight
            (omega (arith, ap (λ (n : ℕ). W * n) counted)),
      )

  abbrev ss : List f.Double
  ss = shares f t inputs

  abbrev bases : List ℕ
  bases = map f.floor ss

  abbrev order : List (Candidate f)
  order = sort (before f) (candidates f 0 ss)

  length-bases : length bases ≡ length inputs
  length-bases = length-map f.floor ss ∙ length-map (λ i. f.scale i.weight (f.quotient t W)) inputs

  sum-bases : sum bases ≡ total base inputs
  sum-bases = sum-map-map f.floor (λ i. f.scale i.weight (f.quotient t W)) inputs

  length-order : length order ≡ length inputs
  length-order =
      sym (length-one order)
      ∙ total-sort (before f) (λ _. 1) (candidates f 0 ss)
      ∙ length-one (candidates f 0 ss)
      ∙ length-candidates f 0 ss
      ∙ length-map (λ i. f.scale i.weight (f.quotient t W)) inputs

  order-All : All (λ c. c.index < length inputs) order
  order-All =
      sort-All (before f) (λ c. c.index < length inputs) (candidates f 0 ss)
        (candidates-All f 0 (length inputs) ss (
          omega (arith, length-map (λ (i : SplitInput). f.scale i.weight (f.quotient t W)) inputs)))

  amounts-eq : amounts_of f t inputs ≡ distribute f order (pos (t - sum bases)) bases
  unfolding amounts_of
  amounts-eq =
      ap (λ r. distribute f order r bases)
        (pos-sub t (sum bases) (omega (arith, sum-bases, remainder-fits)))

  sum-amounts : sum (amounts_of f t inputs) ≡ t
  sum-amounts =
      ap sum amounts-eq
      ∙ sum-distribute f order (t - sum bases) (length inputs) bases length-bases order-All
          (omega (arith, sum-bases, remainder-fits, length-order))
      ∙ omega (arith, sum-bases, remainder-fits)

  length-amounts : length (amounts_of f t inputs) ≡ length inputs
  length-amounts =
      ap length amounts-eq ∙ length-distribute f order (t - sum bases) bases ∙ length-bases

  -- Each amount is the floor of its share, or one cent more.
  amount-near :
      (j : ℕ) {i : SplitInput}
      → get_elem? inputs j ≡ some i
      → (base i ≤ get_or (amounts_of f t inputs) j 0)
        × (get_or (amounts_of f t inputs) j 0 ≤ base i + 1)
  amount-near j {i} e =
      let once = total-sort (before f) (λ c. hit c.index j) (candidates f 0 ss) in
      let at_j =
        get_or-map-map f.floor (λ (k : SplitInput). f.scale k.weight (f.quotient t W)) inputs j e in
      rw amounts-eq (
        omega (
          arith,
          at_j,
          once,
          hit-candidates f 0 j ss,
          get_or-distribute f order (t - sum bases) bases j,
        ))

-- For amounts and weights in range the splitter returns, one result for each input in order, and
-- the amounts add up to exactly the amount that was split.
pub split_conserves :
    (f : Float) (t : ℕ) (inputs : List SplitInput)
    → IsAccurate f
    → Fits t inputs
    → (out : List SplitResult) × (split_by_largest_remainder f (pos t) inputs ≡ ok out)
      × (total (λ r. r.amount_cents) out ≡ t)
      × (map (λ r. r.id) out ≡ map (λ i. i.id) inputs)
split_conserves f t inputs accurate fits =
    let amounts = amounts_of f t inputs in
    let (ids, summed) = ids-results inputs amounts (length-amounts f accurate t inputs fits) in
    (
      results inputs amounts,
      split-runs f t inputs fits.has_weight,
      summed ∙ sum-amounts f accurate t inputs fits,
      ids,
    )

-- For amounts and weights in range, the amount at each place of the result differs by at most one
-- cent from the exact share of the input at that place, which is amount * weight / total weight.
pub split_near :
    (f : Float) (t : ℕ) (inputs : List SplitInput) (out : List SplitResult) (j : ℕ) {i : SplitInput}
    {o : SplitResult}
    → IsAccurate f
    → Fits t inputs
    → split_by_largest_remainder f (pos t) inputs ≡ ok out
    → get_elem? inputs j ≡ some i
    → get_elem? out j ≡ some o
    → (o.amount_cents * total_weight inputs ≤ t * i.weight + total_weight inputs)
      × (t * i.weight ≤ o.amount_cents * total_weight inputs + total_weight inputs)
split_near f t inputs out j {i} {o} accurate fits run ei eo =
    let w : ℕ = total_weight inputs in
    let got : ℕ = get_or (amounts_of f t inputs) j 0 in
    let same : out ≡ results inputs (amounts_of f t inputs) =
      cc (split-runs f t inputs fits.has_weight) in
    let amount : o.amount_cents ≡ got =
      get_elem?-results inputs (amounts_of f t inputs) j (rw same at eo) in
    let floors = All-get_elem? _ inputs j (bases-near f accurate t inputs fits) ei in
    let near = amount-near f accurate t inputs fits j ei in
    let low = mul-le-mul_left w near.0 in
    let high = mul-le-mul_left w near.1 in rw amount (omega (arith, floors, low, high))
