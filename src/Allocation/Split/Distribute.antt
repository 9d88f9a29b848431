-- ===== src/Allocation/Split/Distribute.antt =====
-- The remainder loop of the splitter: what it adds in all, and to each amount.
use koinoxrista.Prelude.{
  ℕ, zero, suc, ◌+◌, ◌≤◌, ◌<◌, ◌≡◌, refl, List, [], ◌∷◌, arith, ◌==◌, if◌then◌else◌, length, get_or,
  sum, total, All,
}
use koinoxrista.Prelude.Int.{pos, ◌-ℤ◌}
use koinoxrista.Allocation.Float.{Float}
use koinoxrista.Allocation.Split.{bump, Candidate, candidates, distribute}

sum-bump : (xs : List ℕ) (i : ℕ) → i < length xs → sum (bump xs i) ≡ sum xs + 1
unfolding bump
sum-bump [] i h = elim h [ ]
sum-bump (x ∷ xs) zero h = omega arith
sum-bump (x ∷ xs) (suc i) h = omega (arith, sum-bump xs i (omega arith))

length-bump : (xs : List ℕ) (i : ℕ) → length (bump xs i) ≡ length xs
unfolding bump
length-bump [] i = refl
length-bump (x ∷ xs) zero = refl
length-bump (x ∷ xs) (suc i) = omega (arith, length-bump xs i)

abbrev pub hit : ℕ → ℕ → ℕ
hit i j = if i == j then 1 else 0

get_or-bump :
    (xs : List ℕ) (i j : ℕ)
    → (get_or xs j 0 ≤ get_or (bump xs i) j 0) × (get_or (bump xs i) j 0 ≤ get_or xs j 0 + hit i j)
unfolding bump
get_or-bump [] i j = ground arith
get_or-bump (x ∷ xs) zero zero = ground arith
get_or-bump (x ∷ xs) zero (suc j) = ground arith
get_or-bump (x ∷ xs) (suc i) zero = ground arith
get_or-bump (x ∷ xs) (suc i) (suc j) = ground (arith, get_or-bump xs i j)

pos-pred : (r : ℕ) → pos (suc r) -ℤ pos 1 ≡ pos r
unfolding ◌-ℤ◌
pos-pred r = ground arith

module _ (f : Float) where
  pub sum-distribute :
      (cs : List (Candidate f)) (r n : ℕ) (xs : List ℕ)
      → length xs ≡ n
      → All (λ c. c.index < n) cs
      → r ≤ length cs
      → sum (distribute f cs (pos r) xs) ≡ sum xs + r
  unfolding distribute
  sum-distribute [] zero n xs e h l = omega arith
  sum-distribute [] (suc r) n xs e h l = absurd (omega arith)
  sum-distribute (c ∷ cs) zero n xs e h l = omega arith
  sum-distribute (c ∷ cs) (suc r) n xs e h l = ground (
    arith,
    pos-pred r,
    sum-bump xs c.index,
    length-bump xs c.index,
    sum-distribute cs r n (bump xs c.index),
  )

  pub length-distribute :
      (cs : List (Candidate f)) (r : ℕ) (xs : List ℕ)
      → length (distribute f cs (pos r) xs) ≡ length xs
  unfolding distribute
  length-distribute [] r xs = refl
  length-distribute (c ∷ cs) zero xs = refl
  length-distribute (c ∷ cs) (suc r) xs =
      ground (arith, pos-pred r, length-bump xs c.index, length-distribute cs r (bump xs c.index))

  pub get_or-distribute :
      (cs : List (Candidate f)) (r : ℕ) (xs : List ℕ) (j : ℕ)
      → let ys = distribute f cs (pos r) xs in
        (get_or xs j 0 ≤ get_or ys j 0)
        × (get_or ys j 0 ≤ get_or xs j 0 + total (λ c. hit c.index j) cs)
  unfolding distribute
  get_or-distribute [] r xs j = omega arith
  get_or-distribute (c ∷ cs) zero xs j = omega arith
  get_or-distribute (c ∷ cs) (suc r) xs j =
      ground
        (arith, pos-pred r, get_or-bump xs c.index j, get_or-distribute cs r (bump xs c.index) j)

  pub candidates-All :
      (i n : ℕ) (ss : List f.Double)
      → i + length ss ≡ n
      → All (λ c. c.index < n) (candidates f i ss)
  unfolding candidates
  candidates-All i n [] e = tt
  candidates-All i n (s ∷ ss) e = (omega arith, candidates-All (i + 1) n ss (omega arith))

  pub length-candidates : (i : ℕ) (ss : List f.Double) → length (candidates f i ss) ≡ length ss
  unfolding candidates
  length-candidates i [] = refl
  length-candidates i (s ∷ ss) = omega (arith, length-candidates (i + 1) ss)

  -- Below its first index the list of candidates has none, and every index stands in it once.
  pub hit-candidates :
      (i j : ℕ) (ss : List f.Double)
      → let n = total (λ c. hit c.index j) (candidates f i ss) in (n ≤ 1) × (j < i → n ≡ 0)
  unfolding candidates
  hit-candidates i j [] = (omega arith, λ _. refl)
  hit-candidates i j (s ∷ ss) = ground (arith, hit-candidates (i + 1) j ss)
