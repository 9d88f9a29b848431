-- ===== src/Allocation/Float.antt =====
-- The double-precision arithmetic of the splitter
-- (apps/api/src/prisma/split-by-largest-remainder.ts): what it does with a `number` that need not
-- be whole.
use koinoxrista.Prelude.{ℕ, ◌+◌, ◌*◌, ◌/◌, ◌%◌, ◌^◌, ◌≤◌, ◌<◌, Bool, arith, ltb}

pub record Float : Type 1 where
  pub Double : Type 0
  -- a / b
  pub quotient : ℕ → ℕ → Double
  -- w * x
  pub scale : ℕ → Double → Double
  -- Math.floor
  pub floor : Double → ℕ
  -- x - n
  pub minus : Double → ℕ → Double
  -- x < y
  pub less : Double → Double → Bool

-- The two roundings of `w * (t / W)` are off by less than one part in 2 ^ 51, so while `w * t`
-- stays below 2 ^ 51 the floor is that of the exact quotient, or one less where that quotient is
-- whole.
abbrev pub IsAccurate : Float → Type 0
IsAccurate f =
    (w t W : ℕ)
    → 0 < W
    → W < 2 ^ 53
    → t < 2 ^ 53
    → w * t < 2 ^ 51
    → (f.floor (f.scale w (f.quotient t W)) * W ≤ w * t)
      × (w * t ≤ f.floor (f.scale w (f.quotient t W)) * W + W)

-- Exact fractions, a numerator over a denominator, satisfy it.
abbrev pub exact : Float
exact = record {
  Double = record { num : ℕ; den : ℕ };
  quotient = λ a b. record { num = a; den = b };
  scale = λ w x. record { num = w * x.num; den = x.den };
  floor = λ x. x.num / x.den;
  minus = λ x n. record { num = x.num % x.den; den = x.den };
  less = λ x y. ltb (x.num * y.den) (y.num * x.den);
}

pub exact-IsAccurate : IsAccurate exact
exact-IsAccurate w t W pos_W _ _ _ = (grind arith, grind arith)
