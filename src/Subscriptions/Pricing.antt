-- ===== src/Subscriptions/Pricing.antt =====
-- Prices: libs/shared/src/lib/subscriptions.ts and apps/api/src/subscriptions/pricing.ts.
-- `Math.round` is taken exactly.
use koinoxrista.Prelude.{ℕ, ◌+◌, ◌-◌, ◌*◌, ◌/◌, ltb, Result, throw_if}

pub data Tier : Type 0 where
  basic pro premium : Tier

pub data Cycle : Type 0 where
  monthly annual : Cycle

-- `TIER_PRICES_CENTS`
abbrev pub tier_price : Tier → ℕ
tier_price basic = 150
tier_price pro = 225
tier_price premium = 300

abbrev pub annual_discount_bps : ℕ
annual_discount_bps = 1500

abbrev pub min_units : ℕ
min_units = 4

-- `periodTotalCents`, which `priceFor` passes on.
unfoldable pub period_total_cents : Tier → Cycle → ℕ → ℕ
period_total_cents tier monthly units = tier_price tier * units
period_total_cents tier annual units =
    (tier_price tier * units * 12 * (10_000 - annual_discount_bps) + 5_000) / 10_000

-- `assertMinimumUnits`
unfoldable pub assert_minimum_units : ℕ → Result (Unit {0}) (Unit {0})
assert_minimum_units units = throw_if (ltb units min_units) tt
