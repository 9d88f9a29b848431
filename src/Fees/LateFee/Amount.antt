-- ===== src/Fees/LateFee/Amount.antt =====
-- The size of computeLateFee, apps/api/src/late-fees/late-fee-calc.ts.
use koinoxrista.Prelude.{ℕ, ◌+◌, ◌*◌, ◌≤◌, ◌<◌, ◌≡◌, none, some, arith}
use koinoxrista.Prelude.Int.{ℤ, pos, pos_part, ◌≤ℤ◌}
use koinoxrista.Fees.LateFee.{flat, percent, LateFeeSettings, round_div, raw_fee, compute_late_fee}

mul_mono : (a b c d : ℕ) → a ≤ b → c ≤ d → a * c ≤ b * d
mul_mono a b c d h k = grind arith

round_mono : (a b : ℕ) → a ≤ b → round_div a 10_000 ≤ round_div b 10_000
round_mono a b h = omega (arith, h)

round_near :
    (n : ℕ)
    → (2 * n ≤ 20_000 * round_div n 10_000 + 10_000)
      × (20_000 * round_div n 10_000 ≤ 2 * n + 10_000)
round_near n = (omega arith, omega arith)

raw_mono : (s : LateFeeSettings) (o o' d d' : ℕ) → o ≤ o' → d ≤ d' → raw_fee s o d ≤ raw_fee s o' d'
unfolding raw_fee
raw_mono s o o' d d' h k =
    elim s.mode
      as (λ m.
        (elim m [
          | percent ↦ round_div (o * s.daily_bps * d) 10_000
          | flat ↦ s.daily_flat_cents * d
        ])
        ≤ (elim m [
          | percent ↦ round_div (o' * s.daily_bps * d') 10_000
          | flat ↦ s.daily_flat_cents * d'
        ])) [
          | percent ↦ round_mono (o * s.daily_bps * d) (o' * s.daily_bps * d') (
              mul_mono (o * s.daily_bps) (o' * s.daily_bps) d d'
                (mul_mono o o' s.daily_bps s.daily_bps h (omega arith)) k)
          | flat ↦ mul_mono s.daily_flat_cents s.daily_flat_cents d d' (omega arith) k
        ]

-- A larger unpaid balance or more late days never lower the fee.
pub late_fee_mono :
    (s : LateFeeSettings) (outstanding more days later : ℤ)
    → outstanding ≤ℤ more
    → days ≤ℤ later
    → compute_late_fee s outstanding days ≤ compute_late_fee s more later
unfolding compute_late_fee
late_fee_mono s outstanding more days later h k =
    ground
      (arith, raw_mono s (pos_part outstanding) (pos_part more) (pos_part days) (pos_part later))

-- The fee is at most the cap, where there is one.
pub late_fee_capped :
    (s : LateFeeSettings) (outstanding days : ℤ) (cap : ℕ)
    → s.cap_cents ≡ some cap
    → compute_late_fee s outstanding days ≤ cap
unfolding compute_late_fee
late_fee_capped s outstanding days cap h = rw h (ground arith)

-- Without a cap, the fee on a positive balance that is late in PERCENT mode is within half a cent
-- of the balance times the daily rate times the days.
pub late_fee_near :
    (s : LateFeeSettings) (outstanding days : ℕ)
    → s.mode ≡ percent
    → s.cap_cents ≡ none
    → 0 < outstanding
    → 0 < days
    → let exact = outstanding * s.daily_bps * days in
      let fee = compute_late_fee s (pos outstanding) (pos days) in
      (2 * exact ≤ 20_000 * fee + 10_000) × (20_000 * fee ≤ 2 * exact + 10_000)
unfolding compute_late_fee raw_fee
late_fee_near s outstanding days m c o d =
    rw (c, m) (ground (arith, round_near (outstanding * s.daily_bps * days)))
