-- ===== src/Fees/LateFee.antt =====
-- The amount of a late fee: apps/api/src/late-fees/late-fee-calc.ts. `Math.round` of the quotient
-- is taken exactly, as it is in doubles while the product stays below 2 ^ 50.
pub mod Amount
use koinoxrista.Prelude.{
  ℕ, zero, suc, ◌+◌, ◌-◌, ◌*◌, ◌/◌, ◌%◌, ◌^◌, ◌≤◌, ◌<◌, min, max, String, ◌≡◌, refl, sym, ap, ◌∙◌,
  ◌≢◌, ◌↔◌, ◌⊎◌, inl, inr, Bool, true, false, not, ◌&&◌, ◌||◌, Option, none, some, List, [], ◌∷◌,
  ◌++◌, map, arith, ltb, leb, ◌==◌, if◌then◌else◌, ltb→lt, lt→ltb, leb→le, ==_iff, ==_refl,
  Bool-cases, Option-cases, length, get_elem?, take, get_or, length-append, length-map, total,
  total-append, total_scale, All, filter, All-append, total_mono, any, all, any-false, all-true,
  sum, sum-map, Result, ok, err, ◌>>=◌, ◌>>◌, throw_if, throw_if-ok, >>=-eq-ok, ok-injective,
}
use koinoxrista.Prelude.Int.{
  ℤ, pos, negsuc, pos_part, neg_part, sub_ℕ, ◌+ℤ◌, ◌-ℤ◌, ◌≤ℤ◌, ltb_ℤ, leb_ℤ, min_ℤ, max_ℤ, int_laws,
  pos_part-eq, +ℤ_parts, -ℤ_parts, eq_of_parts,
}
use koinoxrista.Prelude.Sort.{insert, sort, total-sort, sort-All, IsSorted, sort-IsSorted}
use koinoxrista.Prelude.Tables.{
  find, count, update_many, update_many-none, count_mono, update_many-All, find-holds, find-only,
}
use text.Mathlib.Text.{◌==◌ as str_eq}
use text.Mathlib.TextEquality.{eq_iff}
use text.Mathlib.TextPositions.{eq_refl}
use koinoxrista.Period.{Text, PeriodError, Month, parse_period}

pub data LateFeeMode : Type 0 where
  flat percent : LateFeeMode

-- The rates and the cap are validated to be no less than zero.
pub record LateFeeSettings : Type 0 where
  pub mode : LateFeeMode
  pub daily_flat_cents : ℕ
  pub daily_bps : ℕ
  pub cap_cents : Option ℕ

-- `Math.round(n / d)`
abbrev pub round_div : ℕ → ℕ → ℕ
round_div n d = (2 * n + d) / (2 * d)

unfoldable pub raw_fee : LateFeeSettings → ℕ → ℕ → ℕ
raw_fee s outstanding days = elim s.mode [
  | percent ↦ round_div (outstanding * s.daily_bps * days) 10_000
  | flat ↦ s.daily_flat_cents * days
]

abbrev pub capped : Option ℕ → ℕ → ℕ
capped none raw = raw
capped (some cap) raw = min raw cap

-- `computeLateFee`
unfoldable pub compute_late_fee : LateFeeSettings → ℤ → ℤ → ℕ
compute_late_fee s outstanding days =
    if leb_ℤ outstanding (pos 0) || leb_ℤ days (pos 0)
    then 0
    else capped s.cap_cents (raw_fee s (pos_part outstanding) (pos_part days))

abbrev pub ms_per_day : ℕ
ms_per_day = 86_400_000

-- `wholeDaysBetween`
unfoldable pub whole_days_between : (later earlier : ℤ) → ℤ
whole_days_between later earlier = elim (later -ℤ earlier) [
  | pos n ↦ pos (n / ms_per_day)
  | negsuc n ↦ negsuc (n / ms_per_day)
]

-- `dueMomentForPeriod`, of a period that parses: the day after the month; `date_utc` is `Date.UTC`
-- of a year and a month counted from 0, on its first day.
unfoldable pub due_moment_for_period : (ℕ → ℕ → ℤ) → Month → ℤ
due_moment_for_period date_utc m = date_utc m.year m.month
