-- ===== src/Period/Tests.antt =====
-- Runs of the period helpers, on the character codes of a text.
use koinoxrista.Prelude.{◌*◌, ◌+◌, String, ◌≡◌, refl, ◌↔◌, [], ◌∷◌, arith, ok, err}
use koinoxrista.Prelude.Int.{negsuc, ◌+ℤ◌}
use Prim.Native.Char.{code}
use koinoxrista.Period.{
  Text, Month, PeriodError, parse_period, format_period, next_period, previous_period, add_periods,
  index, decimal, pad_start,
}
use koinoxrista.Prelude.{◌*◌, ◌≤◌, List, some, Result, length, ◌-◌}
use koinoxrista.Prelude.Int.{pos, ◌≤ℤ◌}
use koinoxrista.Period.{compare_periods, period_range, range_from, text_eq, order}
use koinoxrista.Period.Range.{AreConsecutive, period_range_ends, period_range-AreConsecutive}
use koinoxrista.Period.Months.{
  period_roundtrip, add_periods_lem, next_period_lem, next_period_short,
}

abbrev codes : String → Text
codes String.[] = []
codes (String.◌∷◌ c s) = code c ∷ codes s

run_next : next_period (codes "2025-12") ≡ ok (codes "2026-01")
unfolding next_period parse_period decimal pad_start
run_next = refl

run_previous : previous_period (codes "2026-01") ≡ ok (codes "2025-12")
unfolding previous_period parse_period decimal pad_start
run_previous = refl

run_next_short : next_period (codes "0009-05") ≡ ok (codes "9-06")
unfolding next_period parse_period decimal pad_start
run_next_short = refl

run_bad : parse_period (codes "2026-13") ≡ err PeriodError.invalid
unfolding parse_period
run_bad = refl

abbrev may : Month
may = record { year = 2026; month = 5 }

parse_may : parse_period (codes "2026-05") ≡ ok may
unfolding parse_period
parse_may = refl

period_roundtrip_example :
    (((parse_period (codes "2026-05") ≡ ok may) × (pos 0 ≤ℤ pos 2026))
      ↔ ((format_period (pos 2026) 4 ≡ ok (codes "2026-05")) × (1 ≤ 5) × (5 ≤ 12)))
    × (((u : Text) × (format_period (pos 2026) 4 ≡ ok u))
        ↔ ((pos 1 ≤ℤ pos 2026) × (pos 2026 ≤ℤ pos 9999)))
period_roundtrip_example = period_roundtrip (codes "2026-05") (pos 2026) 5

add_periods_lem_example :
    (u : Text) × (q : Month) × (add_periods (codes "2026-05") (negsuc 5) ≡ ok u)
    × (parse_period u ≡ ok q)
    × (index q ≡ 24_310)
add_periods_lem_example =
    add_periods_lem (codes "2026-05") (negsuc 5) 24_310 parse_may refl (unfold ◌+ℤ◌ in refl)
      (omega arith) (omega arith)

next_period_lem_example :
    (u : Text) × (q : Month) × (next_period (codes "2026-05") ≡ ok u)
    × (parse_period u ≡ ok q)
    × (index q ≡ index may + 1)
next_period_lem_example = next_period_lem (codes "2026-05") parse_may (omega arith) (omega arith)

abbrev early : Month
early = record { year = 9; month = 5 }

parse_early : parse_period (codes "0009-05") ≡ ok early
unfolding parse_period
parse_early = refl

next_period_short_example :
    (u : Text) × (next_period (codes "0009-05") ≡ ok u) × (parse_period u ≡ err PeriodError.invalid)
next_period_short_example = next_period_short (codes "0009-05") parse_early (omega arith)

parse_start : parse_period (codes "2025-11") ≡ ok (record { year = 2025; month = 11 })
unfolding parse_period
parse_start = refl

parse_end : parse_period (codes "2026-02") ≡ ok (record { year = 2026; month = 2 })
unfolding parse_period
parse_end = refl

run_range :
    period_range (codes "2025-11") (codes "2026-02") (pos 4)
    ≡ some (ok (codes "2025-11" ∷ codes "2025-12" ∷ codes "2026-01" ∷ codes "2026-02" ∷ []))
unfolding period_range compare_periods order parse_period range_from text_eq next_period decimal
    pad_start
run_range = refl

run_range_short :
    period_range (codes "2025-11") (codes "2026-02") (pos 3) ≡ some (err PeriodError.too_many)
unfolding period_range compare_periods order parse_period range_from text_eq next_period decimal
    pad_start
run_range_short = refl

period_range_ends_example :
    (r : Result PeriodError (List Text)) × (period_range
        (codes "0009-05")
        (codes "2026-02")
        (pos 1200)
      ≡ some r)
period_range_ends_example = period_range_ends (codes "0009-05") (codes "2026-02") (pos 1200)

period_range-AreConsecutive_example :
    (ts : List Text) × (period_range (codes "2025-11") (codes "2026-02") (pos 1200) ≡ some (ok ts))
    × AreConsecutive (2025 * 12 + 10) ts
    × (length ts ≡ 2026 * 12 + 1 - (2025 * 12 + 10) + 1)
period_range-AreConsecutive_example =
    period_range-AreConsecutive (codes "2025-11") (codes "2026-02") 1200 parse_start parse_end
      (omega arith) (omega arith) (omega arith) (omega arith)
