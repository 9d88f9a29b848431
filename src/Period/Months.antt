-- ===== src/Period/Months.antt =====
-- Periods as months counted from year 0: steps, sums and the order.
use koinoxrista.Prelude.{
  ℕ, ◌+◌, ◌/◌, ◌%◌, ◌≤◌, ◌<◌, ◌≡◌, refl, sym, ap, ◌∙◌, ◌↔◌, ◌⊎◌, inl, inr, true, false, ◌&&◌, [],
  ◌∷◌, ◌++◌, arith, ◌==◌, if◌then◌else◌, Bool-cases, Result, ok, err, ok-injective, if-eq-err, ltb,
  ◌||◌, ◌-◌,
}
use koinoxrista.Prelude.Int.{ℤ, pos, negsuc, pos_part, ◌+ℤ◌, ◌≤ℤ◌}
use native.Mathlib.Decide.{dec_lt}
use koinoxrista.Period.{
  Text, Month, PeriodError, parse_period, decimal, pad_start, print, format_period, next_period,
  index, is_safe, print_index, add_periods, Order, less, same, more, order, compare_periods,
}
use koinoxrista.Period.Text.{
  IsPeriod, canonical, text, print-text, parse-text, parse-IsPeriod, pad-month, decimal-small,
  decimal-two, decimal-three, decimal-four,
}

-- The text of a month that exists, and the month of a text.
pub print_roundtrip :
    (t : Text) (y m : ℕ)
    → 1 ≤ y
    → y ≤ 9999
    → 1 ≤ m
    → m ≤ 12
    → (parse_period (print y m) ≡ ok (record { year = y; month = m }))
      × ((t ≡ print y m) ↔ (parse_period t ≡ ok (record { year = y; month = m })))
print_roundtrip t y m hy ky hm km =
    let back : parse_period (print y m) ≡ ok (record { year = y; month = m }) =
      rw (print-text y m (omega arith) (omega arith)) (parse-text y m hy (omega arith) hm km) in
    (back, (λ e. rw e back, λ h. printed t y m (parse-IsPeriod t h)))
  where
    printed : (u : Text) (a b : ℕ) → IsPeriod u (record { year = a; month = b }) → u ≡ print a b
    printed u a b (canonical e h1 h2 h3 h4) = e ∙ sym (print-text a b h2 (omega arith))

pub month-bounds :
    (t : Text) {p : Month}
    → parse_period t ≡ ok p
    → (1 ≤ p.year) × (p.year < 10_000) × (1 ≤ p.month) × (p.month ≤ 12)
month-bounds t {p} h = bounds (parse-IsPeriod t h)
  where
    bounds : IsPeriod t p → (1 ≤ p.year) × (p.year < 10_000) × (1 ≤ p.month) × (p.month ≤ 12)
    bounds (canonical e h1 h2 h3 h4) = (h1, h2, h3, h4)

-- `formatPeriod` returns exactly for the years from 1 to 9999.
format_returns :
    (year : ℤ) (m : ℕ)
    → ((t : Text) × (format_period year m ≡ ok t)) ↔ ((pos 1 ≤ℤ year) × (year ≤ℤ pos 9999))
unfolding format_period
format_returns (negsuc n) m = ((λ h. absurd (refused h.1)), (λ h. absurd (omega (arith, h))))
  where
    refused : {t : Text} → ◌≡◌ {A = Result PeriodError Text} (err PeriodError.outside) (ok t) → ⊥
    refused h = cc
format_returns (pos y) m = (
  (λ h. let (e, _) = if-eq-err (ltb y 1 || ltb 9999 y) PeriodError.outside _ h.1 in ground arith),
  (λ h. (print y (m + 1), ground arith)),
)

format-print :
    (t : Text) (y m : ℕ)
    → (format_period (pos y) m ≡ ok t) ↔ ((1 ≤ y) × (y ≤ 9999) × (t ≡ print y (m + 1)))
unfolding format_period
format-print t y m = (
  (λ h.
      let (e, printed) = if-eq-err (ltb y 1 || ltb 9999 y) PeriodError.outside _ h in
      (ground arith, ground arith, sym (ok-injective printed))),
  (λ h. rw h.2 (ground (arith, h))),
)

-- A text parses to a month of a year that is not negative exactly where the month is one of 1 to 12
-- and `formatPeriod` prints the text for a date of that year and month; and `formatPeriod` returns
-- a text exactly for the years from 1 to 9999, so that every text that parses has such a year.
pub period_roundtrip :
    (t : Text) (year : ℤ) (m : ℕ)
    → (((parse_period t ≡ ok (record { year = pos_part year; month = m })) × (pos 0 ≤ℤ year))
        ↔ ((format_period year (m - 1) ≡ ok t) × (1 ≤ m) × (m ≤ 12)))
      × (((u : Text) × (format_period year (m - 1) ≡ ok u))
          ↔ ((pos 1 ≤ℤ year) × (year ≤ℤ pos 9999)))
period_roundtrip t (negsuc n) m = (
  (
    (λ h. absurd (omega (arith, h.1))),
    (λ h.
        let range = (format_returns (negsuc n) (m - 1)).0 (t, h.0) in
        absurd (omega (arith, range))),
  ),
  format_returns (negsuc n) (m - 1),
)
period_roundtrip t (pos y) m = (
  (
    (λ h.
        let (h1, h2, h3, h4) = month-bounds t h.0 in
        let printed = (print_roundtrip t y m h1 (omega arith) h3 h4).1.1 h.0 in
        ((format-print t y (m - 1)).1 (h1, omega arith, printed ∙ same_month h3), h3, h4)),
    (λ h.
        let (h1, h2, e) = (format-print t y (m - 1)).0 h.0 in
        ((print_roundtrip t y m h1 h2 h.1 h.2).1.0 (e ∙ sym (same_month h.1)), omega arith)),
  ),
  format_returns (pos y) (m - 1),
)
  where
    same_month : 1 ≤ m → print y m ≡ print y (m - 1 + 1)
    same_month k = ap (print y) (omega arith)

parse-print_index :
    (n : ℕ)
    → 12 ≤ n
    → n ≤ 119_999
    → (print_index (pos n) ≡ ok (text (n / 12) (n % 12 + 1)))
      × (parse_period (text (n / 12) (n % 12 + 1))
          ≡ ok (record { year = n / 12; month = n % 12 + 1 }))
unfolding print_index
parse-print_index n h k = (
  rw (print-text (n / 12) (n % 12 + 1) (omega arith) (omega arith)) (ground arith),
  parse-text (n / 12) (n % 12 + 1) (omega arith) (omega arith) (omega arith) (omega arith),
)

-- A period plus a safe offset that stays inside 0001-01..9999-12 is a period, as many months on.
pub add_periods_lem :
    (t : Text) (amount : ℤ) (n : ℕ) {p : Month}
    → parse_period t ≡ ok p
    → is_safe amount ≡ true
    → pos (index p) +ℤ amount ≡ pos n
    → 12 ≤ n
    → n ≤ 119_999
    → (u : Text) × (q : Month) × (add_periods t amount ≡ ok u)
      × (parse_period u ≡ ok q)
      × (index q ≡ n)
unfolding add_periods
add_periods_lem t amount n {p} h safe e lo hi =
    let (printed, parsed) = parse-print_index n lo hi in
    (
      text (n / 12) (n % 12 + 1),
      record { year = n / 12; month = n % 12 + 1 },
      rw (safe, h, e) printed,
      parsed,
      omega arith,
    )

-- A period plus an offset that leaves 0001-01..9999-12 is refused.
pub add_periods_outside :
    (t : Text) (amount : ℤ) {p : Month}
    → parse_period t ≡ ok p
    → is_safe amount ≡ true
    → (pos (index p) +ℤ amount ≤ℤ pos 11) ⊎ (pos 120_000 ≤ℤ pos (index p) +ℤ amount)
    → add_periods t amount ≡ err PeriodError.outside
unfolding add_periods
add_periods_outside t amount {p} h safe out = rw (safe, h) (refused (pos (index p) +ℤ amount) out)
  where
    refused : (z : ℤ) → (z ≤ℤ pos 11) ⊎ (pos 120_000 ≤ℤ z) → print_index z ≡ err PeriodError.outside
    refused (negsuc n) o = unfold print_index in refl
    refused (pos n) o = unfold print_index in ground arith

-- The year of the period after p, and its month.
abbrev following : Month → Month
following p =
    if p.month == 12
    then record { year = p.year + 1; month = 1 }
    else record { year = p.year; month = p.month + 1 }

month-one : pad_start 2 (decimal 1) ≡ 48 ∷ 49 ∷ []
unfolding pad_start decimal
month-one = refl

last-month :
    (p : Month)
    → index p < 119_999
    → p.month ≤ 12
    → 1 ≤ p.month
    → (p.year == 9999 && p.month == 12) ≡ false
last-month p h k l = ground arith

next-text :
    (t : Text) {p : Month}
    → parse_period t ≡ ok p
    → 1 ≤ p.month
    → p.month ≤ 12
    → index p < 119_999
    → let q = following p in
      next_period t ≡ ok (decimal q.year ++ 45 ∷ pad_start 2 (decimal q.month))
unfolding next_period
next-text t {p} h lo hi last =
    rw (h, last-month p last hi lo)
      (elim (Bool-cases (p.month == 12)) [ inl e ↦ rw (e, month-one) refl | inr e ↦ rw e refl ])

following-bounds :
    (p : Month)
    → 1 ≤ p.month
    → p.month ≤ 12
    → index p < 119_999
    → (1 ≤ (following p).month)
      × ((following p).month ≤ 12)
      × ((following p).year < 10_000)
      × (p.year ≤ (following p).year)
      × (index (following p) ≡ index p + 1)
following-bounds p h k l = ground arith

-- From the year 1000 on, and before 9999-12, `nextPeriod` returns the period one month later.
pub next_period_lem :
    (t : Text) {p : Month}
    → parse_period t ≡ ok p
    → 1000 ≤ p.year
    → index p < 119_999
    → (u : Text) × (q : Month) × (next_period t ≡ ok u)
      × (parse_period u ≡ ok q)
      × (index q ≡ index p + 1)
next_period_lem t {p} h y last =
    let b = month-bounds t h in
    let f = following-bounds p b.2 b.3 last in
    let q = following p in
    let printed : decimal q.year ++ 45 ∷ pad_start 2 (decimal q.month) ≡ text q.year q.month =
      rw (decimal-four q.year (omega arith) f.2, pad-month q.month (omega arith)) refl in
    (
      text q.year q.month,
      q,
      next-text t h b.2 b.3 last ∙ ap ok printed,
      parse-text q.year q.month (omega arith) f.2 f.0 f.1,
      f.4,
    )

short-text :
    (y m : ℕ)
    → y < 1000
    → m ≤ 12
    → parse_period (decimal y ++ 45 ∷ pad_start 2 (decimal m)) ≡ err PeriodError.invalid
unfolding parse_period
short-text y m h k = rw (pad-month m (omega arith)) (elim (dec_lt y 10) [
  | yes a ↦ rw (decimal-small y a) refl
  | no a ↦ elim (dec_lt y 100) [
    | yes b ↦ rw (decimal-two y (omega arith) b) refl
    | no b ↦ rw (decimal-three y (omega arith) h) refl
  ]
])

-- Where the following month lies before the year 1000, `nextPeriod` returns a text that is no
-- period, since it does not pad the year.
pub next_period_short :
    (t : Text) {p : Month}
    → parse_period t ≡ ok p
    → index p < 11_999
    → (u : Text) × (next_period t ≡ ok u) × (parse_period u ≡ err PeriodError.invalid)
next_period_short t {p} h early =
    let b = month-bounds t h in
    let q = following p in
    let f = following-bounds p b.2 b.3 (omega arith) in
    (
      decimal q.year ++ 45 ∷ pad_start 2 (decimal q.month),
      next-text t h b.2 b.3 (omega arith),
      short-text q.year q.month (omega arith) f.1,
    )

abbrev pub Follows : Order → ℕ → ℕ → Type 0
Follows less a b = a < b
Follows same a b = a ≡ b
Follows more a b = b < a

-- Two periods compare as their months do, counted from year 0.
pub compare_periods_lem :
    (l r : Text) {a b : Month}
    → parse_period l ≡ ok a
    → parse_period r ≡ ok b
    → (o : Order) × (compare_periods l r ≡ ok o) × Follows o (index a) (index b)
unfolding compare_periods
compare_periods_lem l r {a} {b} ha hb =
    let ba = month-bounds l ha in
    let bb = month-bounds r hb in (order a b, rw (ha, hb) refl, ordered a b ba bb)
  where
    ordered :
        (x y : Month)
        → (1 ≤ x.year) × (x.year < 10_000) × (1 ≤ x.month) × (x.month ≤ 12)
        → (1 ≤ y.year) × (y.year < 10_000) × (1 ≤ y.month) × (y.month ≤ 12)
        → Follows (order x y) (index x) (index y)
    ordered x y bx by = unfold order in ground arith
