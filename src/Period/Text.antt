-- ===== src/Period/Text.antt =====
-- Printing and parsing a period: one text for each month.
use koinoxrista.Prelude.{
  ℕ, ◌+◌, ◌-◌, ◌*◌, ◌/◌, ◌%◌, ◌≤◌, ◌<◌, ◌≡◌, refl, Bool, true, false, ◌&&◌, [], ◌∷◌, arith, leb,
  ◌==◌, if◌then◌else◌, leb→le, ==_iff, ok, err, ok-injective,
}
use mathlib.Core.Path.{subst}
use native.Mathlib.Decide.{dec_lt}
use koinoxrista.Period.{
  Text, Month, PeriodError, parse_period, decimal, pad_start, print, matches, number4, is_month,
  is_digit,
}

-- The four digits of a year, the dash and the two digits of a month.
abbrev pub text : ℕ → ℕ → Text
text y m =
    (48 + y / 1000)
    ∷ (48 + y / 100 % 10)
    ∷ (48 + y / 10 % 10)
    ∷ (48 + y % 10)
    ∷ 45
    ∷ (48 + m / 10)
    ∷ (48 + m % 10)
    ∷ []

pub decimal-small : (n : ℕ) → n < 10 → decimal n ≡ (48 + n) ∷ []
unfolding decimal
decimal-small n h = ground arith

pub decimal-two : (n : ℕ) → 10 ≤ n → n < 100 → decimal n ≡ (48 + n / 10) ∷ (48 + n % 10) ∷ []
unfolding decimal
decimal-two n h k = ground arith

pub decimal-three :
    (n : ℕ)
    → 100 ≤ n
    → n < 1000
    → decimal n ≡ (48 + n / 100) ∷ (48 + n / 10 % 10) ∷ (48 + n % 10) ∷ []
unfolding decimal
decimal-three n h k = ground arith

pub decimal-four :
    (n : ℕ)
    → 1000 ≤ n
    → n < 10_000
    → decimal n ≡ (48 + n / 1000) ∷ (48 + n / 100 % 10) ∷ (48 + n / 10 % 10) ∷ (48 + n % 10) ∷ []
unfolding decimal
decimal-four n h k = ground arith

pad-year :
    (y : ℕ)
    → y < 10_000
    → pad_start 4 (decimal y)
      ≡ (48 + y / 1000) ∷ (48 + y / 100 % 10) ∷ (48 + y / 10 % 10) ∷ (48 + y % 10) ∷ []
unfolding pad_start
pad-year y h = elim (dec_lt y 10) [
  | yes a ↦ rw (decimal-small y a) (ground arith)
  | no a ↦ elim (dec_lt y 100) [
    | yes b ↦ rw (decimal-two y (omega arith) b) (ground arith)
    | no b ↦ elim (dec_lt y 1000) [
      | yes c ↦ rw (decimal-three y (omega arith) c) (ground arith)
      | no c ↦ rw (decimal-four y (omega arith) h) (ground arith)
    ]
  ]
]

pub pad-month : (m : ℕ) → m < 100 → pad_start 2 (decimal m) ≡ (48 + m / 10) ∷ (48 + m % 10) ∷ []
unfolding pad_start
pad-month m h = elim (dec_lt m 10) [
  | yes a ↦ rw (decimal-small m a) (ground arith)
  | no a ↦ rw (decimal-two m (omega arith) h) refl
]

pub print-text : (y m : ℕ) → y < 10_000 → m < 100 → print y m ≡ text y m
unfolding print
print-text y m h k = rw (pad-year y h, pad-month m k) refl

year-text :
    (y : ℕ)
    → y < 10_000
    → number4 (48 + y / 1000) (48 + y / 100 % 10) (48 + y / 10 % 10) (48 + y % 10) ≡ y
year-text y h = omega arith

month-text : (m : ℕ) → 1 ≤ m → m ≤ 12 → is_month (48 + m / 10) (48 + m % 10) ≡ true
month-text m h k = elim (dec_lt m 10) [
  | yes a ↦
      let tens : m / 10 ≡ 0 = omega arith in
      let ones : m % 10 ≡ m = omega arith in rw (tens, ones) (ground arith)
  | no a ↦
      let tens : m / 10 ≡ 1 = omega arith in
      let ones : m % 10 ≡ m - 10 = omega arith in rw (tens, ones) (ground arith)
]

digit-text : (d : ℕ) → d < 10 → is_digit (48 + d) ≡ true
digit-text d h = ground arith

matches-text :
    (y m : ℕ)
    → 1 ≤ y
    → y < 10_000
    → 1 ≤ m
    → m ≤ 12
    → matches
        (48 + y / 1000)
        (48 + y / 100 % 10)
        (48 + y / 10 % 10)
        (48 + y % 10)
        45
        (48 + m / 10)
        (48 + m % 10)
      ≡ true
unfolding matches
matches-text y m hy ky hm km =
    rw
      (
        digit-text (y / 1000) (omega arith),
        digit-text (y / 100 % 10) (omega arith),
        digit-text (y / 10 % 10) (omega arith),
        digit-text (y % 10) (omega arith),
        month-text m hm km,
        year-text y ky,
      )
      (ground arith)

pub parse-text :
    (y m : ℕ)
    → 1 ≤ y
    → y < 10_000
    → 1 ≤ m
    → m ≤ 12
    → parse_period (text y m) ≡ ok (record { year = y; month = m })
unfolding parse_period
parse-text y m hy ky hm km =
    let month : 10 * (48 + m / 10 - 48) + (48 + m % 10 - 48) ≡ m = omega arith in
    rw (matches-text y m hy ky hm km, year-text y ky, month) refl

pub data IsPeriod (t : Text) (p : Month) : Type 0 where
  canonical :
      t ≡ text p.year p.month
      → 1 ≤ p.year
      → p.year < 10_000
      → 1 ≤ p.month
      → p.month ≤ 12
      → IsPeriod t p

digit-range : (c : ℕ) → is_digit c ≡ true → (48 ≤ c) × (c ≤ 57)
digit-range c h = ground arith

month-range :
    (e f : ℕ)
    → is_month e f ≡ true
    → (48 ≤ e)
      × (48 ≤ f)
      × (f ≤ 57)
      × (1 ≤ 10 * (e - 48) + (f - 48))
      × (10 * (e - 48) + (f - 48) ≤ 12)
month-range e f h = ground arith

&&-parts : (a b : Bool) → (a && b) ≡ true → (a ≡ true) × (b ≡ true)
&&-parts true b h = (refl, h)
&&-parts false b h = cc

cons-eq : {x y : ℕ} {xs ys : Text} → x ≡ y → xs ≡ ys → (x ∷ xs) ≡ (y ∷ ys)
cons-eq p q = cc

canonical-text :
    (a b c d dash e f : ℕ)
    → matches a b c d dash e f ≡ true
    → IsPeriod
        (a ∷ b ∷ c ∷ d ∷ dash ∷ e ∷ f ∷ [])
        (record { year = number4 a b c d; month = 10 * (e - 48) + (f - 48) })
unfolding matches
canonical-text a b c d dash e f h =
    let (h2, year_ok) = &&-parts _ (leb 1 (number4 a b c d)) h in
    let (h1, month_ok) = &&-parts _ (is_month e f) h2 in
    let (digits, dash_ok) = &&-parts _ (dash == 45) h1 in
    let (d2, dd) = &&-parts _ (is_digit d) digits in
    let (d1, dc) = &&-parts _ (is_digit c) d2 in
    let (da, db) = &&-parts (is_digit a) (is_digit b) d1 in
    let ra = digit-range a da in
    let rb = digit-range b db in
    let rc = digit-range c dc in
    let rd = digit-range d dd in
    let rm = month-range e f month_ok in
    let dash_eq = (==_iff dash 45).0 dash_ok in
    let one = leb→le 1 (number4 a b c d) year_ok in
    canonical
      (cons-eq (omega arith) (
        cons-eq (omega arith) (
          cons-eq (omega arith) (
            cons-eq (omega arith)
              (cons-eq dash_eq (cons-eq (omega arith) (cons-eq (omega arith) refl)))))))
      one (omega arith) (omega arith) (omega arith)

pick :
    {t : Text} {q p : Month} (b : Bool)
    → (if b then ok q else err PeriodError.invalid) ≡ ok p
    → (b ≡ true → IsPeriod t q)
    → IsPeriod t p
pick true h k = let same = ok-injective h in subst (IsPeriod _) same (k refl)
pick false h k = cc

-- A text that parses is the one that is printed for its month.
pub parse-IsPeriod : (t : Text) {p : Month} → parse_period t ≡ ok p → IsPeriod t p
unfolding parse_period
parse-IsPeriod (a ∷ b ∷ c ∷ d ∷ dash ∷ e ∷ f ∷ []) h =
    pick (matches a b c d dash e f) h (canonical-text a b c d dash e f)
parse-IsPeriod _ h = cc
