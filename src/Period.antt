-- ===== src/Period.antt =====
-- Billing periods, libs/shared/src/lib/period.ts. A text is the list of its character codes, and an
-- argument that is no string at all does not arise.
pub mod Text
pub mod Months
pub mod Range
mod Tests
use koinoxrista.Prelude.{
  ℕ, zero, suc, ◌+◌, ◌-◌, ◌*◌, ◌/◌, ◌%◌, ◌^◌, ◌≤◌, ◌<◌, min, max, String, ◌≡◌, refl, sym, ap, ◌∙◌,
  ◌≢◌, ◌↔◌, ◌⊎◌, inl, inr, Bool, true, false, not, ◌&&◌, ◌||◌, Option, none, some, List, [], ◌∷◌,
  ◌++◌, map, arith, ltb, leb, ◌==◌, if◌then◌else◌, ltb→lt, lt→ltb, leb→le, ==_iff, ==_refl,
  Bool-cases, Option-cases, length, get_elem?, take, get_or, length-append, length-map, total,
  total-append, total_scale, All, filter, All-append, total_mono, any, all, any-false, all-true,
  sum, sum-map, Result, ok, err, ◌>>=◌, ◌>>◌, throw_if, throw_if-ok, >>=-eq-ok,
}
use koinoxrista.Prelude.Int.{
  ℤ, pos, negsuc, pos_part, neg_part, sub_ℕ, ◌+ℤ◌, ◌-ℤ◌, ◌≤ℤ◌, ltb_ℤ, leb_ℤ, min_ℤ, max_ℤ, int_laws,
  pos_part-eq, +ℤ_parts, -ℤ_parts, eq_of_parts,
}
use koinoxrista.Prelude.Sort.{insert, sort, total-sort, sort-All, IsSorted, sort-IsSorted}

abbrev pub Text : Type 0
Text = List ℕ

pub record Month : Type 0 where
  pub year : ℕ
  pub month : ℕ

pub data PeriodError : Type 0 where
  invalid beyond_last before_first outside bad_offset bad_max reversed too_many : PeriodError

abbrev pub is_digit : ℕ → Bool
is_digit c = leb 48 c && leb c 57

-- `(0[1-9]|1[0-2])`
abbrev pub is_month : ℕ → ℕ → Bool
is_month e f = (e == 48 && leb 49 f && leb f 57) || (e == 49 && leb 48 f && leb f 50)

-- `Number(match[1])` of four digits.
abbrev pub number4 : ℕ → ℕ → ℕ → ℕ → ℕ
number4 a b c d = 1000 * (a - 48) + 100 * (b - 48) + 10 * (c - 48) + (d - 48)

-- `PERIOD_REGEX`, and a year of at least 1.
unfoldable pub matches : ℕ → ℕ → ℕ → ℕ → ℕ → ℕ → ℕ → Bool
matches a b c d dash e f =
    (is_digit a && is_digit b && is_digit c && is_digit d)
    && dash == 45
    && is_month e f
    && leb 1 (number4 a b c d)

-- `isValidPeriod` and `parsePeriod`
unfoldable pub parse_period : Text → Result PeriodError Month
unfolding matches
parse_period (a ∷ b ∷ c ∷ d ∷ dash ∷ e ∷ f ∷ []) =
    if matches a b c d dash e f
    then ok (record { year = number4 a b c d; month = 10 * (e - 48) + (f - 48) })
    else err PeriodError.invalid
parse_period _ = err PeriodError.invalid

-- `String(n)`, for numbers of at most `fuel` digits.
unfoldable pub decimal_from : ℕ → ℕ → Text → Text
decimal_from zero n rest = rest
decimal_from (suc fuel) n rest =
    let more = decimal_from fuel (n / 10) ((48 + n % 10) ∷ rest) in
    if ltb n 10 then (48 + n) ∷ rest else more

-- Sixteen digits hold every safe integer.
unfoldable pub decimal : ℕ → Text
unfolding decimal_from
decimal n = decimal_from 16 n []

-- `padStart(width, '0')`
unfoldable pub pad : ℕ → Text → Text
pad zero t = t
pad (suc k) t = 48 ∷ pad k t

unfoldable pub pad_start : ℕ → Text → Text
unfolding pad
pad_start width t = pad (width - length t) t

-- A padded year and month, as `formatPeriod` and `addPeriods` print them.
unfoldable pub print : ℕ → ℕ → Text
unfolding decimal pad_start
print year month = pad_start 4 (decimal year) ++ 45 ∷ pad_start 2 (decimal month)

-- `formatPeriod`, given the UTC year and the zero-based UTC month of a valid date.
unfoldable pub format_period : ℤ → ℕ → Result PeriodError Text
unfolding print
format_period (negsuc n) month0 = err PeriodError.outside
format_period (pos year) month0 =
    if ltb year 1 || ltb 9999 year then err PeriodError.outside else ok (print year (month0 + 1))

-- `nextPeriod`: the year is not padded.
unfoldable pub next_period : Text → Result PeriodError Text
next_period t = do
  p ← parse_period t
  throw_if (p.year == 9999 && p.month == 12) PeriodError.beyond_last
  ok (
      if p.month == 12
      then decimal (p.year + 1) ++ 45 ∷ 48 ∷ 49 ∷ []
      else decimal p.year ++ 45 ∷ pad_start 2 (decimal (p.month + 1)))

-- `previousPeriod`
unfoldable pub previous_period : Text → Result PeriodError Text
previous_period t = do
  p ← parse_period t
  throw_if (p.year == 1 && p.month == 1) PeriodError.before_first
  ok (
      if p.month == 1
      then decimal (p.year - 1) ++ 45 ∷ 49 ∷ 50 ∷ []
      else decimal p.year ++ 45 ∷ pad_start 2 (decimal (p.month - 1)))

-- Months counted from year 0.
abbrev pub index : Month → ℕ
index p = p.year * 12 + (p.month - 1)

-- `Number.isSafeInteger`
abbrev pub is_safe : ℤ → Bool
is_safe (pos n) = ltb n (2 ^ 53)
is_safe (negsuc n) = ltb (n + 1) (2 ^ 53)

-- The last part of `addPeriods`, on `zeroBased`.
unfoldable pub print_index : ℤ → Result PeriodError Text
unfolding print
print_index (negsuc n) = err PeriodError.outside
print_index (pos n) =
    if ltb n 12 || ltb (9999 * 12 + 11) n
    then err PeriodError.outside
    else ok (print (n / 12) (n % 12 + 1))

-- `addPeriods`
unfoldable pub add_periods : Text → ℤ → Result PeriodError Text
add_periods t amount = do
  throw_if (not (is_safe amount)) PeriodError.bad_offset
  p ← parse_period t
  print_index (pos (index p) +ℤ amount)

pub data Order : Type 0 where
  less same more : Order

-- The comparison inside `comparePeriods`.
unfoldable pub order : Month → Month → Order
order a b =
    if a.year == b.year && a.month == b.month
    then same
    else if ltb a.year b.year || (a.year == b.year && ltb a.month b.month)
    then less
    else more

-- `comparePeriods`
unfoldable pub compare_periods : Text → Text → Result PeriodError Order
unfolding order
compare_periods l r = do a ← parse_period l; b ← parse_period r; ok (order a b)

-- `===`
unfoldable pub text_eq : Text → Text → Bool
text_eq [] [] = true
text_eq [] (b ∷ bs) = false
text_eq (a ∷ as') [] = false
text_eq (a ∷ as') (b ∷ bs) = a == b && text_eq as' bs

abbrev pub is_more : Order → Bool
is_more less = false
is_more same = false
is_more more = true

abbrev pub is_less : Order → Bool
is_less less = true
is_less same = false
is_less more = false

-- `result.push`, in a loop that goes on.
abbrev pub push_front :
    Text → Option (Result PeriodError (List Text)) → Option (Result PeriodError (List Text))
push_front t none = none
push_front t (some (err e)) = some (err e)
push_front t (some (ok ts)) = some (ok (t ∷ ts))

-- The loop of `periodRange`, with the number of results so far; none when the fuel runs out.
unfoldable pub range_from : ℕ → Text → Text → ℕ → ℕ → Option (Result PeriodError (List Text))
range_from zero cursor last limit n = none
range_from (suc fuel) cursor last limit n = elim (compare_periods cursor last) [
  | err e ↦ some (err e)
  | ok o ↦ elim (is_more o) [
    | true ↦ some (ok [])
    | false ↦ elim (ltb limit (n + 1)) [
      | true ↦ some (err PeriodError.too_many)
      | false ↦ elim (text_eq cursor last) [
        | true ↦ some (ok (cursor ∷ []))
        | false ↦ elim (next_period cursor) [
          | err e ↦ some (err e)
          | ok next ↦ push_front cursor (range_from fuel next last limit (n + 1))
        ]
      ]
    ]
  ]
]

-- `periodRange`
unfoldable pub period_range : Text → Text → ℤ → Option (Result PeriodError (List Text))
period_range start last limit =
    if not (is_safe limit) || ltb_ℤ limit (pos 1)
    then some (err PeriodError.bad_max)
    else elim (compare_periods start last) [
      | err e ↦ some (err e)
      | ok o ↦
          if is_more o
          then some (err PeriodError.reversed)
          else range_from (pos_part limit + 1) start last (pos_part limit) 0
    ]

-- `isPeriodInRange`
unfoldable pub is_period_in_range : Text → Text → Text → Result PeriodError Bool
is_period_in_range value start last = do
  from ← compare_periods value start
  elim (is_less from) [
    | true ↦ ok false
    | false ↦ compare_periods value last >>= λ to. ok (not (is_more to))
  ]
