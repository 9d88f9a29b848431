-- ===== src/Bank/Matching.antt =====
-- Matching the rows of a bank statement with the pending orders:
-- apps/api/src/bank-import/match-bank-payments.ts. The texts of the language are parameters:
-- `Date.parse`, and the normal forms of references and currencies.
pub mod Greedy
use koinoxrista.Prelude.{
  ℕ, zero, suc, ◌+◌, ◌-◌, ◌*◌, ◌/◌, ◌%◌, ◌^◌, ◌≤◌, ◌<◌, min, max, String, ◌≡◌, refl, sym, ap, ◌∙◌,
  ◌≢◌, ◌↔◌, ◌⊎◌, inl, inr, Bool, true, false, not, ◌&&◌, ◌||◌, Option, none, some, List, [], ◌∷◌,
  ◌++◌, map, arith, ltb, leb, ◌==◌, if◌then◌else◌, ltb→lt, lt→ltb, leb→le, ==_iff, ==_refl,
  Bool-cases, Option-cases, length, get_elem?, take, get_or, length-append, length-map, total,
  total-append, total_scale, All, filter, All-append, total_mono, any, all, any-false, all-true,
  sum, sum-map, Result, ok, err, ◌>>=◌, ◌>>◌, throw_if, throw_if-ok, >>=-eq-ok, ok-injective,
}
use koinoxrista.Prelude.Int.{
  ℤ, pos, negsuc, pos_part, neg_part, sub_ℕ, ◌+ℤ◌, ◌-ℤ◌, ◌≤ℤ◌, ltb_ℤ, leb_ℤ, min_ℤ, max_ℤ, int_laws,
  pos_part-eq, +ℤ_parts, -ℤ_parts, eq_of_parts,
}
use koinoxrista.Prelude.Sort.{insert, sort, total-sort, sort-All, IsSorted, sort-IsSorted}
use koinoxrista.Prelude.Tables.{
  find, count, update_many, update_many-none, count_mono, update_many-All, find-holds, find-only,
}
use text.Mathlib.Text.{◌==◌ as str_eq}
use text.Mathlib.TextEquality.{eq_iff}
use text.Mathlib.TextPositions.{eq_refl}

pub data Confidence : Type 0 where
  high medium low : Confidence

abbrev pub rank : Confidence → ℕ
rank high = 0
rank medium = 1
rank low = 2

-- A number of milliseconds, or none for a date that does not parse.
pub record PendingPayment : Type 0 where
  pub payment_id : String
  pub amount_cents : ℤ
  pub created_at : String
  pub unit_label : String
  pub expected_reference : Option String
  pub currency : Option String

pub record BankRow : Type 0 where
  pub date : String
  pub amount_cents : ℤ
  pub reference : String
  pub currency : Option String

pub record Candidate : Type 0 where
  pub row_index : ℕ
  pub payment_index : ℕ
  pub payment_id : String
  pub confidence : Confidence

pub record Suggestion : Type 0 where
  pub row_index : ℕ
  pub payment_id : String
  pub confidence : Confidence

abbrev pub window_ms : ℕ
window_ms = 5 * 86_400_000

-- `Math.abs(a - b)`
abbrev pub distance : ℤ → ℤ → ℕ
distance a b = pos_part (a -ℤ b) + neg_part (a -ℤ b)

-- `!text`, of a field that may be missing.
abbrev pub is_unset : Option String → Bool
is_unset none = true
is_unset (some s) = str_eq s ""

abbrev pub text_or_empty : Option String → String
text_or_empty none = ""
text_or_empty (some s) = s

-- What the code calls of the language.
pub record TextOps : Type 0 where
  -- `Date.parse` of the date of a row at noon, and of a time.
  pub parse_day : String → Option ℤ
  pub parse_time : String → Option ℤ
  -- Lower case without white space; upper case without white space; upper case, trimmed.
  pub fold : String → String
  pub reference_form : String → String
  pub currency_form : String → String
  -- `haystack.includes(needle)`
  pub includes : String → String → Bool

module _ (ops : TextOps) where
  -- `withinWindow`
  unfoldable pub within_window : String → String → Bool
  within_window day created = elim (ops.parse_day day) [
    | none ↦ false
    | some a ↦ elim (ops.parse_time created) [
      | none ↦ false
      | some b ↦ leb (distance a b) window_ms
    ]
  ]

  -- `refContains`
  unfoldable pub ref_contains : String → String → Bool
  ref_contains reference needle =
      if str_eq (ops.fold reference) "" || str_eq needle ""
      then false
      else ops.includes (ops.fold reference) (ops.fold needle)

  -- `bankReferenceMatches`
  unfoldable pub bank_reference_matches : String → String → Bool
  bank_reference_matches actual expected =
      not (str_eq (ops.reference_form actual) "")
      && str_eq (ops.reference_form actual) (ops.reference_form expected)

  -- `currenciesMatch`
  unfoldable pub currencies_match : BankRow → PendingPayment → Bool
  currencies_match r p =
      if is_unset r.currency || is_unset p.currency
      then true
      else str_eq (ops.currency_form (text_or_empty r.currency))
          (ops.currency_form (text_or_empty p.currency))

  -- `confidenceOf`
  unfoldable pub confidence_of : BankRow → PendingPayment → Confidence
  confidence_of r p =
      if not (within_window r.date p.created_at)
      then low
      else if (not (is_unset p.expected_reference)
            && bank_reference_matches r.reference (text_or_empty p.expected_reference))
          || ref_contains r.reference p.payment_id
          || ref_contains r.reference p.unit_label
      then high
      else medium

  -- `a.amountCents === b.amountCents`
  abbrev pub eq_ℤ : ℤ → ℤ → Bool
  eq_ℤ a b = leb_ℤ a b && leb_ℤ b a

  -- The inner loop, from a payment index on.
  unfoldable pub row_candidates : ℕ → BankRow → ℕ → List PendingPayment → List Candidate
  row_candidates i r j [] = []
  row_candidates i r j (p ∷ ps) =
      let rest = row_candidates i r (j + 1) ps in
      if eq_ℤ p.amount_cents r.amount_cents && currencies_match r p
      then record {
        row_index = i;
        payment_index = j;
        payment_id = p.payment_id;
        confidence = confidence_of r p;
      }
        ∷ rest
      else rest

  -- The outer loop, from a row index on.
  unfoldable pub candidates : ℕ → List BankRow → List PendingPayment → List Candidate
  candidates i [] ps = []
  candidates i (r ∷ rs) ps =
      let rest = candidates (i + 1) rs ps in
      if leb_ℤ r.amount_cents (pos 0) then rest else row_candidates i r 0 ps ++ rest

-- The comparator: by confidence, then by row, then by payment.
unfoldable pub before : Candidate → Candidate → Bool
before a b =
    ltb (rank a.confidence) (rank b.confidence)
    || (rank a.confidence == rank b.confidence
        && (ltb a.row_index b.row_index
            || (a.row_index == b.row_index && ltb a.payment_index b.payment_index)))

-- The loop over the candidates, with the rows and the payments that are taken.
unfoldable pub choose : List ℕ → List ℕ → List Candidate → List Candidate
choose rows payments [] = []
choose rows payments (c ∷ cs) =
    let skipped = choose rows payments cs in
    let taken = choose (c.row_index ∷ rows) (c.payment_index ∷ payments) cs in
    if any (λ i. i == c.row_index) rows || any (λ j. j == c.payment_index) payments
    then skipped
    else c ∷ taken

abbrev pub suggestion : Candidate → Suggestion
suggestion c = record {
  row_index = c.row_index;
  payment_id = c.payment_id;
  confidence = c.confidence;
}

abbrev pub row_before : Suggestion → Suggestion → Bool
row_before a b = ltb a.row_index b.row_index

-- `suggestMatches`
unfoldable pub suggest_matches : TextOps → List BankRow → List PendingPayment → List Suggestion
suggest_matches ops rows payments =
    sort row_before (map suggestion (choose [] [] (sort before (candidates ops 0 rows payments))))
