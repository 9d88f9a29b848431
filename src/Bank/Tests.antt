-- ===== src/Bank/Tests.antt =====
-- Two rows for one order.
use koinoxrista.Prelude.{ℕ, ◌≤◌, String, ◌≡◌, refl, none, some, List, [], ◌∷◌, map, total, All}
use koinoxrista.Prelude.Int.{pos, ◌-ℤ◌}
use koinoxrista.Prelude.Sort.{insert, sort}
use text.Mathlib.Text.{◌==◌ as str_eq}
use koinoxrista.Bank.Matching.{
  Confidence, PendingPayment, BankRow, Candidate, TextOps, candidates, row_candidates, before,
  choose, suggestion, row_before, suggest_matches, within_window, ref_contains,
  bank_reference_matches, currencies_match, confidence_of,
}
use koinoxrista.Bank.Matching.Greedy.{IsMatch, on_row, on_payment, suggest_once}

-- Texts whose forms are themselves, on one day.
abbrev plain : TextOps
plain = record {
  parse_day = λ s. some (pos 0);
  parse_time = λ s. some (pos 1000);
  fold = λ s. s;
  reference_form = λ s. s;
  currency_form = λ s. s;
  includes = λ s t. str_eq s t;
}

abbrev paid : String → ℕ → BankRow
paid reference n = record {
  date = "d";
  amount_cents = pos n;
  reference = reference;
  currency = none;
}

abbrev order : PendingPayment
order = record {
  payment_id = "o";
  amount_cents = pos 50;
  created_at = "t";
  unit_label = "A1";
  expected_reference = some "77";
  currency = some "EUR";
}

-- The row with the reference gets the order, although it comes second.
run_matches :
    suggest_matches plain (paid "x" 50 ∷ paid "77" 50 ∷ paid "77" 60 ∷ []) (order ∷ [])
    ≡ record { row_index = 1; payment_id = "o"; confidence = Confidence.high } ∷ []
unfolding suggest_matches candidates row_candidates before choose within_window ref_contains
    bank_reference_matches currencies_match confidence_of sort insert ◌-ℤ◌
run_matches = refl

suggest_once_example :
    (cs : List Candidate) × (suggest_matches plain (paid "77" 50 ∷ []) (order ∷ [])
      ≡ sort row_before (map suggestion cs))
    × All (IsMatch (paid "77" 50 ∷ []) (order ∷ [])) cs
    × ((i : ℕ) → total (on_row i) cs ≤ 1)
    × ((j : ℕ) → total (on_payment j) cs ≤ 1)
suggest_once_example = suggest_once plain (paid "77" 50 ∷ []) (order ∷ [])
