-- ===== src/Payouts/Tests.antt =====
-- Runs of the payments to suppliers.
use koinoxrista.Prelude.{
  ℕ, ◌*◌, ◌≤◌, String, ◌≡◌, refl, true, false, Option, none, some, [], ◌∷◌, arith, ltb, total, ok,
}
use koinoxrista.Prelude.Int.{ℤ, pos, negsuc, leb_ℤ}
use koinoxrista.Prelude.Sort.{sort, IsSorted}
use text.Mathlib.Text.{◌==◌ as str_eq}
use koinoxrista.Fees.Charges.{is_other_building}
use koinoxrista.Payouts.Register.{
  Payment, Action, Store, check_linked, check_input, check_change, change_payment, update, Group,
  add_group, Summary, add_payment, sum_payments, summary,
}
use koinoxrista.Payouts.Groups.{within, at_key, held, groups_of}
use koinoxrista.Payouts.Sums.{summary_sums, IsValid, Request, serve, serve-IsValid}

-- Texts that are one of two days.
abbrev parse_day : String → Option ℤ
parse_day t = elim (str_eq t "may") [
  | true ↦ some (pos 5)
  | false ↦ elim (str_eq t "june") [ true ↦ some (pos 6) | false ↦ none ]
]

abbrev month_of : ℤ → String
month_of d = elim (leb_ℤ d (pos 5)) [ true ↦ "may" | false ↦ "june" ]

abbrev year_start : ℕ → ℤ
year_start y = pos (12 * y)

abbrev compare_names : String → String → ℤ
compare_names x y = elim (str_eq x "june") [ true ↦ negsuc 0 | false ↦ pos 1 ]

abbrev payment : String → ℕ → String → ℤ → Payment
payment id n method day = record {
  id = id;
  building_id = "B";
  amount_cents = n;
  method = method;
  paid_at = day;
  job_id = none;
  expense_id = none;
}

abbrev two_payments : Store
two_payments = record {
  payments = payment "p" 300 "CASH" (pos 5) ∷ payment "q" 700 "BANK" (pos 6) ∷ [];
  jobs = [];
  expenses = [];
  audits = [];
}

abbrev totals : Summary
totals = record {
  total_cents = 1000;
  by_method =
      record { key = "BANK"; total_cents = 700 } ∷ record { key = "CASH"; total_cents = 300 } ∷ [];
  by_month =
      record { key = "june"; total_cents = 700 } ∷ record { key = "may"; total_cents = 300 } ∷ [];
}

run_summary : summary month_of year_start compare_names two_payments "B" (some "B") 0 ≡ ok totals
unfolding summary is_other_building sum_payments add_payment add_group sort
run_summary = refl

summary_sums_example :
    let paid_in = λ (n : ℕ) (p : Payment). within year_start "B" 0 n p in
    (1000 ≡ total (λ p. paid_in p.amount_cents p) two_payments.payments)
    × (held "may" totals.by_method
        ≡ total (λ p. paid_in (at_key "may" p.method p.amount_cents) p) two_payments.payments)
    × (held "may" totals.by_month
        ≡ total
            (λ p. paid_in (at_key "may" (month_of p.paid_at) p.amount_cents) p)
            two_payments.payments)
    × (groups_of "may" totals.by_method ≤ 1)
    × (groups_of "may" totals.by_month ≤ 1)
    × (total (λ g. g.total_cents) totals.by_method ≡ 1000)
    × (total (λ g. g.total_cents) totals.by_month ≡ 1000)
    × IsSorted (λ (x : Group) (y : Group). ltb y.total_cents x.total_cents) totals.by_method
summary_sums_example =
    summary_sums month_of year_start compare_names two_payments "B" (some "B") 0 totals "may"
      run_summary

abbrev one_payment : Store
one_payment = record {
  payments = payment "p" 300 "CASH" (pos 5) ∷ [];
  jobs = [];
  expenses = [];
  audits = [];
}

abbrev raise_it : Request
raise_it =
    Request.change "B" "p"
      (record {
        amount_cents = some (pos 450);
        method = none;
        paid_at = some (some "june");
        job_id = none;
        expense_id = none;
      })
      (some "B")

run_change : serve parse_day raise_it one_payment ≡ record one_payment {
  payments = payment "p" 450 "CASH" (pos 6) ∷ [];
  audits = Action.updated ∷ [];
}
unfolding serve update is_other_building change_payment check_change check_input check_linked
run_change = refl

abbrev no_date : Request
no_date =
    Request.change "B" "p"
      (record {
        amount_cents = none;
        method = none;
        paid_at = some none;
        job_id = none;
        expense_id = none;
      })
      (some "B")

-- A null date passes the checks as the date that is there, and is stored as the start of 1970.
run_null_date : serve parse_day no_date one_payment ≡ record one_payment {
  payments = payment "p" 300 "CASH" (pos 0) ∷ [];
  audits = Action.updated ∷ [];
}
unfolding serve update is_other_building change_payment check_change check_input check_linked
run_null_date = refl

one_payment-IsValid : IsValid one_payment
one_payment-IsValid = ((omega arith, tt), λ k. ground arith)

serve-IsValid_example : IsValid (serve parse_day raise_it one_payment)
serve-IsValid_example = serve-IsValid parse_day raise_it one_payment one_payment-IsValid
