-- ===== src/Plans/Tests.antt =====
-- Runs of the payment plan helpers.
use koinoxrista.Prelude.{
  ℕ, ◌+◌, min, String, ◌≡◌, refl, Bool, none, List, [], ◌∷◌, map, arith, ltb, if◌then◌else◌, ok,
}
use koinoxrista.Prelude.Int.{ℤ, pos, negsuc}
use koinoxrista.Prelude.Sort.{sort, IsSorted}
use text.Mathlib.Text.{◌==◌ as str_eq}
use koinoxrista.Plans.Installments.{PlanInstallment, split_into_installments, apply_payment_to_plan}
use koinoxrista.Plans.Installments.Apply.{
  due, paid, applied, OldestFirst, payment_moves, payment-OldestFirst,
}
use koinoxrista.Plans.Settlement.{PlanInvoice, InvoiceAllocation, normalized, allocate_plan_payment}
use koinoxrista.Plans.Settlement.Allocate.{allocated, Covers, settlement_places}

run_installments :
    map (λ p. p.amount_cents) (split_into_installments 100 3 0 30) ≡ 34 ∷ 33 ∷ 33 ∷ []
unfolding split_into_installments
run_installments = refl

abbrev installment : ℕ → ℕ → PlanInstallment
installment k p = record { id = "i"; seq = k; amount_cents = 50; paid_cents = p; paid_at = none }

abbrev plan_rows : List PlanInstallment
plan_rows = installment 2 0 ∷ installment 1 20 ∷ []

run_payment :
    map (λ i. i.paid_cents) (apply_payment_to_plan plan_rows (pos 40) 7).installments ≡ 50 ∷ 10 ∷ []
unfolding apply_payment_to_plan
run_payment = refl

payment_moves_example :
    let r = apply_payment_to_plan plan_rows (pos 40) 7 in
    (applied r.allocations ≡ r.applied_cents)
    × (r.applied_cents ≡ min 40 (due plan_rows))
    × (paid r.installments ≡ paid plan_rows + r.applied_cents)
    × (due r.installments + r.applied_cents ≡ due plan_rows)
payment_moves_example = payment_moves plan_rows (pos 40) 7

payment-OldestFirst_example :
    let before : PlanInstallment → PlanInstallment → Bool = λ a b. ltb a.seq b.seq in
    let r = apply_payment_to_plan plan_rows (pos 40) 7 in
    OldestFirst (sort before plan_rows) r.installments × IsSorted before r.installments
payment-OldestFirst_example = payment-OldestFirst plan_rows (pos 40) 7

-- A comparison that puts "2026-01" in front of "2026-02".
abbrev lexical : String → String → ℤ
lexical a b = if str_eq a b then pos 0 else if str_eq a "2026-01" then negsuc 0 else pos 1

abbrev invoice : String → String → ℕ → PlanInvoice
invoice i p n = record {
  id = i;
  unit_id = "u";
  building_id = "b";
  period = p;
  total_cents = pos n;
  paid_cents = pos 10;
}

abbrev open_invoices : List PlanInvoice
open_invoices = invoice "y" "2026-02" 60 ∷ invoice "x" "2026-01" 30 ∷ invoice "z" "2026-01" 10 ∷ []

run_settlement :
    allocate_plan_payment lexical open_invoices (pos 45)
    ≡ ok (
        record { invoice_id = "x"; period = "2026-01"; amount_cents = pos 20 }
        ∷ record { invoice_id = "y"; period = "2026-02"; amount_cents = pos 25 }
        ∷ [])
unfolding allocate_plan_payment
run_settlement = refl

settlement_places_example :
    (as' : List InvoiceAllocation) × (allocate_plan_payment lexical open_invoices (pos 45) ≡ ok as')
    × (allocated as' ≡ pos 45)
    × Covers (normalized lexical open_invoices) as'
settlement_places_example =
    settlement_places lexical open_invoices (pos 45) refl (omega arith)
      (unfold allocate_plan_payment in omega arith)
