-- ===== src/Payments/Tests.antt =====
-- Runs of a settlement: a first delivery, a second one, and an overpayment.
use koinoxrista.Prelude.{
  ℕ, ◌≤◌, ◌≡◌, refl, ap, Bool, true, false, none, some, [], ◌∷◌, map, arith, All,
}
use koinoxrista.Prelude.Int.{pos, ◌+ℤ◌, ◌-ℤ◌}
use koinoxrista.Prelude.Tables.{count}
use text.Mathlib.Text.{◌==◌ as str_eq}
use koinoxrista.Payments.Store.{OrderState, PaymentStatus, PaymentOrder, Invoice, Store}
use koinoxrista.Payments.Settle.{
  SettlementInput, settle_order, is_refused, lacks_provider, transaction, finish, audited,
  replay_belongs, charge, pay_invoice, claims, complete, order_clash, same_settlement,
  invalid_amounts, payment_clash, payment_of, accepts, credit,
}
use koinoxrista.Payments.Settle.Balance.{IsBalanced, settle-IsBalanced}
use koinoxrista.Payments.Settle.Invoices.{IsSound, settle_within}
use koinoxrista.Payments.Settle.Replay.{settle_refused, settle_once}

abbrev order : ℕ → PaymentOrder
order n = record {
  id = "o";
  invoice_id = "v";
  order_code = "77";
  amount_cents = pos n;
  status = OrderState.pending;
  provider = "viva";
  currency = "EUR";
  session_ref = some "77";
  payment_ref = none;
  event_ref = none;
  psp_ref = none;
  settled_at = none;
}

abbrev bill : Invoice
bill = record {
  id = "v";
  building_id = "b";
  total_cents = pos 100;
  paid_cents = pos 40;
  status = PaymentStatus.pending;
}

abbrev store : ℕ → Store
store n = record { orders = order n ∷ []; invoices = bill ∷ []; payments = []; audits = [] }

abbrev input : ℕ → SettlementInput
input n = record {
  order = order n;
  provider = "viva";
  psp_ref = "t1";
  payment_ref = none;
  event_id = "viva:77:t1";
  method = "CARD";
  amount_cents = pos n;
  currency = "EUR";
}

abbrev settle : ℕ → Store → Bool × Store
settle n s = settle_order true (λ c. some c) s (input n) 5

-- The order is paid in full: the invoice's 60 open cents arrive.
run_settle :
    let (done, s) = settle 60 (store 60) in
    (done ≡ true)
    × (map (λ v. v.paid_cents) s.invoices ≡ pos 100 ∷ [])
    × (map (λ p. p.amount_cents) s.payments ≡ pos 60 ∷ [])
    × (s.audits ≡ "o" ∷ [])
unfolding settle_order is_refused lacks_provider transaction finish audited replay_belongs charge
    pay_invoice claims complete order_clash same_settlement invalid_amounts payment_clash payment_of
    accepts credit ◌+ℤ◌ ◌-ℤ◌
run_settle = (refl, refl, refl, refl)

-- An order over 70 cents would overpay, so nothing happens.
run_overpay : settle 70 (store 70) ≡ (false, store 70)
unfolding settle_order is_refused lacks_provider transaction finish audited replay_belongs charge
    pay_invoice claims complete order_clash same_settlement invalid_amounts payment_clash payment_of
    accepts credit ◌+ℤ◌ ◌-ℤ◌
run_overpay = refl

one_row : {A : Type 0} (p : A → Bool) (x : A) → count p (x ∷ []) ≤ 1
one_row p x = ground arith

settle-IsBalanced_example : IsBalanced (store 60) (settle 60 (store 60)).1
settle-IsBalanced_example = settle-IsBalanced true (λ c. some c) (store 60) (input 60) 5

settle_within_example : All IsSound (settle 60 (store 60)).1.invoices
settle_within_example =
    settle_within true (λ c. some c) (store 60) (input 60) 5
      (λ k. one_row (λ v. str_eq v.id k) bill) ((omega arith, omega arith, λ e. cc), tt)

settle_refused_example : (settle 70 (store 70)).1 ≡ store 70
settle_refused_example =
    settle_refused true (λ c. some c) (store 70) (input 70) 5
      (λ k. one_row (λ v. str_eq v.id k) (order 70)) (ap (λ r. r.0) run_overpay)

settle_once_example :
    settle_order true (λ c. some c) (settle 60 (store 60)).1 (input 60) 9
    ≡ (true, (settle 60 (store 60)).1)
settle_once_example =
    settle_once true (λ c. some c) (store 60) (input 60) 5 9
      (λ k. one_row (λ v. str_eq v.id k) (order 60)) run_settle.0
