-- ===== src/Payments/Settle/Cases.antt =====
-- How a settlement's transaction can end, in the cases that the proofs need.
use koinoxrista.Prelude.{
  ℕ, String, ◌≡◌, refl, ◌≢◌, ◌⊎◌, inl, inr, true, false, not, ◌&&◌, none, some, ◌∷◌, ◌==◌, ==_iff,
  Bool-cases, Option-cases,
}
use koinoxrista.Prelude.Int.{◌-ℤ◌, ltb_ℤ}
use koinoxrista.Prelude.Tables.{find, count, update_many}
use text.Mathlib.Text.{◌==◌ as str_eq}
use koinoxrista.Payments.Store.{Invoice, Store}
use koinoxrista.Payments.Settle.{
  SettlementInput, Outcome, committed, rejected, not_unique, claims, complete, order_clash,
  same_settlement, invalid_amounts, payment_clash, payment_of, accepts, credit, pay_invoice, charge,
  transaction,
}

-- The store with the order claimed.
abbrev pub claimed : Store → SettlementInput → String → ℕ → Store
claimed s i c now = record s { orders = update_many (claims i c) (complete i now) s.orders }

-- The store with the payment made.
abbrev pub settled_store : Store → SettlementInput → String → Invoice → Store
settled_store s i c v = record s {
  payments = payment_of i c v ∷ s.payments;
  invoices = update_many (accepts i v) (credit i v) s.invoices;
}

-- What the transaction has checked when it commits a payment.
pub record Checked (s : Store) (i : SettlementInput) (c : String) (v : Invoice) : Type 0 where
  pub one_order : count (claims i c) s.orders ≡ 1
  pub found : find (λ w. str_eq w.id i.order.invoice_id) s.invoices ≡ some v
  pub amounts_ok : invalid_amounts v ≡ false
  pub fits : ltb_ℤ (v.total_cents -ℤ v.paid_cents) i.amount_cents ≡ false
  pub new_payment : payment_clash i s.payments ≡ false
  pub one_invoice : count (accepts i v) s.invoices ≡ 1

pub data View (s : Store) (i : SettlementInput) (c : String) (now : ℕ) (o : Outcome) : Type 0 where
  stopped : (o ≡ rejected) ⊎ (o ≡ not_unique) → View s i c now o
  replayed :
      count (claims i c) s.orders ≢ 1
      → o
        ≡ committed
            (same_settlement i (find (λ w. str_eq w.id i.order.id) (claimed s i c now).orders))
            none
            (claimed s i c now)
      → View s i c now o
  settled :
      (v : Invoice)
      → Checked s i c v
      → o ≡ committed true (some v.building_id) (settled_store (claimed s i c now) i c v)
      → View s i c now o

module _ (s : Store) (i : SettlementInput) (c : String) (now : ℕ) where
  abbrev t : Store
  t = claimed s i c now

  pay-View :
      (v : Invoice)
      → count (claims i c) s.orders ≡ 1
      → find (λ w. str_eq w.id i.order.invoice_id) s.invoices ≡ some v
      → invalid_amounts v ≡ false
      → ltb_ℤ (v.total_cents -ℤ v.paid_cents) i.amount_cents ≡ false
      → View s i c now (pay_invoice t i c v)
  unfolding pay_invoice
  pay-View v one found valid fits = elim (Bool-cases (payment_clash i s.payments)) [
    | inl e ↦ rw e (stopped (inr refl))
    | inr e ↦ rw e (elim (Bool-cases (count (accepts i v) s.invoices == 1)) [
      | inl e1 ↦ rw e1 (
          settled v
            (record {
              one_order = one;
              found = found;
              amounts_ok = valid;
              fits = fits;
              new_payment = e;
              one_invoice = (==_iff _ 1).0 e1;
            })
            refl)
      | inr e1 ↦ rw e1 (stopped (inl refl))
    ])
  ]

  charge-View : count (claims i c) s.orders ≡ 1 → View s i c now (charge t i c)
  charge-View one =
      unfold charge in
      elim (Option-cases (find (λ w. str_eq w.id i.order.invoice_id) s.invoices)) [
        | inl e ↦ rw (e, charge) (stopped (inl refl))
        | inr (v, e) ↦
            rw (e, charge)
              (elim (Bool-cases (invalid_amounts v)) [
                | inl bad ↦ rw bad (stopped (inl refl))
                | inr good ↦
                    rw good
                      (elim (Bool-cases (ltb_ℤ (v.total_cents -ℤ v.paid_cents) i.amount_cents)) [
                        | inl over ↦ rw over (stopped (inl refl))
                        | inr fits ↦ rw fits (pay-View v one e good fits)
                      ])
              ])
      ]

  pub transaction-View : View s i c now (transaction s i c now)
  transaction-View =
      unfold transaction in
      elim (Bool-cases (not (count (claims i c) s.orders == 0) && order_clash i c s.orders)) [
        | inl e ↦ rw e (stopped (inr refl))
        | inr e ↦ rw e (elim (Bool-cases (count (claims i c) s.orders == 1)) [
          | inl one ↦ rw one (charge-View ((==_iff _ 1).0 one))
          | inr more ↦ rw more (replayed (λ h. cc ((==_iff _ 1).1 h)) refl)
        ])
      ]
