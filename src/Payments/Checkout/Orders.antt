-- ===== src/Payments/Checkout/Orders.antt =====
-- The order that startCheckout makes: apps/api/src/payments/payments.service.ts.
use koinoxrista.Prelude.{
  ℕ, String, ◌≡◌, refl, sym, ap, Bool, false, not, ◌&&◌, ◌||◌, Option, none, some, ◌∷◌, arith, ◌==◌,
  Result, ok, err, throw_if, throw_if-ok, >>=-eq-ok, ok-injective, if-eq-err,
}
use koinoxrista.Prelude.Int.{ℤ, pos, ◌-ℤ◌, ◌≤ℤ◌, ltb_ℤ, leb_ℤ}
use koinoxrista.Prelude.Tables.{find, count}
use text.Mathlib.Text.{◌==◌ as str_eq}
use koinoxrista.Payments.Store.{OrderState, PaymentOrder, Invoice, Store, is_paid, is_safe}
use koinoxrista.Payments.Checkout.{
  Provider, CheckoutError, Building, Reply, User, refs_of, check_access, outstanding_of, lift,
  check_currency, new_order, insert_order, or_unchanged, currency_of, configured_provider, ask,
  place_order, start_checkout,
}

committed :
    (s t : Store) (o : PaymentOrder) (r : Result CheckoutError (PaymentOrder × Store))
    → or_unchanged s r ≡ (ok o, t)
    → r ≡ ok (o, t)
committed s t o (err e) h = absurd (refused (ap (λ p. p.0) h))
  where
    refused : ◌≡◌ {A = Result CheckoutError PaymentOrder} (err e) (ok o) → ⊥
    refused k = cc
committed s t o (ok (x, u)) h =
    let same : x ≡ o = ok-injective (ap (λ p. p.0) h) in
    let left : u ≡ t = ap (λ p. p.1) h in rw (same, left) refl

lifted : (e : CheckoutError) (f : Option Invoice) (v : Invoice) → lift e f ≡ ok v → f ≡ some v
lifted e none v h = absurd (refused h)
  where
    refused : ◌≡◌ {A = Result CheckoutError Invoice} (err e) (ok v) → ⊥
    refused k = cc
lifted e (some w) v h = ap some (ok-injective h)

-- What can be asked for an invoice.
outstanding_lem :
    (v : Invoice) (n : ℤ)
    → outstanding_of v ≡ ok n
    → (n ≡ v.total_cents -ℤ v.paid_cents) × (pos 1 ≤ℤ n) × (is_paid v.status ≡ false)
unfolding outstanding_of
outstanding_lem v n h =
    let (_, h₁) =
      if-eq-err
        (not (is_safe v.total_cents)
          || not (is_safe v.paid_cents)
          || ltb_ℤ v.total_cents (pos 0)
          || ltb_ℤ v.paid_cents (pos 0))
        CheckoutError.invalid_amounts _ h in
    let (unpaid, h₂) =
      if-eq-err
        (ltb_ℤ v.total_cents v.paid_cents
          || is_paid v.status
          || leb_ℤ (v.total_cents -ℤ v.paid_cents) (pos 0))
        CheckoutError.already_paid _ h₁ in
    let (_, h₃) =
      if-eq-err (not (is_safe (v.total_cents -ℤ v.paid_cents))) CheckoutError.bad_outstanding _
        h₂ in
    let (open_, positive) =
      neither (ltb_ℤ v.total_cents v.paid_cents) (is_paid v.status) (v.total_cents -ℤ v.paid_cents)
        unpaid in
    let same = ok-injective h₃ in (sym same, rw (sym same) positive, open_)
  where
    neither :
        (a b : Bool) (z : ℤ) → (a || b || leb_ℤ z (pos 0)) ≡ false → (b ≡ false) × (pos 1 ≤ℤ z)
    neither a b z h = (ground arith, ground arith)

insert_order_lem :
    (s t : Store) (o x : PaymentOrder)
    → insert_order s o ≡ ok (x, t)
    → (x ≡ o)
      × (t.orders ≡ o ∷ s.orders)
      × (t.invoices ≡ s.invoices)
      × (t.payments ≡ s.payments)
      × (count (λ y. str_eq y.order_code o.order_code) s.orders ≡ 0)
unfolding insert_order
insert_order_lem s t o x h =
    let (free, same) =
      throw_if-ok
        (not (
          count (λ y. str_eq y.id o.id) s.orders == 0
          && count (λ y. str_eq y.order_code o.order_code) s.orders == 0))
        CheckoutError.not_unique _ h in
    let pair = ok-injective same in
    let tables : record s { orders = o ∷ s.orders; audits = o.id ∷ s.audits } ≡ t =
      ap (λ (p : PaymentOrder × Store). p.1) pair in
    (
      sym (ap (λ (p : PaymentOrder × Store). p.0) pair),
      rw (sym tables) refl,
      rw (sym tables) refl,
      rw (sym tables) refl,
      new_code (count (λ y. str_eq y.id o.id) s.orders)
          (count (λ y. str_eq y.order_code o.order_code) s.orders) free,
    )
  where
    new_code : (a b : ℕ) → not (a == 0 && b == 0) ≡ false → b ≡ 0
    new_code a b h = ground arith

-- A checkout that returns has added one pending order, under an order code that no order had, for
-- exactly the amount by which the invoice is not yet paid, which is positive, and has changed no
-- invoice and no payment.
pub start_checkout_lem :
    (production : Bool) (normal : String → String) (normalize_currency : String → Option String)
    (available : Provider → Bool) (request : Provider → ℤ → String → String → Option Reply)
    (s t : Store) (invoice_id : String) (b : Building) (u : User) (new_id : String)
    (o : PaymentOrder)
    → start_checkout production normal normalize_currency available request s invoice_id b u new_id
      ≡ (ok o, t)
    → (v : Invoice) × (find (λ w. str_eq w.id invoice_id) s.invoices ≡ some v)
      × (is_paid v.status ≡ false)
      × (o.invoice_id ≡ v.id)
      × (o.amount_cents ≡ v.total_cents -ℤ v.paid_cents)
      × (pos 1 ≤ℤ o.amount_cents)
      × (o.status ≡ OrderState.pending)
      × (count (λ y. str_eq y.order_code o.order_code) s.orders ≡ 0)
      × (t.orders ≡ o ∷ s.orders)
      × (t.invoices ≡ s.invoices)
      × (t.payments ≡ s.payments)
unfolding start_checkout place_order
start_checkout_lem production normal normalize_currency available request s t invoice_id b u new_id
      o run =
    let placed =
      committed s t o
        (place_order production normal normalize_currency available request s invoice_id b u new_id)
        run in
    let (v, found, h₁) =
      >>=-eq-ok (lift CheckoutError.not_found (find (λ w. str_eq w.id invoice_id) s.invoices)) _
        placed in
    let (_, _, h₂) = >>=-eq-ok (check_access u v.building_id) _ h₁ in
    let (amount, asked, h₃) = >>=-eq-ok (outstanding_of v) _ h₂ in
    let (p, _, h₄) =
      >>=-eq-ok
        (lift CheckoutError.bad_provider
          (configured_provider production normal normalize_currency available request b))
        _ h₃ in
    let (c, _, h₅) =
      >>=-eq-ok
        (lift CheckoutError.bad_currency
          (currency_of production normal normalize_currency available request b))
        _ h₄ in
    let (_, _, h₆) = >>=-eq-ok (check_currency p c) _ h₅ in
    let (r, _, h₇) =
      >>=-eq-ok (ask production normal normalize_currency available request p amount v.id c) _ h₆ in
    let (_, _, h₈) =
      >>=-eq-ok (throw_if (str_eq (refs_of p r).0 "" || str_eq r.url "") CheckoutError.bad_reply) _
        h₇ in
    let (same, orders, invoices, payments, code) =
      insert_order_lem s t (new_order new_id v.id amount p c (refs_of p r)) o h₈ in
    let (equal, positive, open_) = outstanding_lem v amount asked in
    (
      v,
      lifted CheckoutError.not_found (find (λ w. str_eq w.id invoice_id) s.invoices) v found,
      open_,
      rw same refl,
      rw same equal,
      rw same positive,
      rw same refl,
      rw same code,
      rw same orders,
      invoices,
      payments,
    )
