-- ===== src/Payments/Checkout/Tests.antt =====
-- Runs of the checkout.
use koinoxrista.Prelude.{String, ◌≡◌, refl, Bool, true, false, Option, none, some, [], ◌∷◌, ok}
use koinoxrista.Prelude.Int.{ℤ, pos, ◌-ℤ◌, ◌≤ℤ◌}
use koinoxrista.Prelude.Tables.{find, count}
use text.Mathlib.Text.{◌==◌ as str_eq}
use koinoxrista.Fees.Charges.{is_other_building}
use koinoxrista.Payments.Store.{OrderState, PaymentStatus, PaymentOrder, Invoice, Store, is_paid}
use koinoxrista.Payments.Checkout.{
  Provider, Building, Reply, User, check_access, outstanding_of, check_currency, insert_order,
  currency_of, configured_provider, ask, place_order, start_checkout,
}
use koinoxrista.Payments.Checkout.Orders.{start_checkout_lem}

abbrev bill : Invoice
bill = record {
  id = "v";
  building_id = "B";
  total_cents = pos 1000;
  paid_cents = pos 400;
  status = PaymentStatus.pending;
}

abbrev open_bill : Store
open_bill = record { orders = []; invoices = bill ∷ []; payments = []; audits = [] }

abbrev greek : Building
greek = record { psp_provider = none; currency = some "EUR" }

abbrev owner : User
owner = record { building_id = some "B"; is_manager = false; owns = true }

abbrev same_text : String → String
same_text t = t

abbrev same_currency : String → Option String
same_currency c = some c

abbrev always : Provider → Bool
always p = true

abbrev answer : Provider → ℤ → String → String → Option Reply
answer p amount invoice currency =
    some (record { main_ref = "code"; session_ref = none; payment_ref = none; url = "https" })

abbrev ordered : PaymentOrder
ordered = record {
  id = "o";
  invoice_id = "v";
  order_code = "code";
  amount_cents = pos 600;
  status = OrderState.pending;
  provider = "viva";
  currency = "EUR";
  session_ref = some "code";
  payment_ref = none;
  event_ref = none;
  psp_ref = none;
  settled_at = none;
}

abbrev after_checkout : Store
after_checkout = record open_bill { orders = ordered ∷ []; audits = "o" ∷ [] }

run_checkout :
    start_checkout true same_text same_currency always answer open_bill "v" greek owner "o"
    ≡ (ok ordered, after_checkout)
unfolding start_checkout place_order check_access is_other_building outstanding_of
    configured_provider currency_of check_currency ask insert_order ◌-ℤ◌
run_checkout = refl

start_checkout_lem_example :
    (v : Invoice) × (find (λ w. str_eq w.id "v") open_bill.invoices ≡ some v)
    × (is_paid v.status ≡ false)
    × ("v" ≡ v.id)
    × (pos 600 ≡ v.total_cents -ℤ v.paid_cents)
    × (pos 1 ≤ℤ pos 600)
    × (OrderState.pending ≡ OrderState.pending)
    × (count (λ y. str_eq y.order_code "code") open_bill.orders ≡ 0)
    × (after_checkout.orders ≡ ordered ∷ [])
    × (after_checkout.invoices ≡ open_bill.invoices)
    × (after_checkout.payments ≡ [])
start_checkout_lem_example =
    start_checkout_lem true same_text same_currency always answer open_bill after_checkout "v" greek
      owner "o" ordered run_checkout
