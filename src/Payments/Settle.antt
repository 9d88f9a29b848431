-- ===== src/Payments/Settle.antt =====
-- `settleOrder` of apps/api/src/payments/payments.service.ts, which every webhook ends in. The
-- transaction is serializable, so a call is one step on the store; a throw inside it rolls all
-- back. The environment's `NODE_ENV` test and `normalizeCurrency`'s string functions are
-- parameters.
pub mod Cases
pub mod Balance
pub mod Invoices
pub mod Replay
use koinoxrista.Prelude.{
  ℕ, zero, suc, ◌+◌, ◌-◌, ◌*◌, ◌/◌, ◌%◌, ◌^◌, ◌≤◌, ◌<◌, min, max, String, ◌≡◌, refl, sym, ap, ◌∙◌,
  ◌≢◌, ◌↔◌, ◌⊎◌, inl, inr, Bool, true, false, not, ◌&&◌, ◌||◌, Option, none, some, List, [], ◌∷◌,
  ◌++◌, map, arith, ltb, leb, ◌==◌, if◌then◌else◌, ltb→lt, lt→ltb, leb→le, ==_iff, ==_refl,
  Bool-cases, Option-cases, length, get_elem?, take, get_or, length-append, length-map, total,
  total-append, total_scale, All, filter, All-append, total_mono, any, all, any-false, all-true,
  sum, sum-map, Result, ok, err, ◌>>=◌, ◌>>◌, throw_if, throw_if-ok, >>=-eq-ok, ok-injective,
}
use koinoxrista.Prelude.Int.{
  ℤ, pos, negsuc, pos_part, neg_part, sub_ℕ, ◌+ℤ◌, ◌-ℤ◌, ◌≤ℤ◌, ltb_ℤ, leb_ℤ, min_ℤ, max_ℤ, int_laws,
  pos_part-eq, +ℤ_parts, -ℤ_parts, eq_of_parts,
}
use koinoxrista.Prelude.Sort.{insert, sort, total-sort, sort-All, IsSorted, sort-IsSorted}
use koinoxrista.Prelude.Tables.{
  find, count, update_many, update_many-none, count_mono, update_many-All, find-holds,
}
use text.Mathlib.Text.{◌==◌ as str_eq}
use text.Mathlib.TextEquality.{eq_iff}
use koinoxrista.Payments.Store.{
  OrderState, PaymentStatus, PaymentOrder, Invoice, Payment, Store, is_pending, is_completed,
  is_paid, has, unset_or, is_safe, eq_ℤ,
}

pub record SettlementInput : Type 0 where
  pub order : PaymentOrder
  pub provider : String
  pub psp_ref : String
  pub payment_ref : Option String
  pub event_id : String
  pub method : String
  pub amount_cents : ℤ
  pub currency : String

-- How the transaction ended: committed with `outcome.ok` and `outcome.buildingId`, rolled back by
-- `SettlementRejectedError`, or by a violated unique index (P2002).
pub data Outcome : Type 0 where
  committed : Bool → Option String → Store → Outcome
  rejected : Outcome
  not_unique : Outcome

-- The `where` of the claim: the status test makes it a compare-and-swap.
unfoldable pub claims : SettlementInput → String → PaymentOrder → Bool
claims i currency o =
    str_eq o.id i.order.id
    && str_eq o.order_code i.order.order_code
    && eq_ℤ o.amount_cents i.order.amount_cents
    && str_eq o.provider i.provider
    && str_eq o.currency currency
    && is_pending o.status

-- `orderUpdate`
unfoldable pub complete : SettlementInput → ℕ → PaymentOrder → PaymentOrder
complete i now o = record o {
  status = OrderState.completed;
  payment_ref = elim i.payment_ref [
    | none ↦ o.payment_ref
    | some r ↦ if str_eq r "" then o.payment_ref else some r
  ];
  event_ref = some i.event_id;
  psp_ref = some i.psp_ref;
  settled_at = some now;
}

-- Another order holds the event or the PSP reference that the claim writes.
unfoldable pub order_clash : SettlementInput → String → List PaymentOrder → Bool
order_clash i currency orders =
    any (λ o. not (claims i currency o) && (has o.event_ref i.event_id || has o.psp_ref i.psp_ref))
      orders

-- The order that was not claimed has already been settled by the same event.
unfoldable pub same_settlement : SettlementInput → Option PaymentOrder → Bool
same_settlement i none = false
same_settlement i (some o) =
    is_completed o.status
    && str_eq o.order_code i.order.order_code
    && unset_or o.event_ref i.event_id
    && unset_or o.psp_ref i.psp_ref

unfoldable pub invalid_amounts : Invoice → Bool
invalid_amounts v =
    not (is_safe v.total_cents)
    || not (is_safe v.paid_cents)
    || ltb_ℤ v.total_cents (pos 0)
    || ltb_ℤ v.paid_cents (pos 0)
    || ltb_ℤ v.total_cents v.paid_cents
    || (is_paid v.status && not (eq_ℤ v.paid_cents v.total_cents))

unfoldable pub payment_clash : SettlementInput → List Payment → Bool
payment_clash i payments =
    any (λ p. str_eq p.payment_order_id i.order.id || str_eq p.psp_ref i.psp_ref) payments

unfoldable pub payment_of : SettlementInput → String → Invoice → Payment
payment_of i currency v = record {
  invoice_id = v.id;
  payment_order_id = i.order.id;
  provider = i.provider;
  currency = currency;
  event_ref = i.event_id;
  method = i.method;
  psp_ref = i.psp_ref;
  amount_cents = i.amount_cents;
}

-- The `where` and the `data` of the invoice update.
unfoldable pub accepts : SettlementInput → Invoice → Invoice → Bool
accepts i v w = str_eq w.id v.id && leb_ℤ w.paid_cents (v.total_cents -ℤ i.amount_cents)

unfoldable pub credit : SettlementInput → Invoice → Invoice → Invoice
credit i v w = record w {
  paid_cents = w.paid_cents +ℤ i.amount_cents;
  status =
      if leb_ℤ v.total_cents (v.paid_cents +ℤ i.amount_cents)
      then PaymentStatus.paid
      else PaymentStatus.pending;
}

-- From `payment.create` on, with the order claimed.
unfoldable pub pay_invoice : Store → SettlementInput → String → Invoice → Outcome
pay_invoice s i currency v =
    if payment_clash i s.payments
    then not_unique
    else if count (accepts i v) s.invoices == 1
    then committed true (some v.building_id) (record s {
      payments = payment_of i currency v ∷ s.payments;
      invoices = update_many (accepts i v) (credit i v) s.invoices;
    })
    else rejected

-- From `invoice.findUnique` on.
unfoldable pub charge : Store → SettlementInput → String → Outcome
charge s i currency = elim (find (λ v. str_eq v.id i.order.invoice_id) s.invoices) [
  | none ↦ rejected
  | some v ↦
      if invalid_amounts v
      then rejected
      else if ltb_ℤ (v.total_cents -ℤ v.paid_cents) i.amount_cents
      then rejected
      else pay_invoice s i currency v
]

-- The body of the transaction.
unfoldable pub transaction : Store → SettlementInput → String → ℕ → Outcome
transaction s i currency now =
    let claimed = record s { orders = update_many (claims i currency) (complete i now) s.orders } in
    if not (count (claims i currency) s.orders == 0) && order_clash i currency s.orders
    then not_unique
    else if count (claims i currency) s.orders == 1
    then charge claimed i currency
    else committed (same_settlement i (find (λ o. str_eq o.id i.order.id) claimed.orders)) none
        claimed

-- `replayBelongsToOrder`
unfoldable pub replay_belongs : Store → SettlementInput → Bool
replay_belongs s i = elim (find (λ p. str_eq p.psp_ref i.psp_ref) s.payments) [
  | some p ↦ str_eq p.payment_order_id i.order.id
  | none ↦ elim (find (λ o. has o.event_ref i.event_id) s.orders) [
    | some o ↦ str_eq o.id i.order.id
    | none ↦ false
  ]
]

-- The checks in front of the transaction, apart from the currency.
unfoldable pub is_refused : SettlementInput → Bool
is_refused i =
    str_eq i.order.id ""
    || str_eq i.order.order_code ""
    || str_eq i.psp_ref ""
    || str_eq i.event_id ""
    || not (is_safe i.amount_cents)
    || leb_ℤ i.amount_cents (pos 0)
    || not (eq_ℤ i.amount_cents i.order.amount_cents)

-- The audit entry of a settlement that named a building.
unfoldable pub audited : SettlementInput → Bool → Option String → Store → Store
audited i true (some b) s = if str_eq b "" then s else record s { audits = i.order.id ∷ s.audits }
audited i _ _ s = s

unfoldable pub finish : Store → SettlementInput → Outcome → Bool × Store
finish s i (committed done b t) = (done, audited i done b t)
finish s i rejected = (false, s)
finish s i not_unique = (replay_belongs s i, s)

module _ (production : Bool) (normalize_currency : String → Option String) where
  -- What production asks of the stored order.
  unfoldable pub lacks_provider : SettlementInput → Bool
  lacks_provider i =
      production
      && (str_eq i.order.provider ""
          || elim (normalize_currency i.order.currency) [ none ↦ true | some _ ↦ false ])

  unfoldable pub settle_order : Store → SettlementInput → ℕ → Bool × Store
  settle_order s i now = if is_refused i then (false, s) else elim (normalize_currency i.currency) [
    | none ↦ (false, s)
    | some currency ↦
        if lacks_provider i then (false, s) else finish s i (transaction s i currency now)
  ]
