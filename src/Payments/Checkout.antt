-- ===== src/Payments/Checkout.antt =====
-- `startCheckout` of apps/api/src/payments/payments.service.ts and `normalizeProvider` of
-- payment-config.ts. The calls of the payment providers are parameters: `available` is whether
-- requireAvailableAdapter accepts the adapter, and `request` is what it answers, none where it
-- throws. The building is that of the invoice's unit.
pub mod Orders
mod Tests
use koinoxrista.Prelude.{
  ℕ, zero, suc, ◌+◌, ◌-◌, ◌*◌, ◌/◌, ◌%◌, ◌^◌, ◌≤◌, ◌<◌, min, max, String, ◌≡◌, refl, sym, ap, ◌∙◌,
  ◌≢◌, ◌↔◌, ◌⊎◌, inl, inr, Bool, true, false, not, ◌&&◌, ◌||◌, Option, none, some, List, [], ◌∷◌,
  ◌++◌, map, arith, ltb, leb, ◌==◌, if◌then◌else◌, ltb→lt, lt→ltb, leb→le, ==_iff, ==_refl,
  Bool-cases, Option-cases, length, get_elem?, take, get_or, length-append, length-map, total,
  append-nil, append_assoc, total-append, total_scale, All, filter, All-append, total_mono, any,
  all, any-false, all-true, sum, sum-map, Result, ok, err, ◌>>=◌, ◌>>◌, throw_if, throw_if-ok,
  >>=-eq-ok, ok-injective, if-eq-ok, if-eq-err,
}
use koinoxrista.Prelude.Int.{
  ℤ, pos, negsuc, pos_part, neg_part, sub_ℕ, ◌+ℤ◌, ◌-ℤ◌, ◌≤ℤ◌, ltb_ℤ, leb_ℤ, min_ℤ, max_ℤ, int_laws,
  pos_part-eq, +ℤ_parts, -ℤ_parts, eq_of_parts,
}
use koinoxrista.Prelude.Sort.{insert, sort, total-sort, sort-All, IsSorted, sort-IsSorted}
use koinoxrista.Prelude.Tables.{
  find, count, update_many, update_many-none, count_mono, update_many-All, find-holds, find-only,
  find-All,
}
use koinoxrista.Prelude.Sums.{
  HasUniqueKeys, total-update_one, total-update_one_less, count-update_many, count-append,
  count-one, find-own_key, count-own_key, find-count, total-update_many_mono, HasUniqueKeys-cons,
  HasUniqueKeys-snoc, HasUniqueKeys-update_many,
}
use text.Mathlib.Text.{◌==◌ as str_eq}
use text.Mathlib.TextEquality.{eq_iff}
use text.Mathlib.TextPositions.{eq_refl}
use koinoxrista.Payments.Store.{
  OrderState, PaymentStatus, PaymentOrder, Invoice, Store, is_paid, is_safe,
}
use koinoxrista.Fees.Charges.{is_other_building}

-- `PaymentProvider`
pub data Provider : Type 0 where
  viva stripe stripejp mercadopago gmo : Provider

abbrev pub provider_text : Provider → String
provider_text viva = "viva"
provider_text stripe = "stripe"
provider_text stripejp = "stripejp"
provider_text mercadopago = "mercadopago"
provider_text gmo = "gmo"

pub data CheckoutError : Type 0 where
  not_found forbidden invalid_amounts already_paid bad_outstanding bad_provider bad_currency
        only_eur only_jpy unavailable failed bad_reply not_unique :
      CheckoutError

pub record Building : Type 0 where
  pub psp_provider : Option String
  pub currency : Option String

-- What an adapter answers. Viva and Mercado Pago give only the first reference.
pub record Reply : Type 0 where
  pub main_ref : String
  pub session_ref : Option String
  pub payment_ref : Option String
  pub url : String

-- The user of a request: the building, whether an ADMIN or a BUILDING_OWNER, and whether a row of
-- ownership of the unit exists.
pub record User : Type 0 where
  pub building_id : Option String
  pub is_manager : Bool
  pub owns : Bool

abbrev pub or_else : Option String → String → String
or_else none d = d
or_else (some x) d = x

-- `orderCode`, which `sessionRef` equals, and `paymentRef`.
abbrev pub refs_of : Provider → Reply → String × Option String
refs_of stripe r = (or_else r.session_ref r.main_ref, r.payment_ref)
refs_of stripejp r = (or_else r.session_ref r.main_ref, r.payment_ref)
refs_of _ r = (r.main_ref, none)

-- `normalizeProvider`, given `value.trim().toLowerCase()`.
unfoldable pub provider_of : String → Option Provider
provider_of t =
    if str_eq t "" || str_eq t "viva"
    then some viva
    else if str_eq t "stripe"
    then some stripe
    else if str_eq t "stripejp" || str_eq t "stripe-jp"
    then some stripejp
    else if str_eq t "mercadopago" || str_eq t "mercado-pago" || str_eq t "mercado_pago"
    then some mercadopago
    else if str_eq t "gmo"
    then some gmo
    else none

abbrev pub is_viva : Provider → Bool
is_viva viva = true
is_viva _ = false

abbrev pub is_stripejp : Provider → Bool
is_stripejp stripejp = true
is_stripejp _ = false

abbrev pub is_gmo : Provider → Bool
is_gmo gmo = true
is_gmo _ = false

-- `assertAccess`
unfoldable pub check_access : User → String → Result CheckoutError (Unit {0})
check_access u building = do
  throw_if (is_other_building u.building_id building) CheckoutError.forbidden
  throw_if (not u.is_manager && not u.owns) CheckoutError.forbidden

-- The outstanding amount of an invoice that can be paid.
unfoldable pub outstanding_of : Invoice → Result CheckoutError ℤ
outstanding_of v =
    if not (is_safe v.total_cents)
      || not (is_safe v.paid_cents)
      || ltb_ℤ v.total_cents (pos 0)
      || ltb_ℤ v.paid_cents (pos 0)
    then err CheckoutError.invalid_amounts
    else if ltb_ℤ v.total_cents v.paid_cents
        || is_paid v.status
        || leb_ℤ (v.total_cents -ℤ v.paid_cents) (pos 0)
    then err CheckoutError.already_paid
    else if not (is_safe (v.total_cents -ℤ v.paid_cents))
    then err CheckoutError.bad_outstanding
    else ok (v.total_cents -ℤ v.paid_cents)

abbrev pub lift {ℓ} : {A : Type ℓ} → CheckoutError → Option A → Result CheckoutError A
lift e none = err e
lift e (some x) = ok x

-- The currency rules of the two providers that have one.
unfoldable pub check_currency : Provider → String → Result CheckoutError (Unit {0})
check_currency p c = do
  throw_if (is_viva p && not (str_eq c "EUR")) CheckoutError.only_eur
  throw_if (is_stripejp p && not (str_eq c "JPY")) CheckoutError.only_jpy

abbrev pub new_order :
    String → String → ℤ → Provider → String → String × Option String → PaymentOrder
new_order id invoice_id amount p currency refs = record {
  id = id;
  invoice_id = invoice_id;
  order_code = refs.0;
  amount_cents = amount;
  status = OrderState.pending;
  provider = provider_text p;
  currency = currency;
  session_ref = some refs.0;
  payment_ref = elim refs.1 [ none ↦ none | some r ↦ if str_eq r "" then none else some r ];
  event_ref = none;
  psp_ref = none;
  settled_at = none;
}

-- `paymentOrder.create`, which refuses an id or an order code that the table has, and the audit
-- record.
unfoldable pub insert_order : Store → PaymentOrder → Result CheckoutError (PaymentOrder × Store)
insert_order s o = do
  throw_if
      (not (
        count (λ x. str_eq x.id o.id) s.orders == 0
        && count (λ x. str_eq x.order_code o.order_code) s.orders == 0))
      CheckoutError.not_unique
  ok (o, record s { orders = o ∷ s.orders; audits = o.id ∷ s.audits })

abbrev pub or_unchanged :
    Store → Result CheckoutError (PaymentOrder × Store) → Result CheckoutError PaymentOrder × Store
or_unchanged s (err e) = (err e, s)
or_unchanged s (ok (o, t)) = (ok o, t)

module _ (production : Bool) (normal : String → String)
    (normalize_currency : String → Option String) (available : Provider → Bool)
    (request : Provider → ℤ → String → String → Option Reply) where
  unfoldable pub currency_of : Building → Option String
  currency_of b = elim b.currency [
    | some c ↦ normalize_currency c
    | none ↦ if production then none else normalize_currency "EUR"
  ]

  unfoldable pub configured_provider : Building → Option Provider
  configured_provider b = elim b.psp_provider [ none ↦ some viva | some t ↦ provider_of (normal t) ]

  -- The call of the adapter.
  unfoldable pub ask : Provider → ℤ → String → String → Result CheckoutError Reply
  ask p amount invoice_id currency = do
    throw_if (is_gmo p) CheckoutError.unavailable
    throw_if (not (available p)) CheckoutError.unavailable
    lift CheckoutError.failed (request p amount invoice_id currency)

  unfoldable pub place_order :
      Store → String → Building → User → String → Result CheckoutError (PaymentOrder × Store)
  place_order s invoice_id b u new_id =
      lift CheckoutError.not_found (find (λ v. str_eq v.id invoice_id) s.invoices) >>= λ v.
      check_access u v.building_id >>= λ _. outstanding_of v >>= λ amount.
      lift CheckoutError.bad_provider (configured_provider b) >>= λ p.
      lift CheckoutError.bad_currency (currency_of b) >>= λ currency.
      check_currency p currency >>= λ _. ask p amount v.id currency >>= λ r.
      throw_if (str_eq (refs_of p r).0 "" || str_eq r.url "") CheckoutError.bad_reply >>= λ _.
      insert_order s (new_order new_id v.id amount p currency (refs_of p r))

  -- `startCheckout`
  unfoldable pub start_checkout :
      Store → String → Building → User → String → Result CheckoutError PaymentOrder × Store
  start_checkout s invoice_id b u new_id = or_unchanged s (place_order s invoice_id b u new_id)
