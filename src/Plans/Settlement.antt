-- ===== src/Plans/Settlement.antt =====
-- Paying a plan into the invoices of its unit,
-- apps/api/src/payment-plans/payment-plan-settlement.ts. `localeCompare` is a parameter; an integer
-- of the program is one here, tested against the safe range.
pub mod Allocate
use koinoxrista.Prelude.{
  ◌+◌, ◌^◌, String, Bool, not, ◌&&◌, ◌||◌, List, [], ◌∷◌, ltb, if◌then◌else◌, filter, Result, ok,
  ◌>>◌, throw_if,
}
use koinoxrista.Prelude.Int.{ℤ, pos, negsuc, ◌+ℤ◌, ◌-ℤ◌, ltb_ℤ, leb_ℤ, min_ℤ}
use koinoxrista.Prelude.Sort.{sort}

-- `Number.isSafeInteger`
abbrev pub is_safe : ℤ → Bool
is_safe (pos n) = ltb n (2 ^ 53)
is_safe (negsuc n) = ltb (n + 1) (2 ^ 53)

pub record PlanInvoice : Type 0 where
  pub id : String
  pub unit_id : String
  pub building_id : String
  pub period : String
  pub total_cents : ℤ
  pub paid_cents : ℤ

pub record InvoiceAllocation : Type 0 where
  pub invoice_id : String
  pub period : String
  pub amount_cents : ℤ

pub data SettlementError : Type 0 where
  bad_amount incomplete : SettlementError
  exceeds : ℤ → SettlementError

pub is_payable : PlanInvoice → Bool
is_payable i =
    is_safe i.total_cents
    && is_safe i.paid_cents
    && leb_ℤ (pos 0) i.paid_cents
    && ltb_ℤ i.paid_cents i.total_cents

abbrev pub balance : PlanInvoice → ℤ
balance i = i.total_cents -ℤ i.paid_cents

abbrev pub outstanding : List PlanInvoice → ℤ
outstanding [] = pos 0
outstanding (i ∷ is') = balance i +ℤ outstanding is'

-- The loop over `normalized`: the allocations, and what remains.
pub allocate_from : List PlanInvoice → ℤ → List InvoiceAllocation × ℤ
allocate_from [] remaining = ([], remaining)
allocate_from (i ∷ is') remaining =
    let applied = min_ℤ remaining (balance i) in
    let next = allocate_from is' (remaining -ℤ applied) in
    let skipped = allocate_from is' remaining in
    if leb_ℤ remaining (pos 0)
    then ([], remaining)
    else if ltb_ℤ (pos 0) applied
    then (record { invoice_id = i.id; period = i.period; amount_cents = applied } ∷ next.0, next.1)
    else skipped

module _ (locale_compare : String → String → ℤ) where
  -- The comparator: by period, then by id.
  pub before : PlanInvoice → PlanInvoice → Bool
  before a b =
      let c = locale_compare a.period b.period in
      if ltb_ℤ c (pos 0) || ltb_ℤ (pos 0) c
      then ltb_ℤ c (pos 0)
      else ltb_ℤ (locale_compare a.id b.id) (pos 0)

  pub normalized : List PlanInvoice → List PlanInvoice
  unfolding is_payable before sort
  normalized invoices = sort before (filter is_payable invoices)

  -- `allocatePlanPaymentToInvoices`
  unfoldable pub allocate_plan_payment :
      List PlanInvoice → ℤ → Result SettlementError (List InvoiceAllocation)
  unfolding normalized allocate_from ◌+ℤ◌ ◌-ℤ◌
  allocate_plan_payment invoices amount =
      let rows = normalized invoices in
      let (allocations, remaining) = allocate_from rows amount in
      do
        throw_if (not (is_safe amount) || leb_ℤ amount (pos 0)) SettlementError.bad_amount
        throw_if (ltb_ℤ (outstanding rows) amount) (SettlementError.exceeds (outstanding rows))
        throw_if (ltb_ℤ remaining (pos 0) || ltb_ℤ (pos 0) remaining) SettlementError.incomplete
        ok allocations
