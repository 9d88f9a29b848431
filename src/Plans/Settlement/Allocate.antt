-- ===== src/Plans/Settlement/Allocate.antt =====
-- The allocations of allocatePlanPaymentToInvoices,
-- apps/api/src/payment-plans/payment-plan-settlement.ts.
use koinoxrista.Prelude.{
  ◌+◌, String, ◌≡◌, refl, ◌≢◌, ◌⊎◌, inl, inr, true, List, [], ◌∷◌, arith, Bool-cases, All, filter,
  ok, err,
}
use koinoxrista.Prelude.Int.{
  ℤ, pos, pos_part, neg_part, ◌+ℤ◌, ◌-ℤ◌, ◌≤ℤ◌, min_ℤ, int_laws, +ℤ_parts, -ℤ_parts,
  parts_exclusive,
}
use koinoxrista.Prelude.Sort.{sort-All}
use native.Mathlib.Decide.{dec_le}
use koinoxrista.Plans.Settlement.{
  PlanInvoice, InvoiceAllocation, SettlementError, is_safe, is_payable, balance, outstanding,
  allocate_from, before, normalized, allocate_plan_payment,
}

abbrev pub allocated : List InvoiceAllocation → ℤ
allocated [] = pos 0
allocated (a ∷ as') = a.amount_cents +ℤ allocated as'

abbrev pub IsOwed : PlanInvoice → Type 0
IsOwed i = pos 1 ≤ℤ balance i

-- The allocations go to the invoices in order: each one but the last settles its invoice, and the
-- last stays within the balance of its own.
abbrev pub Covers : List PlanInvoice → List InvoiceAllocation → Type 0
Covers [] as' = as' ≡ []
Covers (i ∷ is') [] = Unit
Covers (i ∷ is') (a ∷ as') =
    (a.invoice_id ≡ i.id)
    × (pos 1 ≤ℤ a.amount_cents)
    × (((a.amount_cents ≡ balance i) × Covers is' as')
        ⊎ ((a.amount_cents ≤ℤ balance i) × (as' ≡ [])))

outstanding_nonneg : (rows : List PlanInvoice) → All IsOwed rows → pos 0 ≤ℤ outstanding rows
outstanding_nonneg [] h = omega arith
outstanding_nonneg (i ∷ is') h =
    omega (arith, +ℤ_parts (balance i) (outstanding is'), outstanding_nonneg is' h.1, h.0)

nothing-left : (rows : List PlanInvoice) → allocate_from rows (pos 0) ≡ ([], pos 0)
unfolding allocate_from
nothing-left [] = refl
nothing-left (i ∷ is') = refl

-- One round with money left and a balance to pay.
allocate-cons :
    (i : PlanInvoice) (is' : List PlanInvoice) (r : ℤ)
    → IsOwed i
    → pos 1 ≤ℤ r
    → let applied = min_ℤ r (balance i) in
      let next = allocate_from is' (r -ℤ applied) in
      allocate_from (i ∷ is') r
      ≡ (record { invoice_id = i.id; period = i.period; amount_cents = applied } ∷ next.0, next.1)
unfolding allocate_from
allocate-cons i is' r h p = ground arith

-- After the one round with money left and a balance to pay.
abbrev Placed : PlanInvoice → List PlanInvoice → ℤ → Type 0
Placed i is' r =
    let applied = min_ℤ r (balance i) in
    let next = allocate_from is' (r -ℤ applied) in
    let a : InvoiceAllocation = record {
      invoice_id = i.id;
      period = i.period;
      amount_cents = applied;
    } in
    (next.1 ≡ pos 0) × (allocated (a ∷ next.0) ≡ r) × Covers (i ∷ is') (a ∷ next.0)

min-left : (r b : ℤ) → r ≤ℤ b → min_ℤ r b ≡ r
min-left r b h = ground arith

min-right : (r b : ℤ) → ¬ (r ≤ℤ b) → min_ℤ r b ≡ b
min-right r b h = ground arith

add_back : (b s r : ℤ) → s ≡ r -ℤ b → b +ℤ s ≡ r
add_back b s r e = rw e (omega int_laws)

partial :
    (i : PlanInvoice) (is' : List PlanInvoice) (r : ℤ)
    → pos 1 ≤ℤ r
    → r ≤ℤ balance i
    → Placed i is' r
partial i is' r p q =
    let used : r -ℤ r ≡ pos 0 = omega int_laws in
    rw (min-left r (balance i) q, used, nothing-left is')
      (refl, omega int_laws, (refl, p, inr (q, refl)))

full :
    (i : PlanInvoice) (is' : List PlanInvoice) (r : ℤ)
    → IsOwed i
    → ¬ (r ≤ℤ balance i)
    → let rest = allocate_from is' (r -ℤ balance i) in
      (rest.1 ≡ pos 0) × (allocated rest.0 ≡ r -ℤ balance i) × Covers is' rest.0 → Placed i is' r
full i is' r owed more (done, summed, covered) =
    rw (min-right r (balance i) more)
      (done, add_back _ _ r summed, (refl, owed, inl (refl, covered)))

loop_lem :
    (rows : List PlanInvoice) (r : ℤ)
    → All IsOwed rows
    → pos 0 ≤ℤ r
    → r ≤ℤ outstanding rows
    → ((allocate_from rows r).1 ≡ pos 0)
      × (allocated (allocate_from rows r).0 ≡ r)
      × Covers rows (allocate_from rows r).0
loop_lem [] r h p q = unfold allocate_from in (omega int_laws, omega int_laws, refl)
loop_lem (i ∷ is') r h p q = elim (dec_le (pos_part r) 0) [
  | yes z ↦
      let none_left : r ≡ pos 0 = omega int_laws in
      rw (none_left, nothing-left (i ∷ is')) (refl, refl, tt)
  | no z ↦
      rw (allocate-cons i is' r h.0 (omega (arith, parts_exclusive r)))
        (elim (dec_le (pos_part r + neg_part (balance i)) (pos_part (balance i) + neg_part r)) [
          | yes all_in ↦ partial i is' r (omega (arith, parts_exclusive r)) all_in
          | no more ↦
              full i is' r h.0 more
                (loop_lem is' (r -ℤ balance i) h.1 (omega int_laws) (omega int_laws))
        ])
]

payable-IsOwed : (i : PlanInvoice) → is_payable i ≡ true → IsOwed i
unfolding is_payable
payable-IsOwed i h = ground (arith, -ℤ_parts i.total_cents i.paid_cents)

filter-IsOwed : (is' : List PlanInvoice) → All IsOwed (filter is_payable is')
filter-IsOwed [] = tt
filter-IsOwed (i ∷ is') = elim (Bool-cases (is_payable i)) [
  | inl e ↦ rw (e, filter) (payable-IsOwed i e, filter-IsOwed is')
  | inr e ↦ rw (e, filter) (filter-IsOwed is')
]

module _ (locale_compare : String → String → ℤ) where
  normalized-IsOwed :
      (invoices : List PlanInvoice) → All IsOwed (normalized locale_compare invoices)
  unfolding normalized
  normalized-IsOwed invoices =
      sort-All (before locale_compare) IsOwed (filter is_payable invoices) (filter-IsOwed invoices)

  -- A positive amount in the safe range that the unit's open invoices can take is placed whole: the
  -- call returns allocations that add up to it and that settle the invoices in their order.
  pub settlement_places :
      (invoices : List PlanInvoice) (amount : ℤ)
      → is_safe amount ≡ true
      → pos 1 ≤ℤ amount
      → amount ≤ℤ outstanding (normalized locale_compare invoices)
      → (as' : List InvoiceAllocation) × (allocate_plan_payment locale_compare invoices amount
          ≡ ok as')
        × (allocated as' ≡ amount)
        × Covers (normalized locale_compare invoices) as'
  unfolding allocate_plan_payment
  settlement_places invoices amount safe p q =
      let rows = normalized locale_compare invoices in
      let (done, summed, covered) =
        loop_lem rows amount (normalized-IsOwed invoices) (omega arith) q in
      ((allocate_from rows amount).0, ground arith, summed, covered)

  -- The last check of the call, for a payment that could not be placed whole, never fires.
  pub settlement_complete :
      (invoices : List PlanInvoice) (amount : ℤ)
      → allocate_plan_payment locale_compare invoices amount ≢ err SettlementError.incomplete
  unfolding allocate_plan_payment
  settlement_complete invoices amount =
      let rows = normalized locale_compare invoices in
      ground (arith, loop_lem rows amount (normalized-IsOwed invoices))
