-- ===== src/Payments/Settle/Invoices.antt =====
-- The invoices around settleOrder of apps/api/src/payments/payments.service.ts.
use koinoxrista.Prelude.{
  ℕ, ◌≤◌, String, ◌≡◌, refl, sym, inl, inr, Bool, true, false, Option, none, List, [], ◌∷◌, arith,
  if◌then◌else◌, leb→le, Bool-cases, All,
}
use koinoxrista.Prelude.Int.{pos, ◌+ℤ◌, ◌-ℤ◌, ◌≤ℤ◌, leb_ℤ, int_laws}
use koinoxrista.Prelude.Tables.{count, update_many, find-holds, find-only}
use mathlib.Core.Path.{subst}
use text.Mathlib.Text.{◌==◌ as str_eq}
use text.Mathlib.TextEquality.{eq_iff}
use koinoxrista.Payments.Store.{PaymentStatus, Invoice, Store, is_paid}
use koinoxrista.Payments.Settle.{
  SettlementInput, Outcome, accepts, credit, finish, settle_order, is_refused,
}
use koinoxrista.Payments.Settle.Cases.{
  View, stopped, replayed, settled, claimed, settled_store, transaction-View,
}
use koinoxrista.Payments.Settle.Balance.{audited-keeps, settle_cases}

-- The paid amount lies between nothing and the total, and an invoice that is PAID is paid in full.
abbrev pub IsSound : Invoice → Type 0
IsSound v =
    (pos 0 ≤ℤ v.paid_cents)
    × (v.paid_cents ≤ℤ v.total_cents)
    × (is_paid v.status ≡ true → v.paid_cents ≡ v.total_cents)

abbrev pub HasUniqueIds : List Invoice → Type 0
HasUniqueIds vs = (k : String) → count (λ v. str_eq v.id k) vs ≤ 1

positive_amount : (i : SettlementInput) → is_refused i ≡ false → pos 0 ≤ℤ i.amount_cents
unfolding is_refused
positive_amount i h = ground arith

paid_if :
    (b : Bool) → is_paid (if b then PaymentStatus.paid else PaymentStatus.pending) ≡ true → b ≡ true
paid_if true h = refl
paid_if false h = cc

credit-IsSound :
    (i : SettlementInput) (v : Invoice)
    → pos 0 ≤ℤ i.amount_cents
    → leb_ℤ v.paid_cents (v.total_cents -ℤ i.amount_cents) ≡ true
    → IsSound v
    → IsSound (credit i v v)
unfolding credit
credit-IsSound i v a h p =
    let le : v.paid_cents ≤ℤ v.total_cents -ℤ i.amount_cents = leb→le _ _ h in
    let within : v.paid_cents +ℤ i.amount_cents ≤ℤ v.total_cents = omega int_laws in
    (
      omega int_laws,
      within,
      λ e.
          let full : v.total_cents ≤ℤ v.paid_cents +ℤ i.amount_cents =
            leb→le _ _ (paid_if (leb_ℤ v.total_cents (v.paid_cents +ℤ i.amount_cents)) e) in
          omega int_laws,
    )

same_id : (a b c : String) → str_eq a b ≡ true → str_eq b c ≡ true → str_eq a c ≡ true
same_id a b c p q = let e = (eq_iff a b).0 p in rw e q

accepts-parts :
    (i : SettlementInput) (v w : Invoice)
    → accepts i v w ≡ true
    → (str_eq w.id v.id ≡ true) × (leb_ℤ w.paid_cents (v.total_cents -ℤ i.amount_cents) ≡ true)
unfolding accepts
accepts-parts i v w h = ground arith

update-IsSound :
    (i : SettlementInput) (v : Invoice) (vs : List Invoice)
    → pos 0 ≤ℤ i.amount_cents
    → All (λ w. str_eq w.id i.order.invoice_id ≡ true → w ≡ v) vs
    → str_eq v.id i.order.invoice_id ≡ true
    → All IsSound vs
    → All IsSound (update_many (accepts i v) (credit i v) vs)
update-IsSound i v [] a same found h = tt
update-IsSound i v (w ∷ ws) a same found h = elim (Bool-cases (accepts i v w)) [
  | inl e ↦
      let (id_eq, room) = accepts-parts i v w e in
      let is_v : w ≡ v = same.0 (same_id w.id v.id i.order.invoice_id id_eq found) in
      let sound : IsSound (credit i v w) =
        subst (λ u. IsSound (credit i v u)) (sym is_v)
          (credit-IsSound i v a
            (subst (λ u. leb_ℤ u.paid_cents (v.total_cents -ℤ i.amount_cents) ≡ true) is_v room)
            (subst IsSound is_v h.0)) in
      rw e (sound, update-IsSound i v ws a same.1 found h.1)
  | inr e ↦ rw e (h.0, update-IsSound i v ws a same.1 found h.1)
]

module _ (s : Store) (i : SettlementInput) (c : String) (now : ℕ) where
  abbrev Sound : Store → Type 0
  Sound t = All IsSound t.invoices

  outcome-IsSound :
      {o : Outcome}
      → pos 0 ≤ℤ i.amount_cents
      → HasUniqueIds s.invoices
      → Sound s
      → View s i c now o
      → Sound (finish s i o).1
  outcome-IsSound a u h (stopped (inl e)) = unfold finish in rw e h
  outcome-IsSound a u h (stopped (inr e)) = unfold finish in rw e h
  outcome-IsSound a u h (replayed _ e) =
      unfold finish in rw e (audited-keeps Sound i _ none (claimed s i c now) h (λ _. h))
  outcome-IsSound a u h (settled v k e) =
      let same =
        find-only (λ w. str_eq w.id i.order.invoice_id) s.invoices v (u i.order.invoice_id)
          k.found in
      let found = find-holds (λ w. str_eq w.id i.order.invoice_id) s.invoices v k.found in
      let paid = update-IsSound i v s.invoices a same found h in
      unfold finish in
      rw e (audited-keeps Sound i true _ (settled_store (claimed s i c now) i c v) paid (λ _. paid))

-- Over invoices with different ids, no call takes an invoice's paid amount beyond its total or
-- below nothing, nor leaves one PAID that is not paid in full.
pub settle_within :
    (production : Bool) (normalize : String → Option String) (s : Store) (i : SettlementInput)
    (now : ℕ)
    → HasUniqueIds s.invoices
    → All IsSound s.invoices
    → All IsSound (settle_order production normalize s i now).1.invoices
settle_within production normalize s i now u h =
    settle_cases production normalize (λ r. All IsSound r.1.invoices) s i now h
      (λ c ok_i _.
        outcome-IsSound s i c now (positive_amount i ok_i) u h (transaction-View s i c now))
