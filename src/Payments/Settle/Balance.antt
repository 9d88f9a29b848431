-- ===== src/Payments/Settle/Balance.antt =====
-- The sums of the books around settleOrder of apps/api/src/payments/payments.service.ts.
use koinoxrista.Prelude.{
  ℕ, String, ◌≡◌, refl, inl, inr, Bool, true, false, Option, none, some, List, [], ◌∷◌, arith,
  Bool-cases, Option-cases,
}
use koinoxrista.Prelude.Int.{ℤ, pos, ◌+ℤ◌, int_laws}
use koinoxrista.Prelude.Tables.{count, update_many, update_many-none}
use text.Mathlib.Text.{◌==◌ as str_eq}
use koinoxrista.Payments.Store.{Invoice, Payment, Store}
use koinoxrista.Payments.Settle.{
  SettlementInput, Outcome, payment_of, accepts, credit, transaction, finish, audited, settle_order,
  is_refused, lacks_provider,
}
use koinoxrista.Payments.Settle.Cases.{
  View, stopped, replayed, settled, claimed, settled_store, transaction-View,
}

abbrev pub received : List Payment → ℤ
received [] = pos 0
received (p ∷ ps) = p.amount_cents +ℤ received ps

abbrev pub paid_total : List Invoice → ℤ
paid_total [] = pos 0
paid_total (v ∷ vs) = v.paid_cents +ℤ paid_total vs

-- Since `s`, the invoices' paid amounts have grown by exactly the new payments.
abbrev pub IsBalanced : Store → Store → Type 0
IsBalanced s t =
    received t.payments +ℤ paid_total s.invoices ≡ received s.payments +ℤ paid_total t.invoices

credit-total :
    (i : SettlementInput) (v : Invoice) (xs : List Invoice)
    → count (accepts i v) xs ≡ 1
    → paid_total (update_many (accepts i v) (credit i v) xs) ≡ paid_total xs +ℤ i.amount_cents
unfolding credit
credit-total i v [] h = absurd (omega arith)
credit-total i v (x ∷ xs) h = elim (Bool-cases (accepts i v x)) [
  | inl e ↦
      let rest : count (accepts i v) xs ≡ 0 = ground arith in
      rw (e, update_many-none (accepts i v) (credit i v) xs rest) (omega int_laws)
  | inr e ↦ let ih = credit-total i v xs (ground arith) in rw (e, ih) (omega int_laws)
]

-- The audit entry touches nothing else.
pub audited-keeps :
    (P : Store → Type 0) (i : SettlementInput) (done : Bool) (b : Option String) (t : Store)
    → P t
    → ((a : List String) → P (record t { audits = a }))
    → P (audited i done b t)
unfolding audited
audited-keeps P i true none t p k = p
audited-keeps P i true (some b) t p k = elim (Bool-cases (str_eq b "")) [
  | inl e ↦ rw e p
  | inr e ↦ rw e (k (i.order.id ∷ t.audits))
]
audited-keeps P i false b t p k = p

payment-IsBalanced :
    (s : Store) (i : SettlementInput) (c : String) (now : ℕ) (v : Invoice)
    → count (accepts i v) s.invoices ≡ 1
    → IsBalanced s (settled_store (claimed s i c now) i c v)
unfolding payment_of
payment-IsBalanced s i c now v one = rw (credit-total i v s.invoices one) (omega int_laws)

-- A fact about the outcome of the transaction, for each of its endings that keep a store.
module _ (s : Store) (i : SettlementInput) (c : String) (now : ℕ) where
  outcome-IsBalanced : {o : Outcome} → View s i c now o → IsBalanced s (finish s i o).1
  outcome-IsBalanced (stopped (inl e)) = unfold finish in rw e refl
  outcome-IsBalanced (stopped (inr e)) = unfold finish in rw e refl
  outcome-IsBalanced (replayed _ e) =
      unfold finish in
      rw e (audited-keeps (IsBalanced s) i _ none (claimed s i c now) refl (λ a. refl))
  outcome-IsBalanced (settled v k e) =
      let paid = payment-IsBalanced s i c now v k.one_invoice in
      unfold finish in
      rw e (
        audited-keeps (IsBalanced s) i true _ (settled_store (claimed s i c now) i c v) paid
          (λ a. paid))

module _ (production : Bool) (normalize : String → Option String) where
  settle-runs :
      (i : SettlementInput) (c : String)
      → is_refused i ≡ false
      → normalize i.currency ≡ some c
      → lacks_provider production normalize i ≡ false
      → (t : Store) (n : ℕ)
      → settle_order production normalize t i n ≡ finish t i (transaction t i c n)
  unfolding settle_order
  settle-runs i c e f g t n = rw (e, f, settle_order) (rw g)

  -- Whatever holds of the store and of every ending of the transaction holds after the call.
  pub settle_cases :
      (P : Bool × Store → Type 0) (s : Store) (i : SettlementInput) (now : ℕ)
      → P (false, s)
      → ((c : String)
          → is_refused i ≡ false
          → ((t : Store) (n : ℕ)
              → settle_order production normalize t i n ≡ finish t i (transaction t i c n))
          → P (finish s i (transaction s i c now)))
      → P (settle_order production normalize s i now)
  settle_cases P s i now refused ran =
      unfold settle_order in
      elim (Bool-cases (is_refused i)) [
        | inl e ↦ rw e refused
        | inr e ↦ rw e (elim (Option-cases (normalize i.currency)) [
          | inl none_e ↦ rw (none_e, settle_order) refused
          | inr (c, some_e) ↦
              rw (some_e, settle_order)
                (elim (Bool-cases (lacks_provider production normalize i)) [
                  | inl l ↦ rw l refused
                  | inr l ↦ rw l (ran c e (settle-runs i c e some_e l))
                ])
        ])
      ]

  -- Every call keeps the books: the sum of what the invoices record as paid grows by exactly the
  -- sum of the payments that the call adds, whether it settles, is a replay, or is refused.
  pub settle-IsBalanced :
      (s : Store) (i : SettlementInput) (now : ℕ)
      → IsBalanced s (settle_order production normalize s i now).1
  settle-IsBalanced s i now =
      settle_cases (λ r. IsBalanced s r.1) s i now refl
        (λ c _ _. outcome-IsBalanced s i c now (transaction-View s i c now))
