-- ===== src/Payments/Settle/Replay.antt =====
-- A second delivery, and a refusal, of settleOrder of apps/api/src/payments/payments.service.ts.
use koinoxrista.Prelude.{
  ℕ, ◌≤◌, String, ◌≡◌, refl, sym, ap, ◌∙◌, ◌≢◌, inl, inr, Bool, true, false, Option, none, some,
  List, [], ◌∷◌, arith, Bool-cases,
}
use koinoxrista.Prelude.Tables.{find, count, update_many, update_many-none, count_mono}
use mathlib.Core.Path.{subst}
use text.Mathlib.Text.{◌==◌ as str_eq}
use text.Mathlib.TextPositions.{eq_refl}
use koinoxrista.Payments.Store.{PaymentOrder, Invoice, Store}
use koinoxrista.Payments.Settle.{
  SettlementInput, Outcome, committed, not_unique, claims, complete, charge, pay_invoice,
  transaction, finish, audited, settle_order, same_settlement, replay_belongs,
}
use koinoxrista.Payments.Settle.Cases.{
  View, stopped, replayed, settled, Checked, claimed, settled_store, transaction-View,
}
use koinoxrista.Payments.Settle.Balance.{settle_cases}

-- No two orders have the same id.
abbrev pub HasUniqueOrders : List PaymentOrder → Type 0
HasUniqueOrders os = (k : String) → count (λ o. str_eq o.id k) os ≤ 1

claims-id :
    (i : SettlementInput) (c : String) (o : PaymentOrder)
    → claims i c o ≡ true
    → str_eq o.id i.order.id ≡ true
unfolding claims
claims-id i c o h = ground arith

claims-le :
    (i : SettlementInput) (c : String) (os : List PaymentOrder)
    → HasUniqueOrders os
    → count (claims i c) os ≤ 1
claims-le i c os u =
    omega (
      arith,
      u i.order.id,
      count_mono (claims i c) (λ o. str_eq o.id i.order.id) os (claims-id i c),
    )

unclaimed :
    (s : Store) (i : SettlementInput) (c : String) (now : ℕ)
    → HasUniqueOrders s.orders
    → count (claims i c) s.orders ≢ 1
    → claimed s i c now ≡ s
unclaimed s i c now u h =
    ap (λ os. record s { orders = os })
      (update_many-none (claims i c) (complete i now) s.orders
        (omega (arith, claims-le i c s.orders u)))

audited-none : (i : SettlementInput) (b : Bool) (t : Store) → audited i b none t ≡ t
unfolding audited
audited-none i true t = refl
audited-none i false t = refl

outcome-refused :
    (s : Store) (i : SettlementInput) (c : String) (now : ℕ) {o : Outcome}
    → HasUniqueOrders s.orders
    → View s i c now o
    → (finish s i o).0 ≡ false
    → (finish s i o).1 ≡ s
outcome-refused s i c now u (stopped (inl e)) h = unfold finish in rw e
outcome-refused s i c now u (stopped (inr e)) h = unfold finish in rw e
outcome-refused s i c now u (replayed k e) h =
    unfold finish in rw e (audited-none i _ (claimed s i c now) ∙ unclaimed s i c now u k)
outcome-refused s i c now u (settled v k e) h = unfold finish in absurd (cc)

-- A call that returns false has left the store as it was.
pub settle_refused :
    (production : Bool) (normalize : String → Option String) (s : Store) (i : SettlementInput)
    (now : ℕ)
    → HasUniqueOrders s.orders
    → (settle_order production normalize s i now).0 ≡ false
    → (settle_order production normalize s i now).1 ≡ s
settle_refused production normalize s i now u =
    settle_cases production normalize (λ r. r.0 ≡ false → r.1 ≡ s) s i now (λ _. refl)
      (λ c _ _. outcome-refused s i c now u (transaction-View s i c now))

completed-unclaimed :
    (i : SettlementInput) (c : String) (now : ℕ) (os : List PaymentOrder)
    → count (claims i c) (update_many (claims i c) (complete i now) os) ≡ 0
completed-unclaimed i c now [] = refl
completed-unclaimed i c now (o ∷ os) = elim (Bool-cases (claims i c o)) [
  | inl e ↦
      let done : claims i c (complete i now o) ≡ false = unfold claims complete in ground arith in
      rw (e, done) (omega (arith, completed-unclaimed i c now os))
  | inr e ↦ rw (e, e) (omega (arith, completed-unclaimed i c now os))
]

same-complete :
    (i : SettlementInput) (c : String) (now : ℕ) (o : PaymentOrder)
    → claims i c o ≡ true
    → (str_eq (complete i now o).id i.order.id ≡ true)
      × (same_settlement i (some (complete i now o)) ≡ true)
unfolding claims complete same_settlement
same-complete i c now o h = rw (eq_refl i.event_id, eq_refl i.psp_ref) (ground arith)

find-completed :
    (i : SettlementInput) (c : String) (now : ℕ) (os : List PaymentOrder)
    → count (claims i c) os ≡ 1
    → count (λ o. str_eq o.id i.order.id) os ≤ 1
    → same_settlement i
        (find (λ o. str_eq o.id i.order.id) (update_many (claims i c) (complete i now) os))
      ≡ true
find-completed i c now [] one u = absurd (omega arith)
find-completed i c now (o ∷ os) one u = elim (Bool-cases (claims i c o)) [
  | inl e ↦ let (id_ok, done) = same-complete i c now o e in rw (e, id_ok) done
  | inr e ↦
      let rest : count (claims i c) os ≡ 1 = ground arith in
      let more = count_mono (claims i c) (λ w. str_eq w.id i.order.id) os (claims-id i c) in
      let other : str_eq o.id i.order.id ≡ false = ground arith in
      rw (e, other) (find-completed i c now os rest (ground arith))
]

-- A call that finds nothing to claim.
transaction-unclaimed :
    (s : Store) (i : SettlementInput) (c : String) (now : ℕ)
    → count (claims i c) s.orders ≡ 0
    → transaction s i c now
      ≡ committed (same_settlement i (find (λ o. str_eq o.id i.order.id) s.orders)) none s
unfolding transaction
transaction-unclaimed s i c now h =
    rw (h, update_many-none (claims i c) (complete i now) s.orders h) refl

finish-unclaimed :
    (s : Store) (i : SettlementInput) (c : String) (now : ℕ)
    → count (claims i c) s.orders ≡ 0
    → same_settlement i (find (λ o. str_eq o.id i.order.id) s.orders) ≡ true
    → finish s i (transaction s i c now) ≡ (true, s)
unfolding finish
finish-unclaimed s i c now h same =
    rw (transaction-unclaimed s i c now h, same) (ap (λ t. (true, t)) (audited-none i true s))

not_unique-later :
    (s : Store) (i : SettlementInput) (c : String) (now later : ℕ)
    → transaction s i c now ≡ not_unique
    → transaction s i c later ≡ not_unique
unfolding transaction charge pay_invoice
not_unique-later s i c now later h = ground arith

abbrev Repeats : SettlementInput → String → ℕ → Bool × Store → Type 0
Repeats i c later r = r.0 ≡ true → finish r.1 i (transaction r.1 i c later) ≡ (true, r.1)

Repeats-of :
    (i : SettlementInput) (c : String) (later : ℕ) (b : Bool) (t : Store) {r : Bool × Store}
    → r ≡ (b, t)
    → (b ≡ true → finish t i (transaction t i c later) ≡ (true, t))
    → Repeats i c later r
Repeats-of i c later b t e h = subst (Repeats i c later) (sym e) h

-- The completed order is found, and nothing is left to claim.
settled-again :
    (s : Store) (i : SettlementInput) (c : String) (now later : ℕ) (v : Invoice)
    (audits : List String)
    → HasUniqueOrders s.orders
    → Checked s i c v
    → let t : Store = record (settled_store (claimed s i c now) i c v) { audits = audits } in
      finish t i (transaction t i c later) ≡ (true, t)
settled-again s i c now later v audits u k =
    finish-unclaimed _ i c later (completed-unclaimed i c now s.orders)
      (find-completed i c now s.orders k.one_order (u i.order.id))

audited-cases :
    (i : SettlementInput) (b : String) (t : Store)
    → (a : List String) × (audited i true (some b) t ≡ record t { audits = a })
unfolding audited
audited-cases i b t = elim (Bool-cases (str_eq b "")) [
  | inl e ↦ (t.audits, rw e)
  | inr e ↦ (i.order.id ∷ t.audits, rw e)
]

outcome-Repeats :
    (s : Store) (i : SettlementInput) (c : String) (now later : ℕ)
    → HasUniqueOrders s.orders
    → View s i c now (transaction s i c now)
    → Repeats i c later (finish s i (transaction s i c now))
outcome-Repeats s i c now later u (stopped (inl e)) =
    Repeats-of i c later false s (unfold finish in rw e) (λ h. absurd (cc))
outcome-Repeats s i c now later u (stopped (inr e)) =
    let again = not_unique-later s i c now later e in
    Repeats-of i c later (replay_belongs s i) s (unfold finish in rw e)
      (λ h. unfold finish in rw again (rw h))
outcome-Repeats s i c now later u (replayed k e) =
    let same = unclaimed s i c now u k in
    let none_claimed : count (claims i c) s.orders ≡ 0 = omega (arith, claims-le i c s.orders u) in
    let b : Bool = same_settlement i (find (λ o. str_eq o.id i.order.id) s.orders) in
    let first : transaction s i c now ≡ committed b none s =
      transaction-unclaimed s i c now none_claimed in
    Repeats-of i c later b s (unfold finish in rw first (ap (λ t. (b, t)) (audited-none i b s)))
      (finish-unclaimed s i c later none_claimed)
outcome-Repeats s i c now later u (settled v k e) =
    let (a, ae) = audited-cases i v.building_id (settled_store (claimed s i c now) i c v) in
    let t : Store = record (settled_store (claimed s i c now) i c v) { audits = a } in
    Repeats-of i c later true t (unfold finish in rw e (ap (λ w. (true, w)) ae))
      (λ _. settled-again s i c now later v a u k)

-- A settlement that has succeeded can be delivered again at any later time: the call returns true
-- and changes nothing, so the money is taken once.
pub settle_once :
    (production : Bool) (normalize : String → Option String) (s : Store) (i : SettlementInput)
    (now later : ℕ)
    → HasUniqueOrders s.orders
    → (settle_order production normalize s i now).0 ≡ true
    → settle_order production normalize (settle_order production normalize s i now).1 i later
      ≡ (true, (settle_order production normalize s i now).1)
settle_once production normalize s i now later u =
    settle_cases production normalize
      (λ r. r.0 ≡ true → settle_order production normalize r.1 i later ≡ (true, r.1)) s i now
      (λ h. absurd (cc))
      (λ c _ runs h.
        runs (finish s i (transaction s i c now)).1 later
        ∙ outcome-Repeats s i c now later u (transaction-View s i c now) h)
