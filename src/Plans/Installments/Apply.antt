-- ===== src/Plans/Installments/Apply.antt =====
-- A payment on a plan: what it moves, where it goes, and when the plan is settled.
use koinoxrista.Prelude.{
  ℕ, ◌+◌, ◌-◌, ◌≤◌, min, ◌≡◌, refl, sym, ap, ◌∙◌, ◌↔◌, ◌⊎◌, inl, inr, true, false, List, [], ◌∷◌,
  arith, ltb, leb, if◌then◌else◌, total, all, All, Bool-cases,
}
use koinoxrista.Prelude.Int.{ℤ, pos_part}
use koinoxrista.Prelude.Sort.{sort, total-sort, IsSorted, sort-IsSorted}
use native.Mathlib.Decide.{dec_le}
use koinoxrista.Plans.Installments.{
  PlanInstallment, PlanAllocation, apply_from, apply_payment_to_plan, pay, installment_remaining,
  seq_before,
}

abbrev pub due : List PlanInstallment → ℕ
due is' = total installment_remaining is'

abbrev pub paid : List PlanInstallment → ℕ
paid is' = total (λ i. i.paid_cents) is'

abbrev pub applied : List PlanAllocation → ℕ
applied as' = total (λ a. a.applied_cents) as'

-- The installment n is o with possibly more paid.
abbrev pub IsTopUp : PlanInstallment → PlanInstallment → Type 0
IsTopUp o n =
    (n.id ≡ o.id)
    × (n.seq ≡ o.seq)
    × (n.amount_cents ≡ o.amount_cents)
    × (o.paid_cents ≤ n.paid_cents)

-- Row by row the new list has the installments of the old one with possibly more paid, and at each
-- row the new one is settled, or all the rows behind it are as they were.
abbrev pub OldestFirst : List PlanInstallment → List PlanInstallment → Type 0
OldestFirst [] new = new ≡ []
OldestFirst (o ∷ os) [] = ⊥
OldestFirst (o ∷ os) (n ∷ ns) =
    IsTopUp o n × (((n.amount_cents ≤ n.paid_cents) × OldestFirst os ns) ⊎ (os ≡ ns))

loop_lem :
    (now : ℕ) (is' : List PlanInstallment) (pool : ℕ)
    → let l = apply_from now is' pool in
      (applied l.allocations + l.pool ≡ pool)
      × (paid l.updated ≡ paid is' + applied l.allocations)
      × (due l.updated + applied l.allocations ≡ due is')
      × ((l.pool ≡ 0) ⊎ (due l.updated ≡ 0))
unfolding apply_from pay
loop_lem now [] pool = omega arith
loop_lem now (i ∷ is') pool =
    ground (arith, loop_lem now is' (pool - min pool (installment_remaining i)))

loop_empty : (now : ℕ) (is' : List PlanInstallment) → (apply_from now is' 0).updated ≡ is'
unfolding apply_from
loop_empty now [] = refl
loop_empty now (i ∷ is') = ground (arith, loop_empty now is')

-- What the loop leaves of an installment.
topped_up : ℕ → PlanInstallment → ℕ → PlanInstallment
topped_up now i pool =
    let a = min pool (installment_remaining i) in
    if leb pool 0 then i else if leb a 0 then i else pay now i a

loop-cons :
    (now : ℕ) (i : PlanInstallment) (is' : List PlanInstallment) (pool : ℕ)
    → (apply_from now (i ∷ is') pool).updated
      ≡ topped_up now i pool
        ∷ (apply_from now is' (pool - min pool (installment_remaining i))).updated
unfolding apply_from topped_up
loop-cons now i is' pool = ground arith

topped_up_lem :
    (now : ℕ) (i : PlanInstallment) (pool : ℕ)
    → i.amount_cents - i.paid_cents ≤ pool
    → (topped_up now i pool).amount_cents ≤ (topped_up now i pool).paid_cents
unfolding topped_up pay
topped_up_lem now i pool h = ground arith

topped_up-IsTopUp : (now : ℕ) (i : PlanInstallment) (pool : ℕ) → IsTopUp i (topped_up now i pool)
unfolding topped_up pay
topped_up-IsTopUp now i pool =
    let a = min pool (installment_remaining i) in
    elim (Bool-cases (leb pool 0)) [
      | inl t ↦ rw t (refl, refl, refl, omega arith)
      | inr f ↦ rw f (elim (Bool-cases (leb a 0)) [
        | inl u ↦ rw u (refl, refl, refl, omega arith)
        | inr g ↦ rw g (refl, refl, refl, omega arith)
      ])
    ]

loop-OldestFirst :
    (now : ℕ) (is' : List PlanInstallment) (pool : ℕ)
    → OldestFirst is' (apply_from now is' pool).updated
loop-OldestFirst now [] pool = unfold apply_from in refl
loop-OldestFirst now (i ∷ is') pool =
    let r = min pool (installment_remaining i) in
    rw (loop-cons now i is' pool) (
      topped_up-IsTopUp now i pool,
      elim (dec_le (installment_remaining i) pool) [
        | yes p ↦ inl (topped_up_lem now i pool p, loop-OldestFirst now is' (pool - r))
        | no p ↦
            let none_left : pool - r ≡ 0 = omega arith in
            inr (sym (ap (λ n. (apply_from now is' n).updated) none_left ∙ loop_empty now is'))
      ],
    )

-- Rows whose numbers are not below k have new rows whose numbers are not.
All-OldestFirst :
    (k : ℕ) (os ns : List PlanInstallment)
    → OldestFirst os ns
    → All (λ y. ltb y.seq k ≡ false) os
    → All (λ y. ltb y.seq k ≡ false) ns
All-OldestFirst k [] ns h ps = rw h tt
All-OldestFirst k (o ∷ os) [] h ps = absurd h
All-OldestFirst k (o ∷ os) (n ∷ ns) (t, inl (_, h)) ps =
    (ap (λ m. ltb m k) t.1 ∙ ps.0, All-OldestFirst k os ns h ps.1)
All-OldestFirst k (o ∷ os) (n ∷ ns) (t, inr e) ps = (ap (λ m. ltb m k) t.1 ∙ ps.0, rw (sym e) ps.1)

OldestFirst-IsSorted :
    (os ns : List PlanInstallment)
    → OldestFirst os ns
    → IsSorted seq_before os
    → IsSorted seq_before ns
OldestFirst-IsSorted [] ns h s = rw h tt
OldestFirst-IsSorted (o ∷ os) [] h s = absurd h
OldestFirst-IsSorted (o ∷ os) (n ∷ ns) (t, inl (_, h)) s =
    (rw t.1 (All-OldestFirst o.seq os ns h s.0), OldestFirst-IsSorted os ns h s.1)
OldestFirst-IsSorted (o ∷ os) (n ∷ ns) (t, inr e) s = (rw (t.1, sym e) s.0, rw (sym e) s.1)

settled_iff :
    (is' : List PlanInstallment)
    → (all (λ i. leb i.amount_cents i.paid_cents) is' ≡ true) ↔ (due is' ≡ 0)
settled_iff [] = (λ _. refl, λ _. refl)
settled_iff (i ∷ is') = ground (arith, settled_iff is')

-- A payment is applied cent by cent: the allocations add up to what was applied, which is the
-- smaller of the amount (none if negative) and what the plan still owed, and the plan's paid total
-- grows by it.
pub payment_moves :
    (is' : List PlanInstallment) (amount : ℤ) (now : ℕ)
    → let r = apply_payment_to_plan is' amount now in
      (applied r.allocations ≡ r.applied_cents)
      × (r.applied_cents ≡ min (pos_part amount) (due is'))
      × (paid r.installments ≡ paid is' + r.applied_cents)
      × (due r.installments + r.applied_cents ≡ due is')
unfolding apply_payment_to_plan
payment_moves is' amount now = omega (
  arith,
  loop_lem now (sort seq_before is') (pos_part amount),
  total-sort seq_before installment_remaining is',
  total-sort seq_before (λ i. i.paid_cents) is',
)

-- The plan is reported complete exactly when the payment covers all that it owed.
pub payment_completes :
    (is' : List PlanInstallment) (amount : ℤ) (now : ℕ)
    → ((apply_payment_to_plan is' amount now).completed ≡ true) ↔ (due is' ≤ pos_part amount)
unfolding apply_payment_to_plan
payment_completes is' amount now =
    let l = apply_from now (sort seq_before is') (pos_part amount) in
    let moved = loop_lem now (sort seq_before is') (pos_part amount) in
    let same = total-sort seq_before installment_remaining is' in
    let (down, up) = settled_iff l.updated in
    (λ e. omega (arith, down e, moved, same), λ h. up (omega (arith, moved, same)))

-- The installments come back in order of their number, each with its id, number and amount and no
-- less paid than before, and money reaches one only when every installment in front of it is
-- settled: behind the first that is not, all are as they were.
pub payment-OldestFirst :
    (is' : List PlanInstallment) (amount : ℤ) (now : ℕ)
    → let r = apply_payment_to_plan is' amount now in
      OldestFirst (sort seq_before is') r.installments × IsSorted seq_before r.installments
unfolding apply_payment_to_plan
payment-OldestFirst is' amount now =
    let rows = sort seq_before is' in
    let first = loop-OldestFirst now rows (pos_part amount) in
    let sorted = sort-IsSorted seq_before (λ x y h. ground arith) (λ x y z h k. ground arith) is' in
    (first, OldestFirst-IsSorted rows (apply_from now rows (pos_part amount)).updated first sorted)
