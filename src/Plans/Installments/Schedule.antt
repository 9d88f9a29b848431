-- ===== src/Plans/Installments/Schedule.antt =====
-- The schedule of a new plan.
use koinoxrista.Prelude.{
  ℕ, zero, suc, ◌+◌, ◌-◌, ◌*◌, ◌/◌, ◌%◌, ◌≤◌, ◌<◌, ◌≡◌, refl, List, [], ◌∷◌, arith, ltb,
  if◌then◌else◌, length, total,
}
use koinoxrista.Plans.Installments.{
  PlannedInstallment, planned_from, split_into_installments, ms_per_day,
}

abbrev amounts : List PlannedInstallment → ℕ
amounts ps = total (λ p. p.amount_cents) ps

planned-total :
    (base first interval left index remainder : ℕ)
    → remainder ≤ left
    → (length (planned_from base first interval left index remainder) ≡ left)
      × (amounts (planned_from base first interval left index remainder) ≡ left * base + remainder)
unfolding planned_from
planned-total base first interval zero index remainder h = omega arith
planned-total base first interval (suc left) index remainder h = ground (
  arith,
  planned-total base first interval left (index + 1) (remainder - 1),
  planned-total base first interval left (index + 1) (remainder - 0),
)

-- What each installment of a plan is: its number, its date, and its amount.
abbrev pub IsPlanned : (base first interval index odd : ℕ) → List PlannedInstallment → Type 0
IsPlanned base first interval index odd [] = Unit
IsPlanned base first interval index odd (p ∷ ps) =
    (p.seq ≡ index + 1)
    × (p.due_date ≡ first + index * interval * ms_per_day)
    × (p.amount_cents ≡ (if ltb index odd then base + 1 else base))
    × IsPlanned base first interval (index + 1) odd ps

planned_from-IsPlanned :
    (base first interval left index remainder odd : ℕ)
    → remainder ≡ odd - index
    → IsPlanned base first interval index odd
        (planned_from base first interval left index remainder)
unfolding planned_from
planned_from-IsPlanned base first interval zero index remainder odd e = tt
planned_from-IsPlanned base first interval (suc left) index remainder odd e = (
  refl,
  refl,
  ground arith,
  planned_from-IsPlanned base first interval left (index + 1)
      (remainder - (if ltb 0 remainder then 1 else 0)) odd (ground arith),
)

-- A plan over at least one installment has as many as asked for, and they add up to the debt.
pub installments_total :
    (total_cents count first interval : ℕ)
    → 0 < count
    → let plan = split_into_installments total_cents count first interval in
      (length plan ≡ count) × (amounts plan ≡ total_cents)
unfolding split_into_installments
installments_total t (suc n) first interval h =
    let (counted, summed) =
      planned-total (t / suc n) first interval (suc n) 0 (t % suc n) (omega arith) in
    (counted, omega (arith, summed))
installments_total t zero first interval h = absurd (omega arith)

-- Installment number k falls due k - 1 intervals after the first date, and the first ones, as many
-- as the division leaves cents over, are one cent larger than the rest.
pub installments-IsPlanned :
    (total_cents count first interval : ℕ)
    → IsPlanned
        (total_cents / count)
        first
        interval
        0
        (total_cents % count)
        (split_into_installments total_cents count first interval)
unfolding split_into_installments
installments-IsPlanned t count first interval =
    planned_from-IsPlanned (t / count) first interval count 0 (t % count) (t % count) (omega arith)
