-- ===== src/Plans/Installments.antt =====
-- Payment plans, apps/api/src/payment-plans/payment-plan-calc.ts. Amounts are whole cents that the
-- service has checked not to be negative, and instants are milliseconds since the epoch.
pub mod Schedule
pub mod Apply
use koinoxrista.Prelude.{
  ℕ, zero, suc, ◌+◌, ◌-◌, ◌*◌, ◌/◌, ◌%◌, ◌^◌, ◌≤◌, ◌<◌, min, max, String, ◌≡◌, refl, sym, ap, ◌∙◌,
  ◌≢◌, ◌↔◌, ◌⊎◌, inl, inr, Bool, true, false, not, ◌&&◌, ◌||◌, Option, none, some, List, [], ◌∷◌,
  ◌++◌, map, arith, ltb, leb, ◌==◌, if◌then◌else◌, ltb→lt, lt→ltb, leb→le, ==_iff, ==_refl,
  Bool-cases, Option-cases, length, get_elem?, take, get_or, length-append, length-map, total,
  total-append, total_scale, All, filter, All-append, total_mono, any, all, any-false, all-true,
  sum, sum-map, Result, ok, err, ◌>>=◌, ◌>>◌, throw_if, throw_if-ok, >>=-eq-ok,
}
use koinoxrista.Prelude.Int.{
  ℤ, pos, negsuc, pos_part, neg_part, sub_ℕ, ◌+ℤ◌, ◌-ℤ◌, ◌≤ℤ◌, ltb_ℤ, leb_ℤ, min_ℤ, max_ℤ, int_laws,
  pos_part-eq,
}
use koinoxrista.Prelude.Sort.{insert, sort, total-sort, sort-All, IsSorted, sort-IsSorted}

abbrev pub ms_per_day : ℕ
ms_per_day = 86_400_000

pub record PlannedInstallment : Type 0 where
  pub seq : ℕ
  pub due_date : ℕ
  pub amount_cents : ℕ

pub record PlanInstallment : Type 0 where
  pub id : String
  pub seq : ℕ
  pub amount_cents : ℕ
  pub paid_cents : ℕ
  pub paid_at : Option ℕ

pub record PlanAllocation : Type 0 where
  pub installment_id : String
  pub seq : ℕ
  pub applied_cents : ℕ

pub record ApplyResult : Type 0 where
  pub allocations : List PlanAllocation
  pub installments : List PlanInstallment
  pub applied_cents : ℕ
  pub completed : Bool

-- The callback of `Array.from`, for the indices from `index` on, with `remainder` cents left over.
pub planned_from : (base first_due interval_days left index remainder : ℕ) → List PlannedInstallment
planned_from base first interval zero index remainder = []
planned_from base first interval (suc left) index remainder =
    let extra : ℕ = if ltb 0 remainder then 1 else 0 in
    record {
      seq = index + 1;
      due_date = first + index * interval * ms_per_day;
      amount_cents = base + extra;
    }
    ∷ planned_from base first interval left (index + 1) (remainder - extra)

-- `splitIntoInstallments`
unfoldable pub split_into_installments :
    (total_cents count first_due interval_days : ℕ) → List PlannedInstallment
unfolding planned_from
split_into_installments total_cents count first interval =
    planned_from (total_cents / count) first interval count 0 (total_cents % count)

-- `installmentRemaining`: `Math.max(0, amount - paid)`, as subtraction on ℕ stops at 0.
abbrev pub installment_remaining : PlanInstallment → ℕ
installment_remaining i = i.amount_cents - i.paid_cents

-- `installment.paidAt ?? now`
abbrev pub stamp : Option ℕ → ℕ → Option ℕ
stamp none now = some now
stamp (some t) now = some t

-- An installment that receives `applied` cents.
pub pay : ℕ → PlanInstallment → ℕ → PlanInstallment
pay now i applied =
    let paid = i.paid_cents + applied in
    record i {
      paid_cents = paid;
      paid_at = if leb i.amount_cents paid then stamp i.paid_at now else i.paid_at;
    }

abbrev pub allocation : PlanInstallment → ℕ → PlanAllocation
allocation i applied = record { installment_id = i.id; seq = i.seq; applied_cents = applied }

pub record Loop : Type 0 where
  pub allocations : List PlanAllocation
  pub updated : List PlanInstallment
  pub pool : ℕ

-- One round of the loop, in front of what the later rounds give.
abbrev pub push : Option PlanAllocation → PlanInstallment → Loop → Loop
push none i l = record l { updated = i ∷ l.updated }
push (some a) i l = record l { allocations = a ∷ l.allocations; updated = i ∷ l.updated }

-- The loop over the ordered installments: with an empty pool, or nothing left to pay on an
-- installment, it is passed on as it is.
pub apply_from : ℕ → List PlanInstallment → ℕ → Loop
unfolding pay
apply_from now [] pool = record { allocations = []; updated = []; pool = pool }
apply_from now (i ∷ is') pool =
    let applied = min pool (installment_remaining i) in
    let rest = apply_from now is' (pool - applied) in
    if leb pool 0
    then push none i rest
    else if leb applied 0
    then push none i rest
    else push (some (allocation i applied)) (pay now i applied) rest

abbrev pub seq_before : PlanInstallment → PlanInstallment → Bool
seq_before a b = ltb a.seq b.seq

-- `applyPaymentToPlan`; an amount below zero counts as none.
unfoldable pub apply_payment_to_plan : List PlanInstallment → ℤ → ℕ → ApplyResult
unfolding apply_from sort
apply_payment_to_plan installments amount now =
    let loop = apply_from now (sort seq_before installments) (pos_part amount) in
    record {
      allocations = loop.allocations;
      installments = loop.updated;
      applied_cents = pos_part amount - loop.pool;
      completed = all (λ i. leb i.amount_cents i.paid_cents) loop.updated;
    }
