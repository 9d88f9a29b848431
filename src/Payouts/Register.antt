-- ===== src/Payouts/Register.antt =====
-- PayoutsService of apps/api/src/payouts/payouts.service.ts: create, update, remove and summary.
-- `parse_date` is `new Date` of a text, none where it is no date; `month_of` is the month that
-- `toISOString` prints, and `year_start` is `Date.UTC(year, 0, 1)`. References and notes, which no
-- operation reads, are left out.
use koinoxrista.Prelude.{
  ℕ, ◌+◌, String, Bool, true, false, not, ◌&&◌, ◌||◌, Option, none, some, List, [], ◌∷◌, ltb, ◌==◌,
  if◌then◌else◌, filter, Result, ok, err, ◌>>=◌, ◌>>◌, throw_if,
}
use koinoxrista.Prelude.Int.{ℤ, pos, pos_part, ltb_ℤ, leb_ℤ}
use koinoxrista.Prelude.Sort.{sort}
use koinoxrista.Prelude.Tables.{find, count, update_many}
use text.Mathlib.Text.{◌==◌ as str_eq}
use koinoxrista.Fees.Charges.{is_other_building}

pub record Payment : Type 0 where
  pub id : String
  pub building_id : String
  pub amount_cents : ℕ
  pub method : String
  pub paid_at : ℤ
  pub job_id : Option String
  pub expense_id : Option String

-- A job or an expense, as far as the service reads it.
pub record Linked : Type 0 where
  pub id : String
  pub building_id : String

pub data Action : Type 0 where
  created updated deleted : Action

pub record Store : Type 0 where
  pub payments : List Payment
  pub jobs : List Linked
  pub expenses : List Linked
  pub audits : List Action

pub data PayoutError : Type 0 where
  forbidden bad_amount bad_date job_not_found expense_not_found not_found not_unique : PayoutError

pub record CreateInput : Type 0 where
  pub amount_cents : ℤ
  pub method : String
  pub paid_at : String
  pub job_id : Option String
  pub expense_id : Option String

-- A field that is undefined is none; the date and the links may also be null. A null amount or
-- method, which the database refuses, is left out.
pub record UpdateInput : Type 0 where
  pub amount_cents : Option ℤ
  pub method : Option String
  pub paid_at : Option (Option String)
  pub job_id : Option (Option String)
  pub expense_id : Option (Option String)

abbrev pub or_else {ℓ} : {A : Type ℓ} → Option A → A → A
or_else none d = d
or_else (some x) d = x

abbrev pub is_set {ℓ} : {A : Type ℓ} → Option A → Bool
is_set none = false
is_set (some x) = true

-- `undefined`, null and the empty text name nothing.
abbrev pub names : Option String → Bool
names none = false
names (some s) = not (str_eq s "")

abbrev pub belongs : String → String → Linked → Bool
belongs id building l = str_eq l.id id && str_eq l.building_id building

-- `assertLinkedEntity`
unfoldable pub check_linked :
    Store → String → Option String → Option String → Result PayoutError (Unit {0})
check_linked s building job_id expense_id = do
  throw_if (names job_id && count (belongs (or_else job_id "") building) s.jobs == 0)
      PayoutError.job_not_found
  throw_if (names expense_id && count (belongs (or_else expense_id "") building) s.expenses == 0)
      PayoutError.expense_not_found

-- `assertValidPaymentInput`: the amount and the date.
unfoldable pub check_input : ℤ → Option ℤ → Result PayoutError (ℕ × ℤ)
check_input amount date =
    if leb_ℤ amount (pos 0)
    then err PayoutError.bad_amount
    else elim date [ none ↦ err PayoutError.bad_date | some d ↦ ok (pos_part amount, d) ]

-- A request that throws leaves the tables as they were.
abbrev pub or_unchanged : Store → Result PayoutError Store → Result PayoutError (Unit {0}) × Store
or_unchanged s (err e) = (err e, s)
or_unchanged s (ok t) = (ok tt, t)

abbrev pub is_payment : String → String → Payment → Bool
is_payment id building p = str_eq p.id id && str_eq p.building_id building

-- `findOwned`
abbrev pub find_owned : Store → String → String → Result PayoutError Payment
find_owned s building id = elim (find (is_payment id building) s.payments) [
  | none ↦ err PayoutError.not_found
  | some p ↦ ok p
]

-- `supplierPayment.delete` by id.
unfoldable pub delete_row : String → List Payment → List Payment
delete_row id [] = []
delete_row id (p ∷ ps) = if str_eq p.id id then delete_row id ps else p ∷ delete_row id ps

abbrev pub new_payment : String → CreateInput → ℕ × ℤ → String → Payment
new_payment building i c new_id = record {
  id = new_id;
  building_id = building;
  amount_cents = c.0;
  method = i.method;
  paid_at = c.1;
  job_id = i.job_id;
  expense_id = i.expense_id;
}

module _ (parse_date : String → Option ℤ) where
  -- `create`; the table refuses an id that it has.
  unfoldable pub insert_payment : Store → String → CreateInput → String → Result PayoutError Store
  insert_payment s building i new_id = do
    checked ← check_input i.amount_cents (parse_date i.paid_at)
    check_linked s building i.job_id i.expense_id
    throw_if (not (count (λ p. str_eq p.id new_id) s.payments == 0)) PayoutError.not_unique
    ok (record s {
      payments = new_payment building i checked new_id ∷ s.payments;
      audits = Action.created ∷ s.audits;
    })

  unfoldable pub create :
      Store → String → CreateInput → Option String → String → Result PayoutError (Unit {0}) × Store
  create s building i user new_id =
      if is_other_building user building
      then (err PayoutError.forbidden, s)
      else or_unchanged s (insert_payment s building i new_id)

  -- `dto.paidAt ?? existing.paidAt`, as a date.
  abbrev pub date_or : Option (Option String) → ℤ → Option ℤ
  date_or none d = some d
  date_or (some none) d = some d
  date_or (some (some t)) d = parse_date t

  -- The checks of an update: the amount and the date that the row will have.
  unfoldable pub check_change : Payment → UpdateInput → Result PayoutError (ℕ × ℤ)
  check_change p i =
      if is_set i.amount_cents || is_set i.paid_at
      then check_input (or_else i.amount_cents (pos p.amount_cents)) (date_or i.paid_at p.paid_at)
      else ok (p.amount_cents, p.paid_at)

  -- The date that an update stores, given the checked one; `new Date(null)` is the start of 1970.
  abbrev pub stored_date : Option (Option String) → ℤ → ℤ
  stored_date none d = d
  stored_date (some none) d = pos 0
  stored_date (some (some t)) d = d

  abbrev pub changed : UpdateInput → ℕ × ℤ → Payment → Payment
  changed i c p = record p {
    amount_cents = c.0;
    method = or_else i.method p.method;
    paid_at = stored_date i.paid_at c.1;
    job_id = or_else i.job_id p.job_id;
    expense_id = or_else i.expense_id p.expense_id;
  }

  unfoldable pub change_payment : Store → String → String → UpdateInput → Result PayoutError Store
  change_payment s building id i = do
    existing ← find_owned s building id
    c ← check_change existing i
    check_linked s building (or_else i.job_id none) (or_else i.expense_id none)
    ok (record s {
      payments = update_many (λ p. str_eq p.id existing.id) (changed i c) s.payments;
      audits = Action.updated ∷ s.audits;
    })

  -- `update`
  unfoldable pub update :
      Store → String → String → UpdateInput → Option String → Result PayoutError (Unit {0}) × Store
  update s building id i user =
      if is_other_building user building
      then (err PayoutError.forbidden, s)
      else or_unchanged s (change_payment s building id i)

-- `remove`
unfoldable pub remove :
    Store → String → String → Option String → Result PayoutError (Unit {0}) × Store
unfolding delete_row
remove s building id user =
    if is_other_building user building
    then (err PayoutError.forbidden, s)
    else or_unchanged s (
        find_owned s building id >>= λ p.
        ok (record s { payments = delete_row p.id s.payments; audits = Action.deleted ∷ s.audits }))

pub record Group : Type 0 where
  pub key : String
  pub total_cents : ℕ

-- `map.set(key, (map.get(key) ?? 0) + cents)`
unfoldable pub add_group : String → ℕ → List Group → List Group
add_group key n [] = record { key = key; total_cents = n } ∷ []
add_group key n (g ∷ gs) =
    if str_eq g.key key
    then record g { total_cents = g.total_cents + n } ∷ gs
    else g ∷ add_group key n gs

-- What the loop of `summary` has summed up.
pub record Summary : Type 0 where
  pub total_cents : ℕ
  pub by_method : List Group
  pub by_month : List Group

module _ (month_of : ℤ → String) where
  unfoldable pub add_payment : Payment → Summary → Summary
  add_payment p s = record {
    total_cents = s.total_cents + p.amount_cents;
    by_method = add_group p.method p.amount_cents s.by_method;
    by_month = add_group (month_of p.paid_at) p.amount_cents s.by_month;
  }

  unfoldable pub sum_payments : List Payment → Summary → Summary
  sum_payments [] s = s
  sum_payments (p ∷ ps) s = sum_payments ps (add_payment p s)

-- The payments of the building in the year.
abbrev pub window : (ℕ → ℤ) → Store → String → ℕ → List Payment
window year_start s building year =
    filter
      (λ p.
        str_eq p.building_id building
        && leb_ℤ (year_start year) p.paid_at
        && ltb_ℤ p.paid_at (year_start (year + 1)))
      s.payments

-- `summary` of a year that is given.
unfoldable pub summary :
    (ℤ → String)
    → (ℕ → ℤ)
    → (String → String → ℤ)
    → Store
    → String
    → Option String
    → ℕ
    → Result PayoutError Summary
summary month_of year_start locale_compare s building user year =
    let sums =
      sum_payments month_of (window year_start s building year)
        (record { total_cents = 0; by_method = []; by_month = [] }) in
    if is_other_building user building
    then err PayoutError.forbidden
    else ok (record {
      total_cents = sums.total_cents;
      by_method = sort (λ a b. ltb b.total_cents a.total_cents) sums.by_method;
      by_month = sort (λ a b. ltb_ℤ (locale_compare a.key b.key) (pos 0)) sums.by_month;
    })
