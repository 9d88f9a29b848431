-- ===== src/Reserve/Fund.antt =====
-- The fund: getOrCreateFund, updateTarget, the contributions that collect no levy, and drawdown of
-- apps/api/src/reserve/reserve.service.ts. `others` is what concurrent requests commit between the
-- reads of a request and its transaction, and `during` what they commit inside the transaction of a
-- drawdown, between the read of the fund and its conditional update.
pub mod Books
use koinoxrista.Prelude.{
  ℕ, zero, suc, ◌+◌, ◌-◌, ◌*◌, ◌/◌, ◌%◌, ◌^◌, ◌≤◌, ◌<◌, min, max, String, ◌≡◌, refl, sym, ap, ◌∙◌,
  ◌≢◌, ◌↔◌, ◌⊎◌, inl, inr, Bool, true, false, not, ◌&&◌, ◌||◌, Option, none, some, List, [], ◌∷◌,
  ◌++◌, map, arith, ltb, leb, ◌==◌, if◌then◌else◌, ltb→lt, lt→ltb, leb→le, ==_iff, ==_refl,
  Bool-cases, Option-cases, length, get_elem?, take, get_or, length-append, length-map, total,
  total-append, total_scale, All, filter, All-append, total_mono, any, all, any-false, all-true,
  sum, sum-map, Result, ok, err, ◌>>=◌, ◌>>◌, throw_if, throw_if-ok, >>=-eq-ok, ok-injective,
}
use koinoxrista.Prelude.Int.{
  ℤ, pos, negsuc, pos_part, neg_part, sub_ℕ, ◌+ℤ◌, ◌-ℤ◌, ◌≤ℤ◌, ltb_ℤ, leb_ℤ, min_ℤ, max_ℤ, int_laws,
  pos_part-eq, +ℤ_parts, -ℤ_parts, eq_of_parts,
}
use koinoxrista.Prelude.Sort.{insert, sort, total-sort, sort-All, IsSorted, sort-IsSorted}
use koinoxrista.Prelude.Tables.{
  find, count, update_many, update_many-none, count_mono, update_many-All, find-holds, find-only,
}
use text.Mathlib.Text.{◌==◌ as str_eq}
use text.Mathlib.TextEquality.{eq_iff}
use text.Mathlib.TextPositions.{eq_refl}
use koinoxrista.Fees.Charges.{is_other_building}
use koinoxrista.Reserve.Store.{
  Fund, Source, Contribution, Drawdown, Store, Expense, ReserveError, Action, manual, interest,
  levy, is_unset, text_or_empty,
}

-- `getOrCreateFund`; a new fund gets the id, and the table refuses an id that it has.
unfoldable pub get_or_create_fund : Store → String → String → Result ReserveError (Fund × Store)
get_or_create_fund s building new_id = elim (find (λ f. str_eq f.building_id building) s.funds) [
  | some f ↦ ok (f, s)
  | none ↦
      let f : Fund = record {
        id = new_id;
        building_id = building;
        target_cents = 0;
        balance_cents = 0;
      } in
      if count (λ g. str_eq g.id new_id) s.funds == 0
      then ok (f, record s { funds = f ∷ s.funds })
      else err ReserveError.not_unique
]

-- `reserveFund.update` by id, which throws where the row is gone.
unfoldable pub update_fund : Store → String → (Fund → Fund) → Result ReserveError Store
update_fund s id change =
    if count (λ f. str_eq f.id id) s.funds == 0
    then err ReserveError.fund_gone
    else ok (record s { funds = update_many (λ f. str_eq f.id id) change s.funds })

abbrev pub audited : Action → Store → Store
audited a s = record s { audits = a ∷ s.audits }

-- A request that throws leaves the store that its transaction found.
abbrev pub or_unchanged : Store → Result ReserveError Store → Result ReserveError (Unit {0}) × Store
or_unchanged s (err e) = (err e, s)
or_unchanged s (ok t) = (ok tt, t)

-- `getOrCreateFund` for a user, which the route of the fund calls.
unfoldable pub open_fund :
    Store → String → Option String → String → Result ReserveError (Unit {0}) × Store
open_fund s building user new_id =
    if is_other_building user building
    then (err ReserveError.forbidden, s)
    else elim (get_or_create_fund s building new_id) [ err e ↦ (err e, s) | ok (f, t) ↦ (ok tt, t) ]

-- `updateTarget`
unfoldable pub update_target :
    Store → String → ℤ → Option String → String → Result ReserveError (Unit {0}) × Store
update_target s building target user new_id =
    if is_other_building user building
    then (err ReserveError.forbidden, s)
    else if ltb_ℤ target (pos 0)
    then (err ReserveError.bad_target, s)
    else elim (get_or_create_fund s building new_id) [
      | err e ↦ (err e, s)
      | ok (f, t) ↦ or_unchanged t (
          update_fund t f.id (λ g. record g { target_cents = pos_part target }) >>= λ u.
          ok (audited Action.target_updated u))
    ]

abbrev pub credit : ℕ → Fund → Fund
credit n f = record f { balance_cents = f.balance_cents + n }

-- The transaction of a contribution.
unfoldable pub add_contribution :
    Store → Fund → String → ℕ → Source → Option String → Result ReserveError Store
add_contribution s f building n source levy_id =
    let c : Contribution = record {
      fund_id = f.id;
      building_id = building;
      amount_cents = n;
      source = source;
      levy_id = levy_id;
    } in
    update_fund (record s { contributions = c ∷ s.contributions }) f.id (credit n)

abbrev pub debit : ℕ → Fund → Fund
debit n f = record f { balance_cents = f.balance_cents - n }

-- The `where` of the drawdown.
abbrev pub can_draw : String → ℕ → Fund → Bool
can_draw id n g = str_eq g.id id && leb n g.balance_cents

-- The update of a drawdown where the fund still holds the amount, and its new row.
unfoldable pub claim_draw :
    Store → Fund → String → ℕ → String → Option String → Result ReserveError Store
claim_draw s f building n reason expense_id =
    let d : Drawdown = record {
      fund_id = f.id;
      building_id = building;
      amount_cents = n;
      reason = reason;
      expense_id = if is_unset expense_id then none else expense_id;
    } in
    if count (can_draw f.id n) s.funds == 0
    then err ReserveError.insufficient
    else ok (record s {
      funds = update_many (can_draw f.id n) (debit n) s.funds;
      drawdowns = d ∷ s.drawdowns;
    })

-- The transaction of `drawdown`: the fund is read again and checked, and then updated on the
-- condition that it still holds the amount.
unfoldable pub draw :
    (during : Store → Store)
    → Store
    → Fund
    → String
    → ℕ
    → String
    → Option String
    → Result ReserveError (Unit {0}) × Store
draw during s f building n reason expense_id = elim (find (λ g. str_eq g.id f.id) s.funds) [
  | none ↦ (err ReserveError.insufficient, s)
  | some current ↦
      if ltb current.balance_cents n
      then (err ReserveError.insufficient, s)
      else or_unchanged (during s) (
          claim_draw (during s) f building n reason expense_id >>= λ u.
          ok (audited Action.drawdown_created u))
]

-- The expense of a drawdown does not belong to the building.
abbrev pub lacks_expense : Store → String → Option String → Bool
lacks_expense s building expense_id =
    not (is_unset expense_id)
    && count (λ e. str_eq e.id (text_or_empty expense_id) && str_eq e.building_id building)
        s.expenses
      == 0

-- `drawdown`
unfoldable pub drawdown :
    (others during : Store → Store)
    → Store
    → String
    → ℤ
    → String
    → Option String
    → Option String
    → String
    → Result ReserveError (Unit {0}) × Store
drawdown others during s building amount reason expense_id user new_id =
    if is_other_building user building
    then (err ReserveError.forbidden, s)
    else if leb_ℤ amount (pos 0)
    then (err ReserveError.bad_amount, s)
    else if lacks_expense s building expense_id
    then (err ReserveError.expense_not_found, s)
    else elim (get_or_create_fund s building new_id) [
      | err e ↦ (err e, s)
      | ok (f, t) ↦
          if ltb f.balance_cents (pos_part amount)
          then (err ReserveError.insufficient, t)
          else draw during (others t) f building (pos_part amount) reason expense_id
    ]
