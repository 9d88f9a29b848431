-- ===== src/Reserve/Collect.antt =====
-- Collecting an issued levy: collectLevy and contribute of apps/api/src/reserve/reserve.service.ts.
-- `before` is what concurrent requests commit between the reads of a request and its transaction;
-- `others n` is what they do to the shares before the nth statement of the loop.
pub mod Runs
pub mod Within
pub mod Books
use koinoxrista.Prelude.{
  ℕ, zero, suc, ◌+◌, ◌-◌, ◌*◌, ◌/◌, ◌%◌, ◌^◌, ◌≤◌, ◌<◌, min, max, String, ◌≡◌, refl, sym, ap, ◌∙◌,
  ◌≢◌, ◌↔◌, ◌⊎◌, inl, inr, Bool, true, false, not, ◌&&◌, ◌||◌, Option, none, some, List, [], ◌∷◌,
  ◌++◌, map, arith, ltb, leb, ◌==◌, if◌then◌else◌, ltb→lt, lt→ltb, leb→le, ==_iff, ==_refl,
  Bool-cases, Option-cases, length, get_elem?, take, get_or, length-append, length-map, total,
  total-append, total_scale, All, filter, All-append, total_mono, any, all, any-false, all-true,
  sum, sum-map, Result, ok, err, ◌>>=◌, ◌>>◌, throw_if, throw_if-ok, >>=-eq-ok, ok-injective,
  if-eq-ok, if-eq-err,
}
use koinoxrista.Prelude.Int.{
  ℤ, pos, negsuc, pos_part, neg_part, sub_ℕ, ◌+ℤ◌, ◌-ℤ◌, ◌≤ℤ◌, ltb_ℤ, leb_ℤ, min_ℤ, max_ℤ, int_laws,
  pos_part-eq, +ℤ_parts, -ℤ_parts, eq_of_parts,
}
use koinoxrista.Prelude.Sort.{insert, sort, total-sort, sort-All, IsSorted, sort-IsSorted}
use koinoxrista.Prelude.Tables.{
  find, count, update_many, update_many-none, count_mono, update_many-All, find-holds, find-only,
}
use koinoxrista.Prelude.Sums.{
  HasUniqueKeys, total-update_one, total-update_one_less, count-update_many, count-append,
  count-one, HasUniqueKeys-cons, HasUniqueKeys-update_many,
}
use text.Mathlib.Text.{◌==◌ as str_eq}
use text.Mathlib.TextEquality.{eq_iff}
use text.Mathlib.TextPositions.{eq_refl}
use koinoxrista.Fees.Charges.{is_other_building}
use koinoxrista.Reserve.Store.{
  Fund, Source, LevyShare, Levy, Store, ReserveError, Action, manual, interest, levy, is_unset,
  text_or_empty, is_issued, is_levy,
}
use koinoxrista.Reserve.Fund.{get_or_create_fund, add_contribution, audited, or_unchanged}

pub record Allocation : Type 0 where
  pub unit_id : String
  pub amount_cents : ℕ

abbrev pub amount_of : Option Allocation → ℕ
amount_of none = 0
amount_of (some a) = a.amount_cents

-- The `where` of the update of a share.
abbrev pub can_pay : String → String → ℕ → LevyShare → Bool
can_pay id levy_id limit h = str_eq h.id id && str_eq h.levy_id levy_id && leb h.paid_cents limit

abbrev pub pay : ℕ → LevyShare → LevyShare
pay n h = record h { paid_cents = h.paid_cents + n }

abbrev pub outstanding : LevyShare → ℕ
outstanding h = h.amount_cents - h.paid_cents

abbrev pub allocation : LevyShare → ℕ → Allocation
allocation h n = record { unit_id = h.unit_id; amount_cents = n }

-- The update with its predicate, and the allocation that it records.
unfoldable pub pay_share :
    String
    → LevyShare
    → ℕ
    → List LevyShare
    → Result ReserveError (Option Allocation × List LevyShare)
pay_share levy_id h n table =
    if count (can_pay h.id levy_id (h.amount_cents - n)) table == 0
    then err ReserveError.conflict
    else ok (
      some (allocation h n),
      update_many (can_pay h.id levy_id (h.amount_cents - n)) (pay n) table,
    )

module _ (others : ℕ → List LevyShare → List LevyShare) (levy_id : String) where
  -- The share is read again and tried once more.
  unfoldable pub retry_share :
      ℕ → String → ℕ → List LevyShare → Result ReserveError (Option Allocation × List LevyShare)
  retry_share n id remaining table =
      let seen = others n table in
      elim (find (λ h. str_eq h.id id) seen) [
        | none ↦ err ReserveError.conflict
        | some fresh ↦
            if outstanding fresh == 0
            then ok (none, seen)
            else pay_share levy_id fresh (min remaining (outstanding fresh)) (others (n + 1) seen)
      ]

  -- One round of the loop that takes something from a share.
  unfoldable pub take_share :
      ℕ → LevyShare → ℕ → List LevyShare → Result ReserveError (Option Allocation × List LevyShare)
  take_share n h remaining table =
      let now = others n table in
      let taken = min remaining (outstanding h) in
      if count (can_pay h.id levy_id (h.amount_cents - taken)) now == 0
      then retry_share (n + 1) h.id remaining now
      else pay_share levy_id h taken now

  -- The rounds that leave a share alone: nothing remains, another unit is meant, or nothing is
  -- owed.
  abbrev pub is_skipped : Option String → LevyShare → ℕ → Bool
  is_skipped unit h remaining =
      remaining == 0
      || (not (is_unset unit) && not (str_eq h.unit_id (text_or_empty unit)))
      || outstanding h == 0

  unfoldable pub round :
      Option String
      → ℕ
      → LevyShare
      → ℕ
      → List LevyShare
      → Result ReserveError (Option Allocation × List LevyShare)
  round unit n h remaining table =
      if is_skipped unit h remaining then ok (none, table) else take_share n h remaining table

  abbrev pub push : Option Allocation → List Allocation → List Allocation
  push none as' = as'
  push (some a) as' = a ∷ as'

  -- The loop: the allocations, what remains, and the shares.
  unfoldable pub collect_from :
      Option String
      → ℕ
      → List LevyShare
      → ℕ
      → List LevyShare
      → Result ReserveError (List Allocation × ℕ × List LevyShare)
  collect_from unit n [] remaining table = ok ([], remaining, table)
  collect_from unit n (h ∷ hs) remaining table = round unit n h remaining table >>= λ p.
      collect_from unit (n + 3) hs (remaining - amount_of p.0) p.1 >>= λ r.
      ok (push p.0 r.0, r.1, r.2)

module _ (locale_compare : String → String → ℤ) (before : Store → Store)
    (others : ℕ → List LevyShare → List LevyShare) where
  abbrev pub by_unit : LevyShare → LevyShare → Bool
  by_unit a b = ltb_ℤ (locale_compare a.unit_id b.unit_id) (pos 0)

  -- `levy.shares`, in the order of the units.
  abbrev pub shares_of : Store → String → List LevyShare
  shares_of s levy_id = sort by_unit (filter (λ h. str_eq h.levy_id levy_id) s.shares)

  -- From the loop on.
  unfoldable pub collect_shares :
      Store → Fund → String → String → ℕ → Option String → Result ReserveError Store
  collect_shares s f building levy_id n unit =
      collect_from others levy_id unit 0 (shares_of s levy_id) n s.shares >>= λ r.
      if not (r.1 == 0)
      then err ReserveError.exceeds
      else add_contribution (record s { shares = r.2 }) f building n levy (some levy_id)

  -- The transaction.
  unfoldable pub collect :
      Store → Fund → String → String → ℕ → Option String → Result ReserveError Store
  collect s f building levy_id n unit = elim (find (is_levy levy_id building) s.levies) [
    | none ↦ err ReserveError.levy_not_found
    | some l ↦
        if not (is_issued l.status)
        then err ReserveError.not_issued
        else collect_shares s f building levy_id n unit
  ]

  -- `collectLevy`
  unfoldable pub collect_levy :
      Store
      → String
      → String
      → ℤ
      → Option String
      → Option String
      → String
      → Result ReserveError (Unit {0}) × Store
  collect_levy s building levy_id amount user unit new_id =
      if is_other_building user building
      then (err ReserveError.forbidden, s)
      else if leb_ℤ amount (pos 0)
      then (err ReserveError.bad_amount, s)
      else elim (get_or_create_fund s building new_id) [
        | err e ↦ (err e, s)
        | ok (f, t) ↦ or_unchanged (before t) (
            collect (before t) f building levy_id (pos_part amount) unit >>= λ u.
            ok (audited Action.levy_collected u))
      ]

  abbrev pub is_from_levy : Source → Bool
  is_from_levy levy = true
  is_from_levy manual = false
  is_from_levy interest = false

  -- `contribute`
  unfoldable pub contribute :
      Store
      → String
      → ℤ
      → Source
      → Option String
      → Option String
      → Option String
      → String
      → Result ReserveError (Unit {0}) × Store
  contribute s building amount source levy_id user unit new_id =
      if is_other_building user building
      then (err ReserveError.forbidden, s)
      else if leb_ℤ amount (pos 0)
      then (err ReserveError.bad_amount, s)
      else if is_from_levy source
      then if is_unset levy_id
        then (err ReserveError.levy_required, s)
        else collect_levy s building (text_or_empty levy_id) amount user unit new_id
      else if not (is_unset levy_id)
      then (err ReserveError.levy_unexpected, s)
      else elim (get_or_create_fund s building new_id) [
        | err e ↦ (err e, s)
        | ok (f, t) ↦ or_unchanged (before t) (
            add_contribution (before t) f building (pos_part amount) source none >>= λ u.
            ok (audited Action.contribution_created u))
      ]
