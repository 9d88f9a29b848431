-- ===== src/Reserve/Levy.antt =====
-- The life of a levy: createLevy, issueLevy and closeLevy of
-- apps/api/src/reserve/reserve.service.ts. The units are those of the building in the order of
-- their labels, `trim` is `String.prototype.trim`, and new rows get the ids that are given.
-- `before` and `during` are what concurrent requests commit before a transaction and between its
-- read and its update.
pub mod Books
pub mod Settled
pub mod Shares
pub mod Kept
use koinoxrista.Prelude.{
  ℕ, zero, suc, ◌+◌, ◌-◌, ◌*◌, ◌/◌, ◌%◌, ◌^◌, ◌≤◌, ◌<◌, min, max, String, ◌≡◌, refl, sym, ap, ◌∙◌,
  ◌≢◌, ◌↔◌, ◌⊎◌, inl, inr, Bool, true, false, not, ◌&&◌, ◌||◌, Option, none, some, List, [], ◌∷◌,
  ◌++◌, map, arith, ltb, leb, ◌==◌, if◌then◌else◌, ltb→lt, lt→ltb, leb→le, ==_iff, ==_refl,
  Bool-cases, Option-cases, length, get_elem?, take, get_or, length-append, length-map, total,
  total-append, total_scale, All, filter, All-append, total_mono, any, all, any-false, all-true,
  sum, sum-map, Result, ok, err, ◌>>=◌, ◌>>◌, throw_if, throw_if-ok, >>=-eq-ok, ok-injective,
  if-eq-ok, if-eq-err,
}
use koinoxrista.Prelude.Int.{
  ℤ, pos, negsuc, pos_part, neg_part, sub_ℕ, ◌+ℤ◌, ◌-ℤ◌, ◌≤ℤ◌, ltb_ℤ, leb_ℤ, min_ℤ, max_ℤ, int_laws,
  pos_part-eq, +ℤ_parts, -ℤ_parts, eq_of_parts,
}
use koinoxrista.Prelude.Sort.{insert, sort, total-sort, sort-All, IsSorted, sort-IsSorted}
use koinoxrista.Prelude.Tables.{
  find, count, update_many, update_many-none, count_mono, update_many-All, find-holds, find-only,
  find-All,
}
use koinoxrista.Prelude.Sums.{
  HasUniqueKeys, total-update_one, total-update_one_less, count-update_many, count-append,
  count-one, find-own_key, HasUniqueKeys-cons, HasUniqueKeys-update_many,
}
use text.Mathlib.Text.{◌==◌ as str_eq}
use text.Mathlib.TextEquality.{eq_iff}
use text.Mathlib.TextPositions.{eq_refl}
use koinoxrista.Allocation.Float.{Float}
use koinoxrista.Allocation.Split.{SplitInput, SplitResult, SplitError, split_by_largest_remainder}
use koinoxrista.Allocation.Weights.{
  Area, Strategy, WeightError, AllocatableUnit, resolve_allocation_weights, sum_ℤ,
}
use koinoxrista.Fees.Charges.{is_other_building}
use koinoxrista.Reserve.Store.{
  LevyStatus, draft, issued, closed, LevyShare, Levy, Store, ReserveError, Action, is_unset,
  text_or_empty, is_issued, is_draft, is_closed, is_levy,
}
use koinoxrista.Reserve.Fund.{audited, or_unchanged}
use koinoxrista.Reserve.Collect.{outstanding}

pub record CustomWeight : Type 0 where
  pub unit_id : String
  pub weight : ℤ

-- `ALLOWED_STRATEGIES`
abbrev pub is_allowed : Strategy → Bool
is_allowed Strategy.milimes = true
is_allowed Strategy.units = true
is_allowed Strategy.custom = true
is_allowed Strategy.square_meters = true
is_allowed Strategy.share_fraction = true
is_allowed _ = false

-- `map.set`
pub set_weight : String → ℕ → List SplitInput → List SplitInput
set_weight id w [] = record { id = id; weight = w } ∷ []
set_weight id w (e ∷ es) =
    if str_eq e.id id then record { id = e.id; weight = w } ∷ es else e ∷ set_weight id w es

-- `map.get(id) ?? 0`
pub get_weight : String → List SplitInput → ℕ
get_weight id [] = 0
get_weight id (e ∷ es) = if str_eq e.id id then e.weight else get_weight id es

-- The loop over the custom weights.
pub read_weights : List CustomWeight → List SplitInput → Result ReserveError (List SplitInput)
unfolding set_weight
read_weights [] m = ok m
read_weights (c ∷ cs) m =
    if str_eq c.unit_id "" || leb_ℤ c.weight (pos 0)
    then err ReserveError.bad_weight
    else read_weights cs (set_weight c.unit_id (pos_part c.weight) m)

abbrev pub lift_weights :
    Result WeightError (List SplitInput) → Result ReserveError (List SplitInput)
lift_weights (err e) = err (ReserveError.bad_weights e)
lift_weights (ok ws) = ok ws

abbrev pub lift_split :
    Result SplitError (List SplitResult) → Result ReserveError (List SplitResult)
lift_split (err e) = err (ReserveError.bad_split e)
lift_split (ok rs) = ok rs

-- `levyShare.createMany`, after the rows that are there; the table refuses an id that it has.
abbrev pub new_share : String → (String → String) → SplitResult → LevyShare
new_share levy_id share_id r = record {
  id = share_id r.id;
  levy_id = levy_id;
  unit_id = r.id;
  amount_cents = r.amount_cents;
  paid_cents = 0;
}

pub add_shares : List LevyShare → List LevyShare → Result ReserveError (List LevyShare)
add_shares table [] = ok table
add_shares table (h ∷ hs) =
    throw_if (not (count (λ g. str_eq g.id h.id) table == 0)) ReserveError.not_unique
    >> add_shares (table ++ (h ∷ [])) hs

module _ (area : Area) (f : Float) (trim : String → String) where
  -- A weight of each unit. The millimes of a unit are at least 1.
  pub millimes_weights : List (AllocatableUnit area) → List SplitInput
  millimes_weights us = map (λ u. record { id = u.id; weight = pos_part u.millimes }) us

  pub equal_weights : List (AllocatableUnit area) → List SplitInput
  equal_weights us = map (λ u. record { id = u.id; weight = 1 }) us

  -- The branch of `CUSTOM`.
  unfoldable pub custom_weights :
      List (AllocatableUnit area) → List CustomWeight → Result ReserveError (List SplitInput)
  unfolding read_weights get_weight
  custom_weights us [] = err ReserveError.no_weights
  custom_weights us (c ∷ cs) = read_weights (c ∷ cs) [] >>= λ m.
      throw_if (any (λ e. not (any (λ u. str_eq u.id e.id) us)) m) ReserveError.unknown_unit
      >> (throw_if (not (length m == length us)) ReserveError.missing_unit
          >> (let weights : List SplitInput =
                map (λ u. record { id = u.id; weight = get_weight u.id m }) us in
              throw_if (total (λ w. w.weight) weights == 0) ReserveError.no_weights >> ok weights))

  unfoldable pub levy_weights :
      List (AllocatableUnit area)
      → Strategy
      → List CustomWeight
      → Result ReserveError (List SplitInput)
  unfolding millimes_weights equal_weights
  levy_weights us Strategy.milimes custom =
      if leb_ℤ (sum_ℤ (map (λ u. u.millimes) us)) (pos 0)
      then err ReserveError.no_millimes
      else ok (millimes_weights us)
  levy_weights us Strategy.units custom = ok (equal_weights us)
  levy_weights us Strategy.square_meters custom =
      lift_weights (resolve_allocation_weights area us Strategy.square_meters)
  levy_weights us Strategy.share_fraction custom =
      lift_weights (resolve_allocation_weights area us Strategy.share_fraction)
  levy_weights us _ custom = custom_weights us custom

  -- The amounts of the shares.
  unfoldable pub plan_levy :
      List (AllocatableUnit area)
      → Strategy
      → List CustomWeight
      → ℤ
      → Result ReserveError (List SplitResult)
  plan_levy us strategy custom amount = levy_weights us strategy custom >>= λ weights.
      lift_split (split_by_largest_remainder f amount weights)

  -- The transaction of `createLevy`; the table refuses an id that it has.
  unfoldable pub insert_levy :
      Store → Levy → (String → String) → List SplitResult → Result ReserveError Store
  unfolding add_shares
  insert_levy s l share_id splits =
      throw_if (not (count (λ k. str_eq k.id l.id) s.levies == 0)) ReserveError.not_unique
      >> add_shares s.shares (map (new_share l.id share_id) splits)
      >>= λ shares. ok (record s { levies = l ∷ s.levies; shares = shares })

  abbrev pub new_levy : String → String → String → ℕ → Strategy → Option String → Levy
  new_levy id building title n strategy vote_id = record {
    id = id;
    building_id = building;
    title = trim title;
    total_cents = n;
    strategy = strategy;
    status = draft;
    vote_id = if is_unset vote_id then none else vote_id;
  }

  -- `createLevy`
  unfoldable pub create_levy :
      Store
      → String
      → String
      → ℤ
      → Strategy
      → List CustomWeight
      → Option String
      → Option String
      → List (AllocatableUnit area)
      → String
      → (String → String)
      → Result ReserveError (Unit {0}) × Store
  create_levy s building title amount strategy custom vote_id user us new_id share_id =
      if is_other_building user building
      then (err ReserveError.forbidden, s)
      else if not (is_allowed strategy)
      then (err ReserveError.bad_strategy, s)
      else if leb_ℤ amount (pos 0)
      then (err ReserveError.bad_total, s)
      else if length us == 0
      then (err ReserveError.no_units, s)
      else or_unchanged s (
          plan_levy us strategy custom amount
          >>= (λ splits.
              insert_levy s (new_levy new_id building title (pos_part amount) strategy vote_id)
                share_id splits)
          >>= λ t. ok (audited Action.levy_created t))

-- The levies of a store that a statement leaves.
abbrev pub with_levies : Store → List Levy → Store
with_levies s levies = record s { levies = levies }

abbrev pub set_status : LevyStatus → Levy → Levy
set_status status l = record l { status = status }

-- The `where` of the updates of a levy.
abbrev pub can_issue : String → String → Levy → Bool
can_issue levy_id building l = is_levy levy_id building l && is_draft l.status

abbrev pub can_close : String → String → Levy → Bool
can_close levy_id building l = is_levy levy_id building l && is_issued l.status

-- What the shares of the levy still owe.
abbrev pub owed : String → List LevyShare → ℕ
owed levy_id shares = total outstanding (filter (λ h. str_eq h.levy_id levy_id) shares)

module _ (before : Store → Store) (during : Store → Store) where
  -- The update of the levy that was read, and the audit record.
  unfoldable pub claim_issue : Store → String → String → Result ReserveError (Unit {0}) × Store
  claim_issue s building levy_id =
      if count (can_issue levy_id building) s.levies == 0
      then elim (find (is_levy levy_id building) s.levies) [
        | none ↦ (err ReserveError.conflict, s)
        | some fresh ↦ if is_issued fresh.status then (ok tt, s) else (err ReserveError.conflict, s)
      ]
      else (
        ok tt,
        audited Action.levy_issued
            (with_levies s (update_many (can_issue levy_id building) (set_status issued) s.levies)),
      )

  -- The transaction of `issueLevy`.
  unfoldable pub issue : Store → String → String → Result ReserveError (Unit {0}) × Store
  issue s building levy_id = elim (find (is_levy levy_id building) s.levies) [
    | none ↦ (err ReserveError.levy_not_found, s)
    | some l ↦
        if is_issued l.status
        then (ok tt, s)
        else if not (is_draft l.status)
        then (err ReserveError.not_draft, s)
        else claim_issue (during s) building levy_id
  ]

  -- `issueLevy`
  unfoldable pub issue_levy :
      Store → String → String → Option String → Result ReserveError (Unit {0}) × Store
  issue_levy s building levy_id user =
      if is_other_building user building
      then (err ReserveError.forbidden, s)
      else elim (find (is_levy levy_id building) s.levies) [
        | none ↦ (err ReserveError.levy_not_found, s)
        | some l ↦
            if not (is_draft l.status)
            then (err ReserveError.not_draft, s)
            else issue (before s) building levy_id
      ]

  unfoldable pub claim_close : Store → String → String → Result ReserveError (Unit {0}) × Store
  claim_close s building levy_id =
      if count (can_close levy_id building) s.levies == 0
      then elim (find (is_levy levy_id building) s.levies) [
        | none ↦ (err ReserveError.conflict, s)
        | some fresh ↦ if is_closed fresh.status then (ok tt, s) else (err ReserveError.conflict, s)
      ]
      else (
        ok tt,
        audited Action.levy_closed
            (with_levies s (update_many (can_close levy_id building) (set_status closed) s.levies)),
      )

  -- `closeLevy`
  unfoldable pub close_levy :
      Store → String → String → Option String → Result ReserveError (Unit {0}) × Store
  close_levy s building levy_id user =
      if is_other_building user building
      then (err ReserveError.forbidden, s)
      else elim (find (is_levy levy_id building) s.levies) [
        | none ↦ (err ReserveError.levy_not_found, s)
        | some l ↦
            if is_closed l.status
            then (ok tt, s)
            else if not (is_issued l.status)
            then (err ReserveError.not_issued, s)
            else if not (owed levy_id s.shares == 0)
            then (err ReserveError.outstanding_left, s)
            else claim_close (during s) building levy_id
      ]
