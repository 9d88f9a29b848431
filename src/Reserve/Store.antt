-- ===== src/Reserve/Store.antt =====
-- The tables of apps/api/src/reserve/reserve.service.ts. Columns that no operation takes below zero
-- are natural numbers; what a request asks for is an integer. Notes and dates, which no operation
-- reads, are left out.
use koinoxrista.Prelude.{ℕ, String, Bool, true, false, ◌&&◌, Option, none, some, List}
use text.Mathlib.Text.{◌==◌ as str_eq}
use koinoxrista.Allocation.Weights.{WeightError, Strategy}
use koinoxrista.Allocation.Split.{SplitError}

-- `LEVY_STATUSES`
pub data LevyStatus : Type 0 where
  draft issued closed : LevyStatus

-- Where a contribution comes from.
pub data Source : Type 0 where
  manual levy interest : Source

pub record Fund : Type 0 where
  pub id : String
  pub building_id : String
  pub target_cents : ℕ
  pub balance_cents : ℕ

pub record Contribution : Type 0 where
  pub fund_id : String
  pub building_id : String
  pub amount_cents : ℕ
  pub source : Source
  pub levy_id : Option String

pub record Drawdown : Type 0 where
  pub fund_id : String
  pub building_id : String
  pub amount_cents : ℕ
  pub reason : String
  pub expense_id : Option String

pub record Levy : Type 0 where
  pub id : String
  pub building_id : String
  pub title : String
  pub total_cents : ℕ
  pub strategy : Strategy
  pub status : LevyStatus
  pub vote_id : Option String

pub record LevyShare : Type 0 where
  pub id : String
  pub levy_id : String
  pub unit_id : String
  pub amount_cents : ℕ
  pub paid_cents : ℕ

pub record Expense : Type 0 where
  pub id : String
  pub building_id : String

pub data Action : Type 0 where
  target_updated contribution_created levy_collected drawdown_created levy_created levy_issued
        levy_closed :
      Action

pub record Store : Type 0 where
  pub funds : List Fund
  pub contributions : List Contribution
  pub drawdowns : List Drawdown
  pub levies : List Levy
  pub shares : List LevyShare
  pub expenses : List Expense
  pub audits : List Action

pub data ReserveError : Type 0 where
  forbidden bad_target bad_amount levy_required levy_unexpected levy_not_found not_issued not_draft
        exceeds conflict not_unique fund_gone bad_strategy expense_not_found insufficient bad_total
        no_units no_millimes no_weights bad_weight unknown_unit missing_unit outstanding_left :
      ReserveError
  bad_weights : WeightError → ReserveError
  bad_split : SplitError → ReserveError

-- A text of a request that is missing or empty.
abbrev pub is_unset : Option String → Bool
is_unset none = true
is_unset (some s) = str_eq s ""

abbrev pub text_or_empty : Option String → String
text_or_empty none = ""
text_or_empty (some s) = s

abbrev pub is_issued : LevyStatus → Bool
is_issued draft = false
is_issued issued = true
is_issued closed = false

abbrev pub is_draft : LevyStatus → Bool
is_draft draft = true
is_draft issued = false
is_draft closed = false

abbrev pub is_closed : LevyStatus → Bool
is_closed draft = false
is_closed issued = false
is_closed closed = true

-- The levy of the building with the id.
abbrev pub is_levy : String → String → Levy → Bool
is_levy levy_id building l = str_eq l.id levy_id && str_eq l.building_id building
