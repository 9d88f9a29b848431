-- ===== src/Partners/Pipeline.antt =====
-- The pipeline of partner leads: apps/api/src/partners/pipeline.ts.
pub mod Stages
use koinoxrista.Prelude.{
  ℕ, zero, suc, ◌+◌, ◌-◌, ◌*◌, ◌/◌, ◌%◌, ◌^◌, ◌≤◌, ◌<◌, min, max, String, ◌≡◌, refl, sym, ap, ◌∙◌,
  ◌≢◌, ◌↔◌, ◌⊎◌, inl, inr, Bool, true, false, not, ◌&&◌, ◌||◌, Option, none, some, List, [], ◌∷◌,
  ◌++◌, map, arith, ltb, leb, ◌==◌, if◌then◌else◌, ltb→lt, lt→ltb, leb→le, ==_iff, ==_refl,
  Bool-cases, Option-cases, length, get_elem?, take, get_or, length-append, length-map, total,
  total-append, total_scale, All, filter, All-append, total_mono, any, all, any-false, all-true,
  sum, sum-map, Result, ok, err, ◌>>=◌, ◌>>◌, throw_if, throw_if-ok, >>=-eq-ok, ok-injective,
}
use koinoxrista.Prelude.Int.{
  ℤ, pos, negsuc, pos_part, neg_part, sub_ℕ, ◌+ℤ◌, ◌-ℤ◌, ◌≤ℤ◌, ltb_ℤ, leb_ℤ, min_ℤ, max_ℤ, int_laws,
  pos_part-eq, +ℤ_parts, -ℤ_parts, eq_of_parts,
}
use koinoxrista.Prelude.Sort.{insert, sort, total-sort, sort-All, IsSorted, sort-IsSorted}
use koinoxrista.Prelude.Tables.{
  find, count, update_many, update_many-none, count_mono, update_many-All, find-holds, find-only,
}
use text.Mathlib.Text.{◌==◌ as str_eq}
use text.Mathlib.TextEquality.{eq_iff}
use text.Mathlib.TextPositions.{eq_refl}

pub data LeadStatus : Type 0 where
  new contacted quoted won lost : LeadStatus

-- The column value of a status.
unfoldable pub value : LeadStatus → String
value new = "NEW"
value contacted = "CONTACTED"
value quoted = "QUOTED"
value won = "WON"
value lost = "LOST"

abbrev pub pipeline_order : List LeadStatus
pipeline_order = new ∷ contacted ∷ quoted ∷ won ∷ lost ∷ []

-- The status that a column value stands for, if any.
unfoldable pub status_of : String → Option LeadStatus
unfolding value
status_of s = find (λ status. str_eq (value status) s) pipeline_order

abbrev pub is_some : Option LeadStatus → Bool
is_some none = false
is_some (some _) = true

-- `isLeadStatus`
abbrev pub is_lead_status : String → Bool
is_lead_status s = is_some (status_of s)

-- `ALLOWED_NEXT` and `nextStatuses`
abbrev pub next_statuses : LeadStatus → List LeadStatus
next_statuses new = contacted ∷ []
next_statuses contacted = quoted ∷ []
next_statuses quoted = won ∷ lost ∷ []
next_statuses won = []
next_statuses lost = []

-- `canTransition`
unfoldable pub can_transition : String → String → Bool
can_transition from to = elim (status_of from) [
  | none ↦ false
  | some f ↦ is_lead_status to && any (λ status. str_eq (value status) to) (next_statuses f)
]

-- `actualCommissionCents?: number`
pub data Commission : Type 0 where
  absent : Commission
  fractional : Commission
  whole : ℤ → Commission

pub data StatusChange : Type 0 where
  accepted unknown_status illegal_transition won_requires_amount : StatusChange

-- No commission, one that is no whole number, or one below zero.
abbrev pub lacks_commission : Commission → Bool
lacks_commission absent = true
lacks_commission fractional = true
lacks_commission (whole n) = ltb_ℤ n (pos 0)

-- `validateStatusChange`
unfoldable pub validate_status_change : String → String → Commission → StatusChange
validate_status_change from to commission =
    if not (is_lead_status from) || not (is_lead_status to)
    then unknown_status
    else if not (can_transition from to)
    then illegal_transition
    else if str_eq to (value won) && lacks_commission commission
    then won_requires_amount
    else accepted
