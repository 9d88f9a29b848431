-- ===== src/Fees/Charges.antt =====
-- Late fees of a building: LateFeesService of apps/api/src/late-fees/late-fees.service.ts over a
-- store. The periods in the store are months that have been validated, and times are milliseconds.
pub mod Closed
pub mod Rows
use koinoxrista.Prelude.{
  ℕ, zero, suc, ◌+◌, ◌-◌, ◌*◌, ◌/◌, ◌%◌, ◌^◌, ◌≤◌, ◌<◌, min, max, String, ◌≡◌, refl, sym, ap, ◌∙◌,
  ◌≢◌, ◌↔◌, ◌⊎◌, inl, inr, Bool, true, false, not, ◌&&◌, ◌||◌, Option, none, some, List, [], ◌∷◌,
  ◌++◌, map, arith, ltb, leb, ◌==◌, if◌then◌else◌, ltb→lt, lt→ltb, leb→le, ==_iff, ==_refl,
  Bool-cases, Option-cases, length, get_elem?, take, get_or, length-append, length-map, total,
  total-append, total_scale, All, filter, All-append, total_mono, any, all, any-false, all-true,
  sum, sum-map, Result, ok, err, ◌>>=◌, ◌>>◌, throw_if, throw_if-ok, >>=-eq-ok, ok-injective,
}
use koinoxrista.Prelude.Int.{
  ℤ, pos, negsuc, pos_part, neg_part, sub_ℕ, ◌+ℤ◌, ◌-ℤ◌, ◌≤ℤ◌, ltb_ℤ, leb_ℤ, min_ℤ, max_ℤ, int_laws,
  pos_part-eq, +ℤ_parts, -ℤ_parts, eq_of_parts,
}
use koinoxrista.Prelude.Sort.{insert, sort, total-sort, sort-All, IsSorted, sort-IsSorted}
use koinoxrista.Prelude.Tables.{
  find, count, update_many, update_many-none, count_mono, update_many-All, find-holds, find-only,
}
use text.Mathlib.Text.{◌==◌ as str_eq}
use text.Mathlib.TextEquality.{eq_iff}
use text.Mathlib.TextPositions.{eq_refl}
use koinoxrista.Period.{Text, Month, PeriodError, parse_period}
use koinoxrista.Fees.LateFee.{
  LateFeeMode, flat, percent, LateFeeSettings, compute_late_fee, whole_days_between,
  due_moment_for_period,
}

pub record SettingsRow : Type 0 where
  pub building_id : String
  pub grace_days : ℕ
  pub setting : LateFeeSettings

pub record Invoice : Type 0 where
  pub id : String
  pub building_id : String
  pub unit_id : String
  pub period : Month
  pub total_cents : ℤ
  pub paid_cents : ℤ
  pub is_paid : Bool

pub record Charge : Type 0 where
  pub id : String
  pub building_id : String
  pub unit_id : String
  pub invoice_id : String
  pub month : Month
  pub days_late : ℕ
  pub amount_cents : ℕ
  pub waived_at : Option ℕ

pub data Action : Type 0 where
  settings_update run_done waived : Action

pub record Store : Type 0 where
  pub settings : List SettingsRow
  pub invoices : List Invoice
  pub charges : List Charge
  pub audits : List Action

pub data FeeError : Type 0 where
  forbidden not_found bad_period flat_unset percent_unset : FeeError
  disabled : ℕ → FeeError

-- `assertSameBuilding`, on the building of the user.
unfoldable pub is_other_building : Option String → String → Bool
is_other_building none building = true
is_other_building (some b) building = str_eq b "" || not (str_eq b building)

abbrev pub default_settings : LateFeeSettings
default_settings = record { mode = flat; daily_flat_cents = 0; daily_bps = 0; cap_cents = none }

abbrev pub default_grace_days : ℕ
default_grace_days = 5

abbrev pub row_of : Store → String → Option SettingsRow
row_of s building = find (λ r. str_eq r.building_id building) s.settings

-- `getSettings`
unfoldable pub get_settings : Store → String → Option String → Result FeeError SettingsRow
get_settings s building user =
    if is_other_building user building then err forbidden else elim (row_of s building) [
      | some r ↦ ok r
      | none ↦ ok (record {
        building_id = building;
        grace_days = default_grace_days;
        setting = default_settings;
      })
    ]

-- The optional fields of the request; `cap_cents` can also be set to null.
pub record UpdateSettings : Type 0 where
  pub grace_days : Option ℕ
  pub mode : Option LateFeeMode
  pub daily_flat_cents : Option ℕ
  pub daily_bps : Option ℕ
  pub cap_cents : Option (Option ℕ)

-- `given ?? stored ?? default`
abbrev pub or_else {ℓ} : {A : Type ℓ} → Option A → A → A
or_else none d = d
or_else (some a) d = a

abbrev pub current : String → Option SettingsRow → SettingsRow
current building none = record {
  building_id = building;
  grace_days = default_grace_days;
  setting = default_settings;
}
current building (some r) = r

unfoldable pub merged : String → UpdateSettings → Option SettingsRow → SettingsRow
merged building dto existing =
    let r = current building existing in
    record {
      building_id = building;
      grace_days = or_else dto.grace_days r.grace_days;
      setting = record {
        mode = or_else dto.mode r.setting.mode;
        daily_flat_cents = or_else dto.daily_flat_cents r.setting.daily_flat_cents;
        daily_bps = or_else dto.daily_bps r.setting.daily_bps;
        cap_cents = or_else dto.cap_cents r.setting.cap_cents;
      };
    }

-- `assertRateUsable`
unfoldable pub assert_rate_usable : LateFeeSettings → Result FeeError (Unit {0})
assert_rate_usable s = elim s.mode [
  | flat ↦ throw_if (s.daily_flat_cents == 0) flat_unset
  | percent ↦ throw_if (s.daily_bps == 0) percent_unset
]

-- `upsert` by the building.
unfoldable pub upsert : List SettingsRow → SettingsRow → List SettingsRow
upsert [] row = row ∷ []
upsert (r ∷ rs) row = if str_eq r.building_id row.building_id then row ∷ rs else r ∷ upsert rs row

-- `updateSettings`
unfoldable pub update_settings :
    Store → String → UpdateSettings → Option String → Result FeeError SettingsRow × Store
update_settings s building dto user =
    let row = merged building dto (row_of s building) in
    if is_other_building user building
    then (err forbidden, s)
    else elim (assert_rate_usable row.setting) [
      | err e ↦ (err e, s)
      | ok _ ↦ (
        ok row,
        record s { settings = upsert s.settings row; audits = settings_update ∷ s.audits },
      )
    ]

abbrev pub same_month : Month → Month → Bool
same_month a b = a.year == b.year && a.month == b.month

abbrev pub in_month : Option Month → Month → Bool
in_month none m = true
in_month (some wanted) m = same_month m wanted

-- The `where` of the invoices.
abbrev pub is_selected : String → Option Month → Invoice → Bool
is_selected building month v =
    str_eq v.building_id building && not v.is_paid && in_month month v.period

-- `chargedKeys.has(key)`, over the charges that were selected.
abbrev pub is_charged : String → Option Month → List Charge → Invoice → Bool
is_charged building month charges v =
    any
      (λ c.
        str_eq c.building_id building
        && in_month month c.month
        && (str_eq c.unit_id v.unit_id && same_month c.month v.period))
      charges

pub record Pending : Type 0 where
  pub invoice_id : String
  pub unit_id : String
  pub month : Month
  pub days_late : ℤ
  pub amount_cents : ℕ

module _ (date_utc : ℕ → ℕ → ℤ) where
  abbrev pub overdue_days : ℤ → Invoice → ℤ
  overdue_days now v = whole_days_between now (due_moment_for_period date_utc v.period)

  -- One round of the loop: the charge of an invoice, if any.
  unfoldable pub pending_charge : SettingsRow → ℤ → (Invoice → Bool) → Invoice → Option Pending
  pending_charge r now charged v =
      let outstanding = v.total_cents -ℤ v.paid_cents in
      let chargeable = overdue_days now v -ℤ pos r.grace_days in
      let amount = compute_late_fee r.setting outstanding chargeable in
      if leb_ℤ outstanding (pos 0)
        || charged v
        || leb_ℤ (overdue_days now v) (pos r.grace_days)
        || leb amount 0
      then none
      else some (record {
        invoice_id = v.id;
        unit_id = v.unit_id;
        month = v.period;
        days_late = chargeable;
        amount_cents = amount;
      })

  unfoldable pub pending_charges : SettingsRow → ℤ → (Invoice → Bool) → List Invoice → List Pending
  pending_charges r now charged [] = []
  pending_charges r now charged (v ∷ vs) = elim (pending_charge r now charged v) [
    | none ↦ pending_charges r now charged vs
    | some p ↦ p ∷ pending_charges r now charged vs
  ]

  abbrev pub month_of : Option Text → Result PeriodError (Option Month)
  month_of none = ok none
  month_of (some []) = ok none
  month_of (some (c ∷ cs)) = parse_period (c ∷ cs) >>= λ m. ok (some m)

  -- `run`, with what it returns as (charged, totalCents).
  unfoldable pub run :
      Store → String → Option Text → Option String → ℤ → Result FeeError (ℕ × ℕ) × Store
  run s building wanted user now =
      if is_other_building user building then (err forbidden, s) else elim (month_of wanted) [
        | err _ ↦ (err bad_period, s)
        | ok month ↦
            let pending =
              pending_charges (current building (row_of s building)) now
                (is_charged building month s.charges)
                (filter (is_selected building month) s.invoices) in
            if ltb 0 (length pending)
            then (err (disabled (length pending)), s)
            else (ok (0, 0), record s { audits = run_done ∷ s.audits })
      ]

-- `waive`
unfoldable pub waive : Store → String → Option String → ℕ → Result FeeError Charge × Store
waive s id user now = elim (find (λ c. str_eq c.id id) s.charges) [
  | none ↦ (err not_found, s)
  | some c ↦ if is_other_building user c.building_id then (err forbidden, s) else elim c.waived_at [
    | some _ ↦ (ok c, s)
    | none ↦ (
      ok (record c { waived_at = some now }),
      record s {
        charges =
            update_many (λ x. str_eq x.id c.id) (λ x. record x { waived_at = some now }) s.charges;
        audits = waived ∷ s.audits;
      },
    )
  ]
]
