-- ===== src/Fees/Tests.antt =====
-- Late fees and commissions, run.
use koinoxrista.Prelude.{
  ℕ, ◌+◌, ◌*◌, ◌≤◌, String, ◌≡◌, refl, ◌⊎◌, true, false, Option, none, some, [], ◌∷◌, arith,
  if◌then◌else◌, All, ok, err,
}
use koinoxrista.Prelude.Int.{ℤ, pos, negsuc, ◌-ℤ◌}
use text.Mathlib.Text.{◌==◌ as str_eq}
use koinoxrista.Period.{Month}
use koinoxrista.Fees.LateFee.{
  LateFeeMode, LateFeeSettings, compute_late_fee, raw_fee, whole_days_between,
  due_moment_for_period,
}
use koinoxrista.Fees.LateFee.Amount.{late_fee_capped, late_fee_near}
use koinoxrista.Fees.Charges.{
  SettingsRow, Invoice, Charge, Store, FeeError, UpdateSettings, is_other_building, merged,
  assert_rate_usable, update_settings, is_charged, pending_charge, pending_charges, run, waive,
}
use koinoxrista.Fees.Charges.Closed.{IsClosed, run-IsClosed, IsLate, run_passes}
use koinoxrista.Fees.Commission.{Environment, compute_commission}

abbrev daily : LateFeeSettings
daily = record { mode = LateFeeMode.percent; daily_flat_cents = 0; daily_bps = 5; cap_cents = none }

abbrev at_most : LateFeeSettings
at_most = record daily { cap_cents = some 30 }

-- 0.05 % a day of 120.00 over ten days is 0.60.
run_fee : compute_late_fee daily (pos 12_000) (pos 10) ≡ 60
unfolding compute_late_fee raw_fee
run_fee = refl

run_capped : compute_late_fee at_most (pos 12_000) (pos 10) ≡ 30
unfolding compute_late_fee raw_fee
run_capped = refl

run_commission : compute_commission (pos 12_345) (pos 400) (pos 50_000) ≡ pos 494
unfolding compute_commission
run_commission = refl

late_fee_capped_example : compute_late_fee at_most (pos 12_000) (pos 10) ≤ 30
late_fee_capped_example = late_fee_capped at_most (pos 12_000) (pos 10) 30 refl

late_fee_near_example :
    let fee = compute_late_fee daily (pos 12_000) (pos 10) in
    (2 * (12_000 * 5 * 10) ≤ 20_000 * fee + 10_000)
    × (20_000 * fee ≤ 2 * (12_000 * 5 * 10) + 10_000)
late_fee_near_example = late_fee_near daily 12_000 10 refl refl (omega arith) (omega arith)

abbrev row : SettingsRow
row = record {
  building_id = "b";
  grace_days = 5;
  setting = record {
    mode = LateFeeMode.flat;
    daily_flat_cents = 100;
    daily_bps = 0;
    cap_cents = none;
  };
}

abbrev may : Month
may = record { year = 2026; month = 5 }

abbrev due : Invoice
due = record {
  id = "v";
  building_id = "b";
  unit_id = "u";
  period = may;
  total_cents = pos 5000;
  paid_cents = pos 1000;
  is_paid = false;
}

abbrev charged : Charge
charged = record {
  id = "c";
  building_id = "b";
  unit_id = "u";
  invoice_id = "v";
  month = may;
  days_late = 3;
  amount_cents = 300;
  waived_at = none;
}

abbrev open_store : Store
open_store = record { settings = row ∷ []; invoices = due ∷ []; charges = []; audits = [] }

abbrev charged_store : Store
charged_store = record open_store { charges = charged ∷ [] }

-- A calendar in which the month begins at 0.
abbrev at_zero : ℕ → ℕ → ℤ
at_zero year month = pos 0

-- The invoice is ten days late and not charged, so the run refuses; with the charge it passes.
run_disabled :
    (run at_zero open_store "b" none (some "b") (pos 864_000_000)).0 ≡ err (FeeError.disabled 1)
unfolding run is_other_building pending_charges pending_charge compute_late_fee raw_fee
    whole_days_between due_moment_for_period ◌-ℤ◌
run_disabled = refl

run_ok : (run at_zero charged_store "b" none (some "b") (pos 864_000_000)).0 ≡ ok (0, 0)
unfolding run is_other_building pending_charges pending_charge compute_late_fee raw_fee
    whole_days_between due_moment_for_period ◌-ℤ◌
run_ok = refl

run-IsClosed_example :
    IsClosed open_store (run at_zero open_store "b" none (some "b") (pos 864_000_000))
run-IsClosed_example = run-IsClosed at_zero open_store "b" none (some "b") (pos 864_000_000)

run_passes_example :
    All
      (λ v.
        (IsLate at_zero row (pos 864_000_000) v → ⊥)
        ⊎ (is_charged "b" none (charged ∷ []) v ≡ true))
      (due ∷ [])
run_passes_example =
    run_passes at_zero charged_store "b" none none (some "b") (pos 864_000_000) refl (omega arith)
      refl refl run_ok

abbrev request : UpdateSettings
request = record {
  grace_days = none;
  mode = some LateFeeMode.percent;
  daily_flat_cents = none;
  daily_bps = some 7;
  cap_cents = some (some 900);
}

abbrev updated : SettingsRow
updated = record {
  building_id = "b";
  grace_days = 5;
  setting = record {
    mode = LateFeeMode.percent;
    daily_flat_cents = 100;
    daily_bps = 7;
    cap_cents = some 900;
  };
}

run_update : (update_settings open_store "b" request (some "b")).0 ≡ ok updated
unfolding update_settings is_other_building merged assert_rate_usable
run_update = refl

run_waive : (waive charged_store "c" (some "b") 7).0 ≡ ok (record charged { waived_at = some 7 })
unfolding waive is_other_building
run_waive = refl

abbrev unset : Environment
unset = record { commission_rate_bps = none; commission_cap_cents = some "-1" }

abbrev parse : String → Option ℤ
parse s = if str_eq s "-1" then some (negsuc 0) else none
