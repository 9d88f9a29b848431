-- ===== src/Partners/Tests.antt =====
-- A lead that is won.
use koinoxrista.Prelude.{◌+◌, ◌≤◌, ◌≡◌, refl}
use koinoxrista.Prelude.Int.{pos}
use koinoxrista.Partners.Pipeline.{
  LeadStatus, value, status_of, can_transition, Commission, StatusChange, validate_status_change,
}
use koinoxrista.Partners.Pipeline.Stages.{
  Advances, Run, change-Advances, Run-forward, Run-reaches, stage,
}

run_change :
    (validate_status_change "QUOTED" "WON" (Commission.whole (pos 500)) ≡ StatusChange.accepted)
    × (validate_status_change "QUOTED" "WON" Commission.absent ≡ StatusChange.won_requires_amount)
    × (validate_status_change "NEW" "WON" Commission.absent ≡ StatusChange.illegal_transition)
    × (validate_status_change "WON" "Lost" Commission.absent ≡ StatusChange.unknown_status)
unfolding validate_status_change can_transition status_of value
run_change = (refl, refl, refl, refl)

change-Advances_example : Advances "QUOTED" "WON" (Commission.whole (pos 500))
change-Advances_example = change-Advances "QUOTED" "WON" (Commission.whole (pos 500)) run_change.0

Run-forward_example :
    (t : LeadStatus) × (value LeadStatus.won ≡ value t)
    × (stage t ≡ stage LeadStatus.new + 3)
    × (3 ≤ 3)
Run-forward_example =
    Run-forward LeadStatus.new (value LeadStatus.won) 3 (Run-reaches LeadStatus.won)

Run-reaches_example : Run (value LeadStatus.new) 3 (value LeadStatus.lost)
Run-reaches_example = Run-reaches LeadStatus.lost
