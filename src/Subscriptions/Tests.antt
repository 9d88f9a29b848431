-- ===== src/Subscriptions/Tests.antt =====
-- Credits that pay for part of an invoice.
use koinoxrista.Prelude.{◌+◌, ◌≤◌, ◌<◌, ◌≡◌, refl, ◌⊎◌, err}
use koinoxrista.Prelude.Int.{pos, pos_part, ◌≤ℤ◌}
use koinoxrista.Subscriptions.Pricing.{Tier, Cycle, period_total_cents, assert_minimum_units}
use koinoxrista.Subscriptions.Credits.{
  plan_credit_redemption, months_to_cents_discount, monthly_fee_cents, redemption_whole,
}

run_annual : period_total_cents Tier.basic Cycle.annual 10 ≡ 15_300
unfolding period_total_cents
run_annual = refl

run_minimum : assert_minimum_units 3 ≡ err tt
unfolding assert_minimum_units
run_minimum = refl

-- Two of three months fit into 35.00 at 15.00 a month.
run_redemption :
    plan_credit_redemption (pos 3500) (pos 3) Tier.basic 10
    ≡ record { months_consumed = pos 2; discount_cents = pos 3000 }
unfolding plan_credit_redemption period_total_cents
run_redemption = refl

redemption_whole_example :
    let p = plan_credit_redemption (pos 3500) (pos 3) Tier.basic 10 in
    let fee = monthly_fee_cents Tier.basic 10 in
    (pos 0 ≤ℤ p.months_consumed)
    × (p.months_consumed ≤ℤ pos 3)
    × (p.discount_cents ≡ pos (months_to_cents_discount p.months_consumed Tier.basic 10))
    × (pos_part p.discount_cents ≤ 3500)
    × ((p.months_consumed ≡ pos 3)
        ⊎ (3500 < pos_part p.discount_cents + fee)
        ⊎ ((fee ≡ 0) × (p.months_consumed ≡ pos 0)))
redemption_whole_example = redemption_whole (pos 3500) (pos 3) Tier.basic 10
