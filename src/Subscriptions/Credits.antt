-- ===== src/Subscriptions/Credits.antt =====
-- Referral credits on an invoice: apps/api/src/referrals/referral-calc.ts, on whole numbers.
use koinoxrista.Prelude.{
  ℕ, suc, true, Bool, refl, sym, ap, ◌∙◌, ◌+◌, ◌*◌, ◌/◌, ◌≤◌, ◌<◌, ◌≡◌, ◌⊎◌, inl, inr, false, ◌||◌,
  arith, leb, ◌==◌, if◌then◌else◌, Bool-cases,
}
use koinoxrista.Prelude.Int.{ℤ, pos, negsuc, pos_part, sub_ℕ, ◌≤ℤ◌, leb_ℤ, min_ℤ}
use koinoxrista.Subscriptions.Pricing.{Tier, monthly, period_total_cents}

-- `monthlyFeeCents`
abbrev pub monthly_fee_cents : Tier → ℕ → ℕ
monthly_fee_cents tier units = period_total_cents tier monthly units

-- `monthsToCentsDiscount`
unfoldable pub months_to_cents_discount : ℤ → Tier → ℕ → ℕ
months_to_cents_discount months tier units =
    if leb_ℤ months (pos 0) then 0 else monthly_fee_cents tier units * pos_part months

pub record CreditRedemption : Type 0 where
  pub months_consumed : ℤ
  pub discount_cents : ℤ

-- `Math.floor` of a quotient.
abbrev pub floor_div : ℤ → ℕ → ℤ
floor_div (pos n) f = pos (n / f)
floor_div (negsuc n) f = negsuc (n / f)

-- A number of months times a fee.
abbrev pub times : ℤ → ℕ → ℤ
times (pos n) f = pos (n * f)
times (negsuc n) f = sub_ℕ 0 (suc n * f)

-- `planCreditRedemption`
unfoldable pub plan_credit_redemption : ℤ → ℤ → Tier → ℕ → CreditRedemption
plan_credit_redemption charge available tier units =
    let fee = monthly_fee_cents tier units in
    let consumed = min_ℤ (floor_div charge fee) available in
    if leb_ℤ charge (pos 0) || leb_ℤ available (pos 0) || fee == 0
    then record { months_consumed = pos 0; discount_cents = pos 0 }
    else record { months_consumed = consumed; discount_cents = min_ℤ (times consumed fee) charge }

quotient_fits : (c f : ℕ) → 0 < f → (c / f * f ≤ c) × (c < c / f * f + f)
quotient_fits c f h = (grind arith, grind arith)

fewer_fit : (q a f c : ℕ) → leb (q + 0) (a + 0) ≡ false → q * f ≤ c → a * f ≤ c
fewer_fit q a f c e h = let few : a ≤ q = ground arith in grind arith

-- What a redemption of `available` months on a charge must be, given the fee of a month.
abbrev IsWhole : (charge available : ℤ) → (fee : ℕ) → CreditRedemption → Type 0
IsWhole charge available fee p =
    (pos 0 ≤ℤ p.months_consumed)
    × (p.months_consumed ≤ℤ pos (pos_part available))
    × (p.discount_cents ≡ pos (pos_part p.months_consumed * fee))
    × (pos_part p.discount_cents ≤ pos_part charge)
    × ((p.months_consumed ≡ pos (pos_part available))
        ⊎ (pos_part charge < pos_part p.discount_cents + fee)
        ⊎ ((fee ≡ 0) × (p.months_consumed ≡ pos 0)))

abbrev is_refused : ℤ → ℤ → ℕ → Bool
is_refused charge available fee = leb_ℤ charge (pos 0) || leb_ℤ available (pos 0) || fee == 0

-- Where the charge or what is available is not above zero, or a month costs nothing.
nothing-IsWhole :
    (charge available : ℤ) (fee : ℕ)
    → is_refused charge available fee ≡ true
    → IsWhole charge available fee (record { months_consumed = pos 0; discount_cents = pos 0 })
nothing-IsWhole charge available fee t =
    (omega arith, omega arith, ap pos (omega arith), omega arith, ground arith)

redeemed-IsWhole :
    (c a fee : ℕ)
    → 0 < fee
    → IsWhole (pos c) (pos a) fee (record {
      months_consumed = min_ℤ (pos (c / fee)) (pos a);
      discount_cents = min_ℤ (times (min_ℤ (pos (c / fee)) (pos a)) fee) (pos c);
    })
redeemed-IsWhole c a fee h =
    let (below, above) = quotient_fits c fee h in
    elim (Bool-cases (leb (c / fee + 0) (a + 0))) [
      | inl t ↦ rw t (omega arith, ground arith, ground arith, ground arith, ground arith)
      | inr f ↦
          let fits = fewer_fit (c / fee) a fee c f below in
          rw f (omega arith, omega arith, ground (arith, fits), ground (arith, fits), inl refl)
    ]

positive-IsWhole :
    (charge available : ℤ) (fee : ℕ)
    → is_refused charge available fee ≡ false
    → let consumed = min_ℤ (floor_div charge fee) available in
      IsWhole charge available fee
        (record { months_consumed = consumed; discount_cents = min_ℤ (times consumed fee) charge })
positive-IsWhole (pos c) (pos a) fee f = redeemed-IsWhole c a fee (ground arith)
positive-IsWhole (negsuc c) available fee f = absurd (ground arith)
positive-IsWhole (pos c) (negsuc a) fee f = absurd (ground arith)

plan-IsWhole :
    (charge available : ℤ) (tier : Tier) (units : ℕ)
    → IsWhole charge available
        (monthly_fee_cents tier units)
        (plan_credit_redemption charge available tier units)
unfolding plan_credit_redemption
plan-IsWhole charge available tier units =
    let fee = monthly_fee_cents tier units in
    elim (Bool-cases (is_refused charge available fee)) [
      | inl t ↦ rw t (nothing-IsWhole charge available fee t)
      | inr f ↦ rw f (positive-IsWhole charge available fee f)
    ]

discount_lem :
    (months : ℤ) (tier : Tier) (units : ℕ)
    → months_to_cents_discount months tier units ≡ pos_part months * monthly_fee_cents tier units
unfolding months_to_cents_discount
discount_lem (pos n) tier units = ground arith
discount_lem (negsuc n) tier units = ground arith

-- For every charge and every number of available months, negative ones included: a redemption takes
-- whole months, not below zero and no more than are available (none where that is negative); the
-- discount is what `monthsToCentsDiscount` makes of them, and no more than the charge (zero where
-- that is negative); and either all the available months are redeemed, or less than a month's fee
-- of the charge is left, or a month costs nothing and none is redeemed.
pub redemption_whole :
    (charge available : ℤ) (tier : Tier) (units : ℕ)
    → let p = plan_credit_redemption charge available tier units in
      let fee = monthly_fee_cents tier units in
      (pos 0 ≤ℤ p.months_consumed)
      × (p.months_consumed ≤ℤ pos (pos_part available))
      × (p.discount_cents ≡ pos (months_to_cents_discount p.months_consumed tier units))
      × (pos_part p.discount_cents ≤ pos_part charge)
      × ((p.months_consumed ≡ pos (pos_part available))
          ⊎ (pos_part charge < pos_part p.discount_cents + fee)
          ⊎ ((fee ≡ 0) × (p.months_consumed ≡ pos 0)))
redemption_whole charge available tier units =
    let (lo, hi, worth, within, most) = plan-IsWhole charge available tier units in
    let p = plan_credit_redemption charge available tier units in
    (lo, hi, worth ∙ ap pos (sym (discount_lem p.months_consumed tier units)), within, most)
