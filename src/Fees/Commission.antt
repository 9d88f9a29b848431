-- ===== src/Fees/Commission.antt =====
-- The commission on an awarded contract: apps/api/src/marketplace/commission-calc.ts, on whole
-- numbers, which `Math.round` and `Number.isFinite` leave as they are. `parse_int` is
-- `Number.parseInt` of a text in base 10.
use koinoxrista.Prelude.{
  ℕ, zero, suc, ◌+◌, ◌*◌, ◌/◌, ◌≤◌, ◌<◌, String, ◌≡◌, refl, ◌⊎◌, inl, inr, Bool, Option, none, some,
  arith, if◌then◌else◌,
}
use koinoxrista.Prelude.Int.{ℤ, pos, negsuc, pos_part, ◌≤ℤ◌, ltb_ℤ, leb_ℤ, min_ℤ, max_ℤ}

abbrev pub default_rate_bps : ℕ
default_rate_bps = 400

abbrev pub default_cap_cents : ℕ
default_cap_cents = 50_000

pub record CommissionSettings : Type 0 where
  pub rate_bps : ℤ
  pub cap_cents : ℤ

-- `computeCommission`
unfoldable pub compute_commission : ℤ → ℤ → ℤ → ℤ
compute_commission amount rate cap =
    if leb_ℤ amount (pos 0)
    then pos 0
    else if leb_ℤ rate (pos 0)
    then pos 0
    else max_ℤ (pos 0) (min_ℤ (pos ((pos_part amount * pos_part rate + 5_000) / 10_000)) cap)

-- The variables that are read.
pub record Environment : Type 0 where
  pub commission_rate_bps : Option String
  pub commission_cap_cents : Option String

-- `env.NAME ?? ''`
abbrev pub text_or_empty : Option String → String
text_or_empty none = ""
text_or_empty (some s) = s

abbrev pub accept : (ℤ → Bool) → Option ℤ → ℤ → ℤ
accept test none default = default
accept test (some n) default = if test n then n else default

-- `parseCommissionSettings`
unfoldable pub parse_commission_settings : (String → Option ℤ) → Environment → CommissionSettings
parse_commission_settings parse_int env = record {
  rate_bps =
      accept (λ n. ltb_ℤ (pos 0) n) (parse_int (text_or_empty env.commission_rate_bps))
        (pos default_rate_bps);
  cap_cents =
      accept (λ n. leb_ℤ (pos 0) n) (parse_int (text_or_empty env.commission_cap_cents))
        (pos default_cap_cents);
}

accept_rate : (o : Option ℤ) (d : ℕ) → (n : ℕ) × (accept (λ m. ltb_ℤ (pos 0) m) o (pos d) ≡ pos n)
accept_rate none d = (d, refl)
accept_rate (some (pos zero)) d = (d, refl)
accept_rate (some (pos (suc n))) d = (suc n, ground arith)
accept_rate (some (negsuc n)) d = (d, ground arith)

accept_cap : (o : Option ℤ) (d : ℕ) → (n : ℕ) × (accept (λ m. leb_ℤ (pos 0) m) o (pos d) ≡ pos n)
accept_cap none d = (d, refl)
accept_cap (some (pos n)) d = (n, ground arith)
accept_cap (some (negsuc n)) d = (d, ground arith)

rounded :
    (share : ℕ)
    → (10_000 * ((share + 5_000) / 10_000) ≤ share + 5_000)
      × (share < 10_000 * ((share + 5_000) / 10_000) + 5_000)
rounded share = (omega arith, omega arith)

none_of_zero : (a b : ℕ) → (a ≡ 0) ⊎ (b ≡ 0) → a * b ≡ 0
none_of_zero a b (inl h) = rw h (omega arith)
none_of_zero a b (inr h) = rw h (omega arith)

compute_bounds :
    (amount r k : ℕ)
    → let c = compute_commission (pos amount) (pos r) (pos k) in
      let share = amount * r in
      (pos 0 ≤ℤ c)
      × (c ≤ℤ pos k)
      × (10_000 * pos_part c ≤ share + 5_000)
      × ((c ≡ pos k) ⊎ (share < 10_000 * pos_part c + 5_000))
unfolding compute_commission
compute_bounds amount r k = ground (arith, rounded (amount * r), none_of_zero amount r)

-- With settings from the environment, whatever it holds, the commission on an amount is not
-- negative and at most the cap. It exceeds the share of the rate by at most half a cent, and it is
-- the cap or falls short of that share by less than half a cent.
pub commission_bounds :
    (parse_int : String → Option ℤ) (env : Environment) (amount : ℕ)
    → let s = parse_commission_settings parse_int env in
      let c = compute_commission (pos amount) s.rate_bps s.cap_cents in
      let share = amount * pos_part s.rate_bps in
      (pos 0 ≤ℤ c)
      × (c ≤ℤ s.cap_cents)
      × (10_000 * pos_part c ≤ share + 5_000)
      × ((c ≡ s.cap_cents) ⊎ (share < 10_000 * pos_part c + 5_000))
unfolding compute_commission parse_commission_settings
commission_bounds parse_int env amount =
    let (r, rate) =
      accept_rate (parse_int (text_or_empty env.commission_rate_bps)) default_rate_bps in
    let (k, cap) =
      accept_cap (parse_int (text_or_empty env.commission_cap_cents)) default_cap_cents in
    rw (rate, cap) (compute_bounds amount r k)
