-- ===== src/Fees/Charges/Closed.antt =====
-- The sweep of apps/api/src/late-fees/late-fees.service.ts: what run writes, and when it returns.
use koinoxrista.Prelude.{
  ℕ, ◌+◌, ◌*◌, ◌<◌, String, ◌≡◌, refl, sym, ◌∙◌, ◌⊎◌, inl, inr, Bool, true, false, Option, none,
  List, [], ◌∷◌, arith, ltb, if◌then◌else◌, Bool-cases, Option-cases, length, All, filter, Result,
  ok, err, ok-injective,
}
use koinoxrista.Prelude.Int.{ℤ, pos, pos_part, ◌-ℤ◌, ◌≤ℤ◌, -ℤ_parts}
use koinoxrista.Period.{Text, Month, PeriodError}
use koinoxrista.Fees.LateFee.{flat, LateFeeSettings, compute_late_fee, raw_fee}
use koinoxrista.Fees.Charges.{
  SettingsRow, Invoice, Store, FeeError, is_other_building, row_of, current, is_selected,
  is_charged, Pending, overdue_days, pending_charge, pending_charges, month_of, run, Action,
}

-- The charges, the invoices and the settings are as before; and either the result is that nothing
-- was charged, with one note of it added to the audit, or it is an error and the store is as before.
abbrev pub IsClosed : Store → Result FeeError (ℕ × ℕ) × Store → Type 0
IsClosed s p =
    (p.1.charges ≡ s.charges)
    × (p.1.invoices ≡ s.invoices)
    × (p.1.settings ≡ s.settings)
    × (((p.0 ≡ ok (0, 0)) × (p.1 ≡ record s { audits = Action.run_done ∷ s.audits }))
        ⊎ ((e : FeeError) × (p.0 ≡ err e) × (p.1 ≡ s)))

if-IsClosed :
    (s : Store) (b : Bool) (x y : Result FeeError (ℕ × ℕ) × Store)
    → IsClosed s x
    → IsClosed s y
    → IsClosed s (if b then x else y)
if-IsClosed s true x y p q = p
if-IsClosed s false x y p q = q

refused-IsClosed : (s : Store) (e : FeeError) → IsClosed s (err e, s)
refused-IsClosed s e = (refl, refl, refl, inr (e, refl, refl))

month-IsClosed :
    (s : Store) (m : Result PeriodError (Option Month))
    (g : Option Month → Result FeeError (ℕ × ℕ) × Store)
    → ((o : Option Month) → IsClosed s (g o))
    → IsClosed s (elim m [ err _ ↦ (err FeeError.bad_period, s) | ok o ↦ g o ])
month-IsClosed s (err e) g h = refused-IsClosed s FeeError.bad_period
month-IsClosed s (ok o) g h = h o

true_not_false : true ≡ false → ⊥
true_not_false h = cc

All-weaken :
    {P Q : Invoice → Type 0} (vs : List Invoice) → All P vs → ((v : Invoice) → P v → Q v) → All Q vs
All-weaken [] p f = tt
All-weaken (v ∷ vs) p f = (f v p.0, All-weaken vs p.1 f)

abbrev fst_of : Result FeeError (ℕ × ℕ) × Store → Result FeeError (ℕ × ℕ)
fst_of p = p.0

abbrev branch :
    Bool
    → Result PeriodError (Option Month)
    → (Option Month → List Pending)
    → Store
    → Result FeeError (ℕ × ℕ) × Store
branch other m pendings s = if other then (err FeeError.forbidden, s) else elim m [
  | err _ ↦ (err FeeError.bad_period, s)
  | ok o ↦
      if ltb 0 (length (pendings o))
      then (err (FeeError.disabled (length (pendings o))), s)
      else (ok (0, 0), record s { audits = Action.run_done ∷ s.audits })
]

run_branch :
    (other : Bool) (m : Result PeriodError (Option Month)) (month : Option Month)
    (pendings : Option Month → List Pending) (s : Store)
    → m ≡ ok month
    → (branch other m pendings s).0 ≡ ok (0, 0)
    → length (pendings month) ≡ 0
run_branch true m month pendings s e h = cc
run_branch false (err x) month pendings s e h = cc
run_branch false (ok o) month pendings s e h =
    rw (sym (ok-injective e)) (empty (length (pendings o)) s h)
  where
    empty :
        (n : ℕ) (s : Store)
        → fst_of (
            if ltb 0 n
            then (err (FeeError.disabled n), s)
            else (ok (0, 0), record s { audits = Action.run_done ∷ s.audits }))
          ≡ ok (0, 0)
        → n ≡ 0
    empty n s h = ground arith

mul_pos : (a b : ℕ) → 0 < a → 0 < b → 0 < a * b
mul_pos a b h k = grind arith

fee_pos :
    (s : LateFeeSettings) (outstanding days : ℤ)
    → s.mode ≡ flat
    → 0 < s.daily_flat_cents
    → s.cap_cents ≡ none
    → pos 1 ≤ℤ outstanding
    → pos 1 ≤ℤ days
    → 0 < compute_late_fee s outstanding days
unfolding compute_late_fee raw_fee
fee_pos s outstanding days m p c h k =
    rw (m, c) (ground (arith, mul_pos s.daily_flat_cents (pos_part days)))

module _ (date_utc : ℕ → ℕ → ℤ) where
  abbrev pending : Store → String → Option Month → ℤ → List Pending
  pending s building month now =
      pending_charges date_utc (current building (row_of s building)) now
        (is_charged building month s.charges) (filter (is_selected building month) s.invoices)

  -- A run changes no charge, no invoice and no setting, whatever it returns: a run that returns
  -- reports no charges and a total of zero, and adds one note of itself to the audit; a run that
  -- throws changes nothing at all.
  pub run-IsClosed :
      (s : Store) (building : String) (wanted : Option Text) (user : Option String) (now : ℤ)
      → IsClosed s (run date_utc s building wanted user now)
  unfolding run
  run-IsClosed s building wanted user now =
      if-IsClosed s (is_other_building user building) _ _ (refused-IsClosed s FeeError.forbidden) (
        month-IsClosed s (month_of date_utc wanted) _ (λ month.
          let n = length (pending s building month now) in
          if-IsClosed s (ltb 0 n) _ _ (refused-IsClosed s (FeeError.disabled n))
            (refl, refl, refl, inl (refl, refl))))

  -- Nothing is pending: every invoice of the list gives no charge.
  none_pending :
      (r : SettingsRow) (now : ℤ) (charged : Invoice → Bool) (vs : List Invoice)
      → length (pending_charges date_utc r now charged vs) ≡ 0
      → All (λ v. pending_charge date_utc r now charged v ≡ none) vs
  unfolding pending_charges
  none_pending r now charged [] h = tt
  none_pending r now charged (v ∷ vs) h =
      elim (Option-cases (pending_charge date_utc r now charged v)) [
        | inl e ↦ (e, none_pending r now charged vs (ground (arith, e)))
        | inr (p, e) ↦ ground (arith, e)
      ]

  -- Whether an invoice is late beyond the days of grace with something left to pay.
  abbrev pub IsLate : SettingsRow → ℤ → Invoice → Type 0
  IsLate r now v =
      (pos 1 ≤ℤ v.total_cents -ℤ v.paid_cents)
      × (pos (r.grace_days + 1) ≤ℤ overdue_days date_utc now v)

  late_charged :
      (r : SettingsRow) (now : ℤ) (charged : Invoice → Bool) (v : Invoice)
      → r.setting.mode ≡ flat
      → 0 < r.setting.daily_flat_cents
      → r.setting.cap_cents ≡ none
      → IsLate r now v
      → pending_charge date_utc r now charged v ≡ none
      → charged v ≡ true
  unfolding pending_charge
  late_charged r now charged v m p c late h =
      let outstanding = v.total_cents -ℤ v.paid_cents in
      let chargeable = overdue_days date_utc now v -ℤ pos r.grace_days in
      ground (
        arith,
        fee_pos r.setting outstanding chargeable m p c,
        -ℤ_parts (overdue_days date_utc now v) (pos r.grace_days),
      )

  nothing_pending :
      (s : Store) (building : String) (wanted : Option Text) (month : Option Month)
      (user : Option String) (now : ℤ)
      → month_of date_utc wanted ≡ ok month
      → (run date_utc s building wanted user now).0 ≡ ok (0, 0)
      → length (pending s building month now) ≡ 0
  unfolding run
  nothing_pending s building wanted month user now w h =
      run_branch (is_other_building user building) (month_of date_utc wanted) month
        (λ o. pending s building o now) s w h

  -- Where the building's settings are in FLAT mode with a daily rate above zero and without a cap,
  -- and the month asked for, if there is one, is a valid period, a run returns only if each invoice
  -- of the building (of the month, if there is one) that is not marked as paid, has something left
  -- to pay and is late beyond the days of grace has been charged before.
  pub run_passes :
      (s : Store) (building : String) (wanted : Option Text) (month : Option Month)
      (user : Option String) (now : ℤ)
      → let r = current building (row_of s building) in
        r.setting.mode ≡ flat
        → 0 < r.setting.daily_flat_cents
        → r.setting.cap_cents ≡ none
        → month_of date_utc wanted ≡ ok month
        → (run date_utc s building wanted user now).0 ≡ ok (0, 0)
        → All
            (λ v. (IsLate r now v → ⊥) ⊎ (is_charged building month s.charges v ≡ true))
            (filter (is_selected building month) s.invoices)
  run_passes s building wanted month user now m p c w h =
      All-weaken (filter (is_selected building month) s.invoices)
        (none_pending (current building (row_of s building)) now
          (is_charged building month s.charges) (filter (is_selected building month) s.invoices)
          (nothing_pending s building wanted month user now w h))
        (λ v e. elim (Bool-cases (is_charged building month s.charges v)) [
          | inl t ↦ inr t
          | inr f ↦ inl (λ late. true_not_false (
              sym (
                late_charged (current building (row_of s building)) now
                  (is_charged building month s.charges) v m p c late e)
              ∙ f))
        ])
