-- ===== src/Fees/Charges/Rows.antt =====
-- The settings and the charges as rows of their tables.
use koinoxrista.Prelude.{
  ℕ, ◌<◌, String, ◌≡◌, refl, sym, ap, ◌∙◌, ◌⊎◌, inl, inr, Bool, true, false, Option, none, some,
  List, [], ◌∷◌, arith, ◌==◌, if◌then◌else◌, Bool-cases, Option-cases, Result, ok, err, throw_if,
  ok-injective,
}
use koinoxrista.Prelude.Tables.{find, update_many, find-holds}
use text.Mathlib.Text.{◌==◌ as str_eq}
use text.Mathlib.TextEquality.{eq_iff}
use text.Mathlib.TextPositions.{eq_refl}
use koinoxrista.Fees.LateFee.{flat, percent, LateFeeSettings}
use koinoxrista.Fees.Charges.{
  SettingsRow, Charge, Store, FeeError, is_other_building, row_of, merged, assert_rate_usable,
  upsert, update_settings, get_settings, waive, UpdateSettings, Action,
}

-- A setting that can produce a fee in its mode.
abbrev pub IsUsable : LateFeeSettings → Type 0
IsUsable s = ((s.mode ≡ flat) × (0 < s.daily_flat_cents)) ⊎ ((s.mode ≡ percent) × (0 < s.daily_bps))

row-upsert :
    (rs : List SettingsRow) (row : SettingsRow)
    → find (λ r. str_eq r.building_id row.building_id) (upsert rs row) ≡ some row
unfolding upsert
row-upsert [] row = rw (eq_refl row.building_id) refl
row-upsert (r ∷ rs) row = elim (Bool-cases (str_eq r.building_id row.building_id)) [
  | inl t ↦ rw (t, eq_refl row.building_id) refl
  | inr f ↦ rw (f, f) (row-upsert rs row)
]

other_key : (i k j : String) → i ≡ k → str_eq k j ≡ false → str_eq i j ≡ false
other_key i k j e h = rw e h

row-upsert_other :
    (rs : List SettingsRow) (row : SettingsRow) (other : String)
    → str_eq row.building_id other ≡ false
    → find (λ r. str_eq r.building_id other) (upsert rs row)
      ≡ find (λ r. str_eq r.building_id other) rs
unfolding upsert
row-upsert_other [] row other h = rw h refl
row-upsert_other (r ∷ rs) row other h = elim (Bool-cases (str_eq r.building_id row.building_id)) [
  | inl t ↦
      rw
        (
          t,
          other_key r.building_id row.building_id other ((eq_iff r.building_id row.building_id).0 t)
              h,
          h,
        )
        refl
  | inr f ↦ rw (f, row-upsert_other rs row other h) refl
]

assert-IsUsable : (s : LateFeeSettings) → assert_rate_usable s ≡ ok tt → IsUsable s
unfolding assert_rate_usable
assert-IsUsable s h =
    elim s.mode
        as (λ m.
          (elim m [
            | flat ↦ throw_if (s.daily_flat_cents == 0) FeeError.flat_unset
            | percent ↦ throw_if (s.daily_bps == 0) FeeError.percent_unset
          ])
            ≡ ok tt
          → ((m ≡ flat) × (0 < s.daily_flat_cents)) ⊎ ((m ≡ percent) × (0 < s.daily_bps))) [
            | flat ↦ λ h. inl (refl, ground arith)
            | percent ↦ λ h. inr (refl, ground arith)
          ]
      h

abbrev branch :
    Bool
    → Result FeeError (Unit {0})
    → SettingsRow
    → Store
    → Store
    → Result FeeError SettingsRow × Store
branch other check row s t =
    if other
    then (err FeeError.forbidden, s)
    else elim check [ err e ↦ (err e, s) | ok _ ↦ (ok row, t) ]

branch-ok :
    (other : Bool) (check : Result FeeError (Unit {0})) (row row' : SettingsRow) (s t : Store)
    → (branch other check row s t).0 ≡ ok row'
    → (other ≡ false) × (check ≡ ok tt) × (row ≡ row') × ((branch other check row s t).1 ≡ t)
branch-ok true check row row' s t h = cc
branch-ok false (err e) row row' s t h = cc
branch-ok false (ok tt) row row' s t h = (refl, refl, ok-injective h, refl)

settings_found :
    (s : Store) (building : String) (user : Option String) (row : SettingsRow)
    → is_other_building user building ≡ false
    → row_of s building ≡ some row
    → get_settings s building user ≡ ok row
unfolding get_settings
settings_found s building user row mine found = rw (get_settings, mine, found) refl

-- After an update that returns, the settings of the building are read back as they were returned,
-- they can produce a fee in their mode, and those of every other building are as before.
pub update_settings_lem :
    (s : Store) (building other : String) (dto : UpdateSettings) (user : Option String)
    (row : SettingsRow)
    → (update_settings s building dto user).0 ≡ ok row
    → str_eq building other ≡ false
    → let after = (update_settings s building dto user).1 in
      (get_settings after building user ≡ ok row)
      × IsUsable row.setting
      × (row_of after other ≡ row_of s other)
unfolding update_settings merged
update_settings_lem s building other dto user row h apart =
    let new_row = merged building dto (row_of s building) in
    let (mine, usable, same, after) =
      branch-ok (is_other_building user building) (assert_rate_usable new_row.setting) new_row row s
        (record s {
          settings = upsert s.settings new_row;
          audits = Action.settings_update ∷ s.audits;
        })
        h in
    (
      ap (λ x. get_settings x building user) after
          ∙ settings_found
              (record s {
                settings = upsert s.settings new_row;
                audits = Action.settings_update ∷ s.audits;
              })
              building user row mine (row-upsert s.settings new_row ∙ ap (λ r. some r) same),
      assert-IsUsable row.setting (ap (λ r. assert_rate_usable r.setting) (sym same) ∙ usable),
      ap (λ x. find (λ r. str_eq r.building_id other) x.settings) after
          ∙ row-upsert_other s.settings new_row other apart,
    )

abbrev stamped : Charge → ℕ → Charge
stamped c now = record c { waived_at = some now }

abbrev waived_store : Store → Charge → ℕ → Store
waived_store s c now = record s {
  charges = update_many (λ x. str_eq x.id c.id) (λ x. stamped x now) s.charges;
  audits = Action.waived ∷ s.audits;
}

first_found :
    (x : Charge) (cs : List Charge) (id : String) (c : Charge) (now : ℕ)
    → str_eq x.id id ≡ true
    → x ≡ c
    → find (λ y. str_eq y.id id) (update_many (λ y. str_eq y.id c.id) (λ y. stamped y now) (x ∷ cs))
      ≡ some (stamped c now)
first_found x cs id c now t q = rw (sym q, eq_refl x.id, t) refl

-- The charge is found again after the update.
find-waived :
    (cs : List Charge) (id : String) (c : Charge) (now : ℕ)
    → find (λ x. str_eq x.id id) cs ≡ some c
    → find (λ x. str_eq x.id id) (update_many (λ x. str_eq x.id c.id) (λ x. stamped x now) cs)
      ≡ some (stamped c now)
find-waived [] id c now h = cc
find-waived (x ∷ cs) id c now h = elim (Bool-cases (str_eq x.id id)) [
  | inl t ↦ first_found x cs id c now t (ground arith)
  | inr f ↦
      let same : c.id ≡ id =
        (eq_iff c.id id).0 (find-holds (λ y. str_eq y.id id) cs c (ground arith)) in
      rw (ap (λ k. str_eq x.id k) same ∙ f, f) (find-waived cs id c now (ground arith))
]

-- A charge that has a time is returned as it is.
waive_again :
    (s : Store) (id : String) (user : Option String) (now t : ℕ) (c : Charge)
    → find (λ x. str_eq x.id id) s.charges ≡ some c
    → is_other_building user c.building_id ≡ false
    → c.waived_at ≡ some t
    → waive s id user now ≡ (ok c, s)
unfolding waive
waive_again s id user now t c found mine at = simp (waive, found, mine, at)

waive_first :
    (s : Store) (id : String) (user : Option String) (now : ℕ) (c : Charge)
    → find (λ x. str_eq x.id id) s.charges ≡ some c
    → is_other_building user c.building_id ≡ false
    → c.waived_at ≡ none
    → waive s id user now ≡ (ok (stamped c now), waived_store s c now)
unfolding waive
waive_first s id user now c found mine at = rw (waive, found, mine, at) refl

waive_missing :
    (s : Store) (id : String) (user : Option String) (now : ℕ)
    → find (λ x. str_eq x.id id) s.charges ≡ none
    → waive s id user now ≡ (err FeeError.not_found, s)
unfolding waive
waive_missing s id user now e = rw (waive, e) refl

waive_foreign :
    (s : Store) (id : String) (user : Option String) (now : ℕ) (c : Charge)
    → find (λ x. str_eq x.id id) s.charges ≡ some c
    → is_other_building user c.building_id ≡ true
    → waive s id user now ≡ (err FeeError.forbidden, s)
unfolding waive
waive_foreign s id user now c e t = rw (waive, e, t) refl

no_charge : {e : FeeError} {c : Charge} → err e ≡ ok c → ⊥
no_charge h = cc

-- What a call that returns has found.
waive_found :
    (s : Store) (id : String) (user : Option String) (now : ℕ) (c : Charge)
    → (waive s id user now).0 ≡ ok c
    → (x : Charge) × (find (λ y. str_eq y.id id) s.charges ≡ some x)
      × (is_other_building user x.building_id ≡ false)
unfolding waive
waive_found s id user now c h = elim (Option-cases (find (λ y. str_eq y.id id) s.charges)) [
  | inl e ↦ absurd (no_charge (sym (ap (λ p. p.0) (waive_missing s id user now e)) ∙ h))
  | inr (x, e) ↦ elim (Bool-cases (is_other_building user x.building_id)) [
    | inl t ↦ absurd (no_charge (sym (ap (λ p. p.0) (waive_foreign s id user now x e t)) ∙ h))
    | inr f ↦ (x, e, f)
  ]
]

-- Waiving a charge twice is waiving it once: the second call returns the charge with the first time
-- and changes nothing.
pub waive_idempotent :
    (s : Store) (id : String) (user : Option String) (now later : ℕ) (c : Charge)
    → (waive s id user now).0 ≡ ok c
    → waive (waive s id user now).1 id user later ≡ (ok c, (waive s id user now).1)
waive_idempotent s id user now later c h =
    let (x, found, mine) = waive_found s id user now c h in
    elim (Option-cases x.waived_at) [
      | inl n ↦
          let first = waive_first s id user now x found mine n in
          let same : stamped x now ≡ c = ok-injective (sym (ap (λ p. p.0) first) ∙ h) in
          rw (first, sym same)
            (waive_again (waived_store s x now) id user later now (stamped x now)
              (find-waived s.charges id x now found) mine refl)
      | inr (t, w) ↦
          let first = waive_again s id user now t x found mine w in
          let same : x ≡ c = ok-injective (sym (ap (λ p. p.0) first) ∙ h) in
          rw (first, sym same) (waive_again s id user later t x found mine w)
    ]
