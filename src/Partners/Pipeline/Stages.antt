-- ===== src/Partners/Pipeline/Stages.antt =====
-- The stages of the pipeline, and runs of status changes.
use koinoxrista.Prelude.{
  ℕ, ◌+◌, ◌≤◌, String, ◌≡◌, refl, sym, ap, ◌∙◌, ◌≢◌, ◌⊎◌, inl, inr, true, false, some, arith,
  Bool-cases, Option-cases, any,
}
use koinoxrista.Prelude.Int.{pos}
use koinoxrista.Prelude.Tables.{find-holds}
use text.Mathlib.Text.{◌==◌ as str_eq}
use text.Mathlib.TextEquality.{eq_iff}
use text.Mathlib.TextPositions.{eq_refl}
use koinoxrista.Partners.Pipeline.{
  LeadStatus, new, contacted, quoted, won, lost, value, status_of, pipeline_order, next_statuses,
  can_transition, Commission, absent, whole, accepted, lacks_commission, validate_status_change,
}

-- How far a lead has come.
abbrev pub stage : LeadStatus → ℕ
stage new = 0
stage contacted = 1
stage quoted = 2
stage won = 3
stage lost = 3

pub status_of-value : (t : LeadStatus) → status_of (value t) ≡ some t
unfolding status_of value
status_of-value new = refl
status_of-value contacted = refl
status_of-value quoted = refl
status_of-value won = refl
status_of-value lost = refl

-- A column value that is a status is spelled as that status.
status_of-spelled : (s : String) (t : LeadStatus) → status_of s ≡ some t → value t ≡ s
unfolding status_of
status_of-spelled s t h =
    (eq_iff (value t) s).0 (find-holds (λ status. str_eq (value status) s) pipeline_order t h)

some_injective : {a b : LeadStatus} → some a ≡ some b → a ≡ b
some_injective h = cc

value-eq : (s t : LeadStatus) → str_eq (value s) (value t) ≡ true → s ≡ t
value-eq s t h =
    some_injective (
      sym (status_of-value s) ∙ ap status_of ((eq_iff (value s) (value t)).0 h) ∙ status_of-value t)

next_stage :
    (f t : LeadStatus)
    → any (λ s. str_eq (value s) (value t)) (next_statuses f) ≡ true
    → stage t ≡ stage f + 1
next_stage new t h = ground (arith, value-eq contacted t)
next_stage contacted t h = ground (arith, value-eq quoted t)
next_stage quoted t h = ground (arith, value-eq won t, value-eq lost t)
next_stage won t h = cc
next_stage lost t h = cc

not_won : (s : String) (t : LeadStatus) → value t ≡ s → t ≡ won → str_eq s (value won) ≡ false → ⊥
not_won s t e q h =
    true_not_false
      (sym (eq_refl (value won)) ∙ ap (λ x. str_eq x (value won)) (sym (ap value q) ∙ e) ∙ h)
  where
    true_not_false : true ≡ false → ⊥
    true_not_false p = cc

-- One stage forward, and into WON with a commission.
abbrev pub Advances : String → String → Commission → Type 0
Advances from to commission =
    (f : LeadStatus) × (t : LeadStatus) × (from ≡ value f)
    × (to ≡ value t)
    × (stage t ≡ stage f + 1)
    × ((t ≢ won) ⊎ (lacks_commission commission ≡ false))

-- A change that is accepted leads from a status to one of the next stage, and to WON only with a
-- whole commission that is not negative.
pub change-Advances :
    (from to : String) (commission : Commission)
    → validate_status_change from to commission ≡ accepted
    → Advances from to commission
unfolding validate_status_change can_transition
change-Advances from to commission h = elim (Option-cases (status_of from)) [
  | inl e ↦ ground (arith, e)
  | inr (f, e) ↦ elim (Option-cases (status_of to)) [
    | inl e' ↦ ground (arith, e, e')
    | inr (t, e') ↦
        let from_is = status_of-spelled from f e in
        let to_is = status_of-spelled to t e' in
        (
          f,
          t,
          sym from_is,
          sym to_is,
          next_stage f t (rw to_is ground (arith, e, e', h)),
          elim (Bool-cases (lacks_commission commission)) [
            | inl l ↦ inl (λ q. not_won to t to_is q (ground (arith, e, e', h, l)))
            | inr l ↦ inr l
          ],
        )
  ]
]

-- A lead's history: status changes that were accepted one after another.
pub data Run : String → ℕ → String → Type 0 where
  start : (s : String) → Run s 0 s
  change :
      (from via to : String) (n : ℕ) (commission : Commission)
      → validate_status_change from via commission ≡ accepted
      → Run via n to
      → Run from (n + 1) to

value_injective : (s t : LeadStatus) → value s ≡ value t → s ≡ t
value_injective s t e =
    some_injective (sym (status_of-value s) ∙ ap status_of e ∙ status_of-value t)

below_four : (t : LeadStatus) → stage t ≤ 3
below_four new = omega arith
below_four contacted = omega arith
below_four quoted = omega arith
below_four won = omega arith
below_four lost = omega arith

Run-from :
    {from to : String} {n : ℕ} (r : Run from n to) (f : LeadStatus)
    → from ≡ value f
    → (t : LeadStatus) × (to ≡ value t) × (stage t ≡ stage f + n)
Run-from (start s) f e = (f, e, omega arith)
Run-from (change from via to n commission h r) f e =
    let (f', v, from_is, via_is, next, _) = change-Advances from via commission h in
    let (t, to_is, later) = Run-from r v via_is in
    (t, to_is, omega (arith, later, next, ap stage (value_injective f' f (sym from_is ∙ e))))

-- Every change of a history counts one stage, so a lead never returns to a status it has left, and
-- no history from a status has more than three changes.
pub Run-forward :
    (f : LeadStatus) (to : String) (n : ℕ)
    → Run (value f) n to
    → (t : LeadStatus) × (to ≡ value t) × (stage t ≡ stage f + n) × (n ≤ 3)
Run-forward f to n r =
    let (t, to_is, later) = Run-from r f refl in
    (t, to_is, later, omega (arith, later, below_four t))

to_contacted : {to : String} {n : ℕ} → Run "CONTACTED" n to → Run "NEW" (n + 1) to
unfolding validate_status_change can_transition status_of value
to_contacted {to} {n} r = change "NEW" "CONTACTED" to n absent refl r

to_quoted : {to : String} {n : ℕ} → Run "QUOTED" n to → Run "CONTACTED" (n + 1) to
unfolding validate_status_change can_transition status_of value
to_quoted {to} {n} r = change "CONTACTED" "QUOTED" to n absent refl r

-- Every status can be reached from NEW.
pub Run-reaches : (t : LeadStatus) → Run (value new) (stage t) (value t)
unfolding validate_status_change can_transition status_of value
Run-reaches new = start "NEW"
Run-reaches contacted = to_contacted (start "CONTACTED")
Run-reaches quoted = to_contacted (to_quoted (start "QUOTED"))
Run-reaches won =
    to_contacted (to_quoted (change "QUOTED" "WON" "WON" 0 (whole (pos 0)) refl (start "WON")))
Run-reaches lost =
    to_contacted (to_quoted (change "QUOTED" "LOST" "LOST" 0 absent refl (start "LOST")))
