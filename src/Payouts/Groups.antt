-- ===== src/Payouts/Groups.antt =====
-- The groups by method and by month that PayoutsService.summary sums up, in
-- apps/api/src/payouts/payouts.service.ts.
use koinoxrista.Prelude.{
  ℕ, ◌+◌, ◌≤◌, max, String, ◌≡◌, refl, ap, inl, inr, false, List, [], ◌∷◌, arith, if◌then◌else◌,
  Bool, Bool-cases, total, filter, ◌&&◌,
}
use koinoxrista.Prelude.Int.{ℤ, ltb_ℤ, leb_ℤ}
use koinoxrista.Prelude.Sort.{insert, sort}
use koinoxrista.Prelude.Tables.{count}
use text.Mathlib.Text.{◌==◌ as str_eq}
use text.Mathlib.TextEquality.{eq_iff}
use koinoxrista.Payouts.Register.{
  Payment, Store, Group, add_group, Summary, add_payment, sum_payments, window,
}

-- `n` for a payment of the building that is not before the start of the year and is before the
-- start of the next one, and nothing for any other.
abbrev pub within : (ℕ → ℤ) → String → ℕ → ℕ → Payment → ℕ
within year_start building year n p =
    if str_eq p.building_id building
    then (if ltb_ℤ p.paid_at (year_start year)
        then 0
        else if ltb_ℤ p.paid_at (year_start (year + 1))
        then n
        else 0)
    else 0

-- `n` where the text is the key.
abbrev pub at_key : String → String → ℕ → ℕ
at_key key k n = if str_eq k key then n else 0

-- What the groups of a key hold.
abbrev pub held : String → List Group → ℕ
held key gs = total (λ g. at_key key g.key g.total_cents) gs

abbrev pub groups_of : String → List Group → ℕ
groups_of key gs = count (λ g. str_eq g.key key) gs

pub total-window :
    (year_start : ℕ → ℤ) (building : String) (year : ℕ) (f : Payment → ℕ) (s : Store)
    → total f (window year_start s building year)
      ≡ total (λ p. within year_start building year (f p) p) s.payments
total-window year_start building year f s = go s.payments
  where
    go :
        (ps : List Payment)
        → total f (
            filter
              (λ p.
                str_eq p.building_id building
                && leb_ℤ (year_start year) p.paid_at
                && ltb_ℤ p.paid_at (year_start (year + 1)))
              ps)
          ≡ total (λ p. within year_start building year (f p) p) ps
    go [] = refl
    go (p ∷ ps) = ground (arith, go ps)

held-add_group :
    (key k : String) (n : ℕ) (gs : List Group)
    → held k (add_group key n gs) ≡ held k gs + at_key k key n
unfolding add_group
held-add_group key k n [] = omega arith
held-add_group key k n (g ∷ gs) = elim (Bool-cases (str_eq g.key key)) [
  | inl t ↦ rw t (same_key (ap (λ j. str_eq j k) ((eq_iff g.key key).0 t)))
  | inr f ↦ rw f (omega (arith, held-add_group key k n gs))
]
  where
    same_key :
        str_eq g.key k ≡ str_eq key k
        → at_key k g.key (g.total_cents + n) + held k gs
          ≡ at_key k g.key g.total_cents + held k gs + at_key k key n
    same_key e = ground (arith, e)

groups_of-other :
    (key k : String) (n : ℕ) (gs : List Group)
    → str_eq key k ≡ false
    → groups_of k (add_group key n gs) ≡ groups_of k gs
unfolding add_group
groups_of-other key k n [] e = ground (arith, e)
groups_of-other key k n (g ∷ gs) e = elim (Bool-cases (str_eq g.key key)) [
  | inl t ↦ rw t refl
  | inr f ↦ rw f (omega (arith, groups_of-other key k n gs e))
]

groups_of-own :
    (key : String) (n : ℕ) (gs : List Group)
    → groups_of key (add_group key n gs) ≤ max 1 (groups_of key gs)
unfolding add_group
groups_of-own key n [] = ground arith
groups_of-own key n (g ∷ gs) = elim (Bool-cases (str_eq g.key key)) [
  | inl t ↦ ground (arith, t)
  | inr f ↦ ground (arith, f, groups_of-own key n gs)
]

groups_of-add_group :
    (key k : String) (n : ℕ) (gs : List Group)
    → groups_of k gs ≤ 1
    → groups_of k (add_group key n gs) ≤ 1
groups_of-add_group key k n gs h = elim (Bool-cases (str_eq key k)) [
  | inl t ↦ own_key ((eq_iff key k).0 t)
  | inr f ↦ omega (arith, groups_of-other key k n gs f, h)
]
  where
    own_key : key ≡ k → groups_of k (add_group key n gs) ≤ 1
    own_key e = rw e (omega (arith, groups_of-own k n gs, h))

-- What a key of the methods, and one of the months, holds after the loop.
pub held-sum_payments :
    (month_of : ℤ → String) (key : String) (ps : List Payment) (s : Summary)
    → let t = sum_payments month_of ps s in
      (held key t.by_method
        ≡ held key s.by_method + total (λ p. at_key key p.method p.amount_cents) ps)
      × (held key t.by_month
          ≡ held key s.by_month + total (λ p. at_key key (month_of p.paid_at) p.amount_cents) ps)
unfolding sum_payments add_payment
held-sum_payments month_of key [] s = (omega arith, omega arith)
held-sum_payments month_of key (p ∷ ps) s =
    let (a, b) = held-sum_payments month_of key ps (add_payment month_of p s) in
    (
      omega (arith, a, held-add_group p.method key p.amount_cents s.by_method),
      omega (arith, b, held-add_group (month_of p.paid_at) key p.amount_cents s.by_month),
    )

pub groups_of-sum_payments :
    (month_of : ℤ → String) (key : String) (ps : List Payment) (s : Summary)
    → groups_of key s.by_method ≤ 1
    → groups_of key s.by_month ≤ 1
    → let t = sum_payments month_of ps s in
      (groups_of key t.by_method ≤ 1) × (groups_of key t.by_month ≤ 1)
unfolding sum_payments add_payment
groups_of-sum_payments month_of key [] s h k = (h, k)
groups_of-sum_payments month_of key (p ∷ ps) s h k =
    groups_of-sum_payments month_of key ps (add_payment month_of p s)
      (groups_of-add_group p.method key p.amount_cents s.by_method h)
      (groups_of-add_group (month_of p.paid_at) key p.amount_cents s.by_month k)

module _ (before : Group → Group → Bool) (key : String) where
  groups_of-insert :
      (g : Group) (gs : List Group) → groups_of key (insert before g gs) ≡ groups_of key (g ∷ gs)
  unfolding insert
  groups_of-insert g [] = refl
  groups_of-insert g (h ∷ gs) = ground (arith, groups_of-insert g gs)

  -- Sorting keeps how many groups a key has.
  pub groups_of-sort : (gs : List Group) → groups_of key (sort before gs) ≡ groups_of key gs
  unfolding sort
  groups_of-sort [] = refl
  groups_of-sort (g ∷ gs) = omega (arith, groups_of-insert g (sort before gs), groups_of-sort gs)
