-- ===== src/Payouts/Sums.antt =====
-- The payments and their sums: apps/api/src/payouts/payouts.service.ts.
use koinoxrista.Prelude.{
  ℕ, ◌+◌, ◌≤◌, ◌<◌, String, ◌≡◌, refl, sym, ap, inl, inr, Bool, true, false, not, ◌||◌, Option,
  none, some, List, [], ◌∷◌, arith, ltb, ◌==◌, if◌then◌else◌, Bool-cases, total, All, Result, ok,
  err, ◌>>=◌, throw_if-ok, >>=-eq-ok, ok-injective, if-eq-err,
}
use koinoxrista.Prelude.Int.{ℤ, pos, pos_part, ltb_ℤ, leb_ℤ}
use koinoxrista.Prelude.Sort.{total-sort, IsSorted, sort-IsSorted}
use koinoxrista.Prelude.Tables.{find, count, update_many-All, find-All}
use koinoxrista.Prelude.Sums.{HasUniqueKeys, HasUniqueKeys-cons, HasUniqueKeys-update_many}
use text.Mathlib.Text.{◌==◌ as str_eq}
use koinoxrista.Fees.Charges.{is_other_building}
use koinoxrista.Payouts.Register.{
  Payment, Action, Store, PayoutError, CreateInput, UpdateInput, or_else, is_set, check_linked,
  check_input, or_unchanged, is_payment, find_owned, delete_row, new_payment, insert_payment,
  create, check_change, changed, date_or, change_payment, update, remove, Group, add_group, Summary,
  add_payment, sum_payments, window, summary,
}
use koinoxrista.Payouts.Groups.{
  within, at_key, held, groups_of, total-window, held-sum_payments, groups_of-sum_payments,
  groups_of-sort,
}

add_group_lem :
    (key : String) (n : ℕ) (gs : List Group)
    → total (λ g. g.total_cents) (add_group key n gs) ≡ total (λ g. g.total_cents) gs + n
unfolding add_group
add_group_lem key n [] = omega arith
add_group_lem key n (g ∷ gs) = elim (Bool-cases (str_eq g.key key)) [
  | inl t ↦ rw t (omega arith)
  | inr f ↦ rw f (omega (arith, add_group_lem key n gs))
]

sum_payments_lem :
    (month_of : ℤ → String) (ps : List Payment) (s : Summary)
    → let t = sum_payments month_of ps s in
      let paid = total (λ p. p.amount_cents) ps in
      (t.total_cents ≡ s.total_cents + paid)
      × (total (λ g. g.total_cents) t.by_method ≡ total (λ g. g.total_cents) s.by_method + paid)
      × (total (λ g. g.total_cents) t.by_month ≡ total (λ g. g.total_cents) s.by_month + paid)
unfolding sum_payments add_payment
sum_payments_lem month_of [] s = (omega arith, omega arith, omega arith)
sum_payments_lem month_of (p ∷ ps) s =
    let (a, b, c) = sum_payments_lem month_of ps (add_payment month_of p s) in
    (
      omega (arith, a),
      omega (arith, b, add_group_lem p.method p.amount_cents s.by_method),
      omega (arith, c, add_group_lem (month_of p.paid_at) p.amount_cents s.by_month),
    )

-- The total of a summary is the sum of the building's payments that are not before the start of the
-- year and are before the start of the next one; each method holds the sum of those paid by it, and
-- each month the sum of those paid in it; no method and no month has two entries; the methods add
-- up to the total and the months do, and the methods stand in falling order of what they hold.
pub summary_sums :
    (month_of : ℤ → String) (year_start : ℕ → ℤ) (locale_compare : String → String → ℤ) (s : Store)
    (building : String) (user : Option String) (year : ℕ) (b : Summary) (key : String)
    → summary month_of year_start locale_compare s building user year ≡ ok b
    → let paid_in = λ (n : ℕ) (p : Payment). within year_start building year n p in
      (b.total_cents ≡ total (λ p. paid_in p.amount_cents p) s.payments)
      × (held key b.by_method
          ≡ total (λ p. paid_in (at_key key p.method p.amount_cents) p) s.payments)
      × (held key b.by_month
          ≡ total (λ p. paid_in (at_key key (month_of p.paid_at) p.amount_cents) p) s.payments)
      × (groups_of key b.by_method ≤ 1)
      × (groups_of key b.by_month ≤ 1)
      × (total (λ g. g.total_cents) b.by_method ≡ b.total_cents)
      × (total (λ g. g.total_cents) b.by_month ≡ b.total_cents)
      × IsSorted (λ (x : Group) (y : Group). ltb y.total_cents x.total_cents) b.by_method
unfolding summary
summary_sums month_of year_start locale_compare s building user year b key run =
    let (_, same) = if-eq-err (is_other_building user building) PayoutError.forbidden _ run in
    let rows = window year_start s building year in
    let zero_sums : Summary = record { total_cents = 0; by_method = []; by_month = [] } in
    let t = sum_payments month_of rows zero_sums in
    let (a, m, n) = sum_payments_lem month_of rows zero_sums in
    let (hm, hn) = held-sum_payments month_of key rows zero_sums in
    let (gm, gn) = groups_of-sum_payments month_of key rows zero_sums (omega arith) (omega arith) in
    let larger = λ (x : Group) (y : Group). ltb y.total_cents x.total_cents in
    let earlier = λ (x : Group) (y : Group). ltb_ℤ (locale_compare x.key y.key) (pos 0) in
    let in_key = λ (g : Group). at_key key g.key g.total_cents in
    let sums = λ (f : Payment → ℕ). total-window year_start building year f s in
    rw (sym (ok-injective same)) (
      omega (arith, a, sums (λ p. p.amount_cents)),
      omega (
        arith,
        hm,
        total-sort larger in_key t.by_method,
        sums (λ p. at_key key p.method p.amount_cents),
      ),
      omega (
        arith,
        hn,
        total-sort earlier in_key t.by_month,
        sums (λ p. at_key key (month_of p.paid_at) p.amount_cents),
      ),
      omega (arith, gm, groups_of-sort larger key t.by_method),
      omega (arith, gn, groups_of-sort earlier key t.by_month),
      omega (arith, a, m, total-sort larger (λ g. g.total_cents) t.by_method),
      omega (arith, a, n, total-sort earlier (λ g. g.total_cents) t.by_month),
      sort-IsSorted larger (λ x y h. ground arith) (λ x y z h k. ground arith) t.by_method,
    )

-- Every payment is of a positive amount, and ids are unique.
abbrev pub IsValid : Store → Type 0
IsValid s = All (λ p. 0 < p.amount_cents) s.payments × HasUniqueKeys (λ p. p.id) s.payments

positive_input :
    (amount : ℤ) (date : Option ℤ) (c : ℕ × ℤ) → check_input amount date ≡ ok c → 0 < c.0
unfolding check_input
positive_input amount none c h =
    let (_, more) = if-eq-err (leb_ℤ amount (pos 0)) PayoutError.bad_amount _ h in
    absurd (no_date more)
  where
    no_date : ◌≡◌ {A = Result PayoutError (ℕ × ℤ)} (err PayoutError.bad_date) (ok c) → ⊥
    no_date k = cc
positive_input amount (some d) c h =
    let (positive, more) = if-eq-err (leb_ℤ amount (pos 0)) PayoutError.bad_amount _ h in
    rw (sym (ap (λ (x : ℕ × ℤ). x.0) (ok-injective more))) (above amount positive)
  where
    above : (n : ℤ) → leb_ℤ n (pos 0) ≡ false → 0 < pos_part n
    above n h = ground arith

insert_payment-IsValid :
    (parse_date : String → Option ℤ) (s t : Store) (building : String) (i : CreateInput)
    (new_id : String)
    → IsValid s
    → insert_payment parse_date s building i new_id ≡ ok t
    → IsValid t
unfolding insert_payment
insert_payment-IsValid parse_date s t building i new_id h run =
    let (c, checked, run₁) = >>=-eq-ok (check_input i.amount_cents (parse_date i.paid_at)) _ run in
    let (_, _, run₂) = >>=-eq-ok (check_linked s building i.job_id i.expense_id) _ run₁ in
    let (fresh, same) =
      throw_if-ok (not (count (λ p. str_eq p.id new_id) s.payments == 0)) PayoutError.not_unique _
        run₂ in
    rw (sym (ok-injective same)) (
      (positive_input i.amount_cents (parse_date i.paid_at) c checked, h.0),
      HasUniqueKeys-cons (λ p. p.id) (new_payment building i c new_id) s.payments
          (none_there (count (λ p. str_eq p.id new_id) s.payments) fresh) h.1,
    )
  where
    none_there : (n : ℕ) → not (n == 0) ≡ false → n ≡ 0
    none_there n h = ground arith

positive_change :
    (parse_date : String → Option ℤ) (p : Payment) (i : UpdateInput) (c : ℕ × ℤ)
    → 0 < p.amount_cents
    → check_change parse_date p i ≡ ok c
    → 0 < c.0
unfolding check_change
positive_change parse_date p i c h = cases_of (is_set i.amount_cents || is_set i.paid_at)
  where
    cases_of :
        (b : Bool)
        → (if b
            then check_input
                (or_else i.amount_cents (pos p.amount_cents))
                (date_or parse_date i.paid_at p.paid_at)
            else ok (p.amount_cents, p.paid_at))
          ≡ ok c
        → 0 < c.0
    cases_of true k = positive_input (or_else i.amount_cents (pos p.amount_cents)) _ c k
    cases_of false k = rw (sym (ap (λ (x : ℕ × ℤ). x.0) (ok-injective k))) h

find_owned_lem :
    (s : Store) (building id : String) (p : Payment)
    → find_owned s building id ≡ ok p
    → find (is_payment id building) s.payments ≡ some p
find_owned_lem s building id p h = found (find (is_payment id building) s.payments) h
  where
    found :
        (o : Option Payment)
        → ◌≡◌ {A = Result PayoutError Payment}
            (elim o [ none ↦ err PayoutError.not_found | some q ↦ ok q ])
            (ok p)
        → o ≡ some p
    found none k = absurd (missing k)
      where
        missing : ◌≡◌ {A = Result PayoutError Payment} (err PayoutError.not_found) (ok p) → ⊥
        missing k = cc
    found (some q) k = ap some (ok-injective k)

change_payment-IsValid :
    (parse_date : String → Option ℤ) (s t : Store) (building id : String) (i : UpdateInput)
    → IsValid s
    → change_payment parse_date s building id i ≡ ok t
    → IsValid t
unfolding change_payment
change_payment-IsValid parse_date s t building id i h run =
    let (p, owned, run₁) = >>=-eq-ok (find_owned s building id) _ run in
    let (c, checked, run₂) = >>=-eq-ok (check_change parse_date p i) _ run₁ in
    let (_, _, same) =
      >>=-eq-ok (check_linked s building (or_else i.job_id none) (or_else i.expense_id none)) _
        run₂ in
    let found = find_owned_lem s building id p owned in
    let positive =
      positive_change parse_date p i c
        (find-All (λ q. 0 < q.amount_cents) (is_payment id building) s.payments p h.0 found)
        checked in
    rw (sym (ok-injective same)) (
      update_many-All (λ q. 0 < q.amount_cents) (λ q. str_eq q.id p.id) (changed parse_date i c)
          s.payments (λ q _ _. positive) h.0,
      HasUniqueKeys-update_many (λ q. q.id) (λ q. str_eq q.id p.id) (changed parse_date i c)
          s.payments (λ q. refl) h.1,
    )

delete_row-All :
    (P : Payment → Type 0) (id : String) (ps : List Payment) → All P ps → All P (delete_row id ps)
unfolding delete_row
delete_row-All P id [] h = tt
delete_row-All P id (p ∷ ps) h = elim (Bool-cases (str_eq p.id id)) [
  | inl t ↦ rw t (delete_row-All P id ps h.1)
  | inr f ↦ rw f (h.0, delete_row-All P id ps h.1)
]

delete_row-count :
    (id k : String) (ps : List Payment)
    → count (λ p. str_eq p.id k) (delete_row id ps) ≤ count (λ p. str_eq p.id k) ps
unfolding delete_row
delete_row-count id k [] = omega arith
delete_row-count id k (p ∷ ps) = elim (Bool-cases (str_eq p.id id)) [
  | inl t ↦ rw t (omega (arith, delete_row-count id k ps))
  | inr f ↦ rw f (omega (arith, delete_row-count id k ps))
]

remove_row-IsValid :
    (s t : Store) (building id : String)
    → IsValid s
    → (find_owned s building id >>= λ p.
        ok (record s { payments = delete_row p.id s.payments; audits = Action.deleted ∷ s.audits }))
      ≡ ok t
    → IsValid t
remove_row-IsValid s t building id h run =
    let (p, _, same) = >>=-eq-ok (find_owned s building id) _ run in
    rw (sym (ok-injective same)) (
      delete_row-All (λ q. 0 < q.amount_cents) p.id s.payments h.0,
      λ k. omega (arith, delete_row-count p.id k s.payments, h.1 k),
    )

kept-IsValid :
    (s : Store) (b : Bool) (r : Result PayoutError Store)
    → IsValid s
    → ((t : Store) → r ≡ ok t → IsValid t)
    → (P : Result PayoutError (Unit {0}) × Store)
    → P ≡ (if b then (err PayoutError.forbidden, s) else or_unchanged s r)
    → IsValid P.1
kept-IsValid s true r h k P e = rw e h
kept-IsValid s false (err x) h k P e = rw e h
kept-IsValid s false (ok t) h k P e = rw e (k t refl)

pub data Request : Type 0 where
  creation :
      (building : String) (i : CreateInput) (user : Option String) (new_id : String) → Request
  change : (building id : String) (i : UpdateInput) (user : Option String) → Request
  removal : (building id : String) (user : Option String) → Request

module _ (parse_date : String → Option ℤ) where
  -- The tables after a request.
  unfoldable pub serve : Request → Store → Store
  serve (creation building i user new_id) s = (create parse_date s building i user new_id).1
  serve (change building id i user) s = (update parse_date s building id i user).1
  serve (removal building id user) s = (remove s building id user).1

  -- Every request, granted or refused, leaves only payments of positive amounts, and unique ids.
  pub serve-IsValid : (r : Request) (s : Store) → IsValid s → IsValid (serve r s)
  unfolding serve create update remove
  serve-IsValid (creation building i user new_id) s h =
      kept-IsValid s (is_other_building user building)
        (insert_payment parse_date s building i new_id) h
        (λ t. insert_payment-IsValid parse_date s t building i new_id h) _ refl
  serve-IsValid (change building id i user) s h =
      kept-IsValid s (is_other_building user building) (change_payment parse_date s building id i) h
        (λ t. change_payment-IsValid parse_date s t building id i h) _ refl
  serve-IsValid (removal building id user) s h =
      kept-IsValid s (is_other_building user building) _ h
        (λ t. remove_row-IsValid s t building id h) _ refl
