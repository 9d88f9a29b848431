-- ===== src/Reserve/Collect/Runs.antt =====
-- What a transaction of collectLevy that returns has done: apps/api/src/reserve/reserve.service.ts.
use koinoxrista.Prelude.{
  ℕ, ◌+◌, ◌-◌, min, String, ◌≡◌, sym, ap, ◌∙◌, inl, inr, Bool, true, false, not, Option, none, some,
  List, [], ◌∷◌, arith, ◌==◌, if◌then◌else◌, Option-cases, Result, ok, err, >>=-eq-ok, ok-injective,
  if-eq-err,
}
use koinoxrista.Prelude.Int.{ℤ}
use koinoxrista.Prelude.Tables.{find, count, update_many}
use text.Mathlib.Text.{◌==◌ as str_eq}
use koinoxrista.Reserve.Store.{Fund, LevyShare, Store, ReserveError, levy, is_issued, is_levy}
use koinoxrista.Reserve.Fund.{add_contribution}
use koinoxrista.Reserve.Collect.{
  Allocation, amount_of, can_pay, pay, outstanding, pay_share, retry_share, take_share, is_skipped,
  round, collect_from, shares_of, collect_shares, collect,
}

-- A collection that returns has found the levy issued, taken all of its amount from the shares, and
-- recorded it as a contribution.
pub collect-runs :
    (locale_compare : String → String → ℤ) (before : Store → Store)
    (others : ℕ → List LevyShare → List LevyShare) (s u : Store) (f : Fund)
    (building levy_id : String) (n : ℕ) (unit : Option String)
    → collect locale_compare before others s f building levy_id n unit ≡ ok u
    → (as' : List Allocation) × (table : List LevyShare) × (collect_from others levy_id unit 0
          (shares_of locale_compare before others s levy_id)
          n
          s.shares
        ≡ ok (as', 0, table))
      × (add_contribution (record s { shares = table }) f building n levy (some levy_id) ≡ ok u)
unfolding collect collect_shares
collect-runs locale_compare before others s u f building levy_id n unit e =
    elim (Option-cases (find (is_levy levy_id building) s.levies)) [
      | inl m ↦ absurd (no_levy (rw (collect, m) at e))
      | inr (l, m) ↦
          let (_, more) = if-eq-err (not (is_issued l.status)) _ _ (rw (collect, m) at e) in
          let (r, loop, rest) =
            >>=-eq-ok
              (collect_from others levy_id unit 0 (shares_of locale_compare before others s levy_id)
                n s.shares)
              _ more in
          let (spent, last) = if-eq-err (not (r.1 == 0)) _ _ rest in
          let zero_left : r.1 ≡ 0 = all_spent r.1 spent in
          (r.0, r.2, (loop ∙ ap (λ k. ok (r.0, k, r.2)) zero_left), last)
    ]
  where
    no_levy : {x : ReserveError} → ◌≡◌ {A = Result ReserveError Store} (err x) (ok u) → ⊥
    no_levy h = cc

    all_spent : (k : ℕ) → not (k == 0) ≡ false → k ≡ 0
    all_spent k h = ground arith

-- What the loop does is a chain of payments and of what others do.
module _ (R : List LevyShare → List LevyShare → Type 0) (R-refl : (t : List LevyShare) → R t t)
    (R-trans : (t u v : List LevyShare) → R t u → R u v → R t v)
    (pays : (p : LevyShare → Bool) (n : ℕ) (t : List LevyShare) → R t (update_many p (pay n) t))
    (others : ℕ → List LevyShare → List LevyShare)
    (calm : (n : ℕ) (t : List LevyShare) → R t (others n t)) (levy_id : String) where
  abbrev Leads : List LevyShare → Result ReserveError (Option Allocation × List LevyShare) → Type 0
  Leads t r = (p : Option Allocation × List LevyShare) → r ≡ ok p → R t p.1

  either-Leads :
      (t : List LevyShare) (b : Bool)
      (x y : Result ReserveError (Option Allocation × List LevyShare))
      → Leads t x
      → Leads t y
      → Leads t (if b then x else y)
  either-Leads t true x y k l = k
  either-Leads t false x y k l = l

  pay_share-Leads :
      (h : LevyShare) (n : ℕ) (t u : List LevyShare) → R t u → Leads t (pay_share levy_id h n u)
  unfolding pay_share
  pay_share-Leads h n t u k p e =
      let (_, same) = if-eq-err (count (can_pay h.id levy_id (h.amount_cents - n)) u == 0) _ _ e in
      rw (sym (ok-injective same)) (R-trans t u _ k (pays _ n u))

  none-Leads : (t u : List LevyShare) → R t u → Leads t (ok (none, u))
  none-Leads t u k p e = rw (sym (ok-injective e)) k

  retry-Leads :
      (n : ℕ) (id : String) (remaining : ℕ) (t u : List LevyShare)
      → R t u
      → Leads t (retry_share others levy_id n id remaining u)
  unfolding retry_share
  retry-Leads n id remaining t u k =
      let seen = R-trans t u (others n u) k (calm n u) in
      found (find (λ h. str_eq h.id id) (others n u)) (λ x.
        either-Leads t (outstanding x == 0) _ _ (none-Leads t (others n u) seen) (
          pay_share-Leads x (min remaining (outstanding x)) t (others (n + 1) (others n u))
            (R-trans t (others n u) _ seen (calm (n + 1) (others n u)))))
    where
      found :
          (o : Option LevyShare)
          {next : LevyShare → Result ReserveError (Option Allocation × List LevyShare)}
          → ((x : LevyShare) → Leads t (next x))
          → Leads t (elim o [ none ↦ err ReserveError.conflict | some x ↦ next x ])
      found none k = λ p e. cc
      found (some x) k = k x

  round-Leads :
      (unit : Option String) (n : ℕ) (h : LevyShare) (remaining : ℕ) (t : List LevyShare)
      → Leads t (round others levy_id unit n h remaining t)
  unfolding round take_share
  round-Leads unit n h remaining t =
      let taken = min remaining (outstanding h) in
      either-Leads t (is_skipped others levy_id unit h remaining) _ _ (none-Leads t t (R-refl t)) (
        either-Leads t (count (can_pay h.id levy_id (h.amount_cents - taken)) (others n t) == 0) _ _
          (retry-Leads (n + 1) h.id remaining t (others n t) (calm n t))
          (pay_share-Leads h taken t (others n t) (calm n t)))

  pub loop-leads :
      (unit : Option String) (n : ℕ) (hs : List LevyShare) (remaining : ℕ) (t : List LevyShare)
      (r : List Allocation × ℕ × List LevyShare)
      → collect_from others levy_id unit n hs remaining t ≡ ok r
      → R t r.2
  unfolding collect_from
  loop-leads unit n [] remaining t r e = rw (sym (ok-injective e)) (R-refl t)
  loop-leads unit n (h ∷ hs) remaining t r e =
      let (p, first, more) = >>=-eq-ok (round others levy_id unit n h remaining t) _ e in
      let (q, rest, same) =
        >>=-eq-ok (collect_from others levy_id unit (n + 3) hs (remaining - amount_of p.0) p.1) _
          more in
      rw (sym (ok-injective same)) (
        R-trans t p.1 q.2 (round-Leads unit n h remaining t p first)
          (loop-leads unit (n + 3) hs (remaining - amount_of p.0) p.1 q rest))
