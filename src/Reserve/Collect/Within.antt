-- ===== src/Reserve/Collect/Within.antt =====
-- Collections that run beside each other: collectLevy of apps/api/src/reserve/reserve.service.ts.
use koinoxrista.Prelude.{
  ℕ, ◌+◌, ◌-◌, ◌≤◌, min, String, ◌≡◌, sym, ap, inl, inr, Bool, true, false, Option, none, some,
  List, [], ◌∷◌, arith, ◌==◌, if◌then◌else◌, Option-cases, All, filter, Result, ok, err, >>=-eq-ok,
  ok-injective, if-eq-err,
}
use koinoxrista.Prelude.Int.{ℤ, pos, pos_part, leb_ℤ}
use koinoxrista.Prelude.Sort.{sort-All}
use koinoxrista.Prelude.Tables.{find, count, update_many-All, find-All}
use text.Mathlib.Text.{◌==◌ as str_eq}
use text.Mathlib.TextEquality.{eq_iff}
use koinoxrista.Fees.Charges.{is_other_building}
use koinoxrista.Reserve.Store.{LevyShare, Store, ReserveError, Action, levy}
use koinoxrista.Reserve.Collect.{
  Allocation, amount_of, can_pay, pay, outstanding, pay_share, retry_share, take_share, is_skipped,
  round, collect_from, shares_of, collect, collect_levy,
}
use koinoxrista.Reserve.Sound.{if-Ends}
use koinoxrista.Reserve.Fund.Books.{
  fund-shares, add_contribution-shares, fund-Ends, or_unchanged-Ends,
}
use koinoxrista.Reserve.Collect.Runs.{collect-runs}

-- Every share is paid at most its amount, and has the amount that belongs to its id.
abbrev pub IsLimited : (String → ℕ) → LevyShare → Type 0
IsLimited limit h = (h.paid_cents ≤ h.amount_cents) × (h.amount_cents ≡ limit h.id)

pay-IsLimited :
    (limit : String → ℕ) (h x : LevyShare) (levy_id : String) (n : ℕ)
    → h.amount_cents ≡ limit h.id
    → n ≤ h.amount_cents
    → can_pay h.id levy_id (h.amount_cents - n) x ≡ true
    → IsLimited limit x
    → IsLimited limit (pay n x)
pay-IsLimited limit h x levy_id n e small c w =
    let under : x.paid_cents ≤ h.amount_cents - n = ground arith in
    let same_id : str_eq x.id h.id ≡ true = ground arith in
    (omega (arith, under, w.1, same x.id h.id same_id, e, small), w.1)
  where
    same : (i j : String) → str_eq i j ≡ true → limit i ≡ limit j
    same i j t = ap limit ((eq_iff i j).0 t)

pay_share-IsLimited :
    (limit : String → ℕ) (levy_id : String) (h : LevyShare) (n : ℕ) (table : List LevyShare)
    (p : Option Allocation × List LevyShare)
    → h.amount_cents ≡ limit h.id
    → n ≤ h.amount_cents
    → All (IsLimited limit) table
    → pay_share levy_id h n table ≡ ok p
    → All (IsLimited limit) p.1
unfolding pay_share
pay_share-IsLimited limit levy_id h n table p e small w c =
    let (_, same) =
      if-eq-err (count (can_pay h.id levy_id (h.amount_cents - n)) table == 0) _ _ c in
    rw (sym (ok-injective same)) (
      update_many-All (IsLimited limit) (can_pay h.id levy_id (h.amount_cents - n)) (pay n) table
        (λ x k. pay-IsLimited limit h x levy_id n e small k) w)

module _ (limit : String → ℕ) (others : ℕ → List LevyShare → List LevyShare) (levy_id : String)
    (safe : (n : ℕ) (t : List LevyShare)
      → All (IsLimited limit) t
      → All (IsLimited limit) (others n t)) where
  -- What a round of the loop leaves.
  abbrev Ends : Result ReserveError (Option Allocation × List LevyShare) → Type 0
  Ends r = (p : Option Allocation × List LevyShare) → r ≡ ok p → All (IsLimited limit) p.1

  retry-IsLimited :
      (n : ℕ) (id : String) (remaining : ℕ) (table : List LevyShare)
      → All (IsLimited limit) table
      → Ends (retry_share others levy_id n id remaining table)
  unfolding retry_share
  retry-IsLimited n id remaining table w p c =
      elim (Option-cases (find (λ h. str_eq h.id id) (others n table))) [
        | inl e ↦ absurd (no_share (rw (retry_share, e) at c))
        | inr (x, e) ↦
            let seen = others n table in
            let sound = safe n table w in
            let x_limited = find-All (IsLimited limit) (λ h. str_eq h.id id) seen x sound e in
            retried (outstanding x == 0) seen sound
              (pay_share levy_id x (min remaining (outstanding x)) (others (n + 1) seen))
              (λ q k.
                pay_share-IsLimited limit levy_id x (min remaining (outstanding x))
                  (others (n + 1) seen) q x_limited.1 (omega arith) (safe (n + 1) seen sound) k)
              p (rw (retry_share, e) at c)
      ]
    where
      no_share : {e : ReserveError} → err e ≡ ok p → ⊥
      no_share h = cc

      retried :
          (b : Bool) (seen : List LevyShare)
          → All (IsLimited limit) seen
          → (r : Result ReserveError (Option Allocation × List LevyShare)) → Ends r
          → Ends (if b then ok (none, seen) else r)
      retried true seen sound r k q e = rw (sym (ok-injective e)) sound
      retried false seen sound r k q e = k q e

  take-IsLimited :
      (n : ℕ) (h : LevyShare) (remaining : ℕ) (table : List LevyShare)
      → h.amount_cents ≡ limit h.id
      → All (IsLimited limit) table
      → Ends (take_share others levy_id n h remaining table)
  unfolding take_share
  take-IsLimited n h remaining table e w =
      let taken = min remaining (outstanding h) in
      either (count (can_pay h.id levy_id (h.amount_cents - taken)) (others n table) == 0)
        (retry_share others levy_id (n + 1) h.id remaining (others n table))
        (pay_share levy_id h taken (others n table))
        (retry-IsLimited (n + 1) h.id remaining (others n table) (safe n table w))
        (λ q k.
          pay_share-IsLimited limit levy_id h taken (others n table) q e (omega arith)
            (safe n table w) k)
    where
      either :
          (b : Bool) (x y : Result ReserveError (Option Allocation × List LevyShare))
          → Ends x
          → Ends y
          → Ends (if b then x else y)
      either true x y k l = k
      either false x y k l = l

  round-IsLimited :
      (unit : Option String) (n : ℕ) (h : LevyShare) (remaining : ℕ) (table : List LevyShare)
      → h.amount_cents ≡ limit h.id
      → All (IsLimited limit) table
      → Ends (round others levy_id unit n h remaining table)
  unfolding round
  round-IsLimited unit n h remaining table e w =
      skipped (is_skipped others levy_id unit h remaining)
        (take_share others levy_id n h remaining table) (take-IsLimited n h remaining table e w)
    where
      skipped :
          (b : Bool) (r : Result ReserveError (Option Allocation × List LevyShare))
          → Ends r
          → Ends (if b then ok (none, table) else r)
      skipped true r k q c = rw (sym (ok-injective c)) w
      skipped false r k q c = k q c

  -- The loop.
  pub loop-IsLimited :
      (unit : Option String) (n : ℕ) (hs : List LevyShare) (remaining : ℕ) (table : List LevyShare)
      (r : List Allocation × ℕ × List LevyShare)
      → All (λ h. h.amount_cents ≡ limit h.id) hs
      → All (IsLimited limit) table
      → collect_from others levy_id unit n hs remaining table ≡ ok r
      → All (IsLimited limit) r.2
  unfolding collect_from
  loop-IsLimited unit n [] remaining table r e w c = rw (sym (ok-injective c)) w
  loop-IsLimited unit n (h ∷ hs) remaining table r e w c =
      let (p, first, more) = >>=-eq-ok (round others levy_id unit n h remaining table) _ c in
      let (q, rest, same) =
        >>=-eq-ok (collect_from others levy_id unit (n + 3) hs (remaining - amount_of p.0) p.1) _
          more in
      rw (sym (ok-injective same)) (
        loop-IsLimited unit (n + 3) hs (remaining - amount_of p.0) p.1 q e.1
          (round-IsLimited unit n h remaining table e.0 w p first) rest)

pub filter-All :
    {P Q : LevyShare → Type 0} (q : LevyShare → Bool) (xs : List LevyShare)
    → ((x : LevyShare) → P x → Q x)
    → All P xs
    → All Q (filter q xs)
filter-All q [] f h = tt
filter-All {P} {Q} q (x ∷ xs) f h =
    elim (q x) as (λ b. All Q (elim b [ true ↦ x ∷ filter q xs | false ↦ filter q xs ])) [
      | true ↦ (f x h.0, filter-All q xs f h.1)
      | false ↦ filter-All q xs f h.1
    ]

-- A collection takes no share beyond its amount, whatever other requests commit before its
-- transaction or to the shares between its statements, as long as they keep every share within its
-- amount and leave that amount alone.
pub collect_within :
    (limit : String → ℕ) (locale_compare : String → String → ℤ) (before : Store → Store)
    (others : ℕ → List LevyShare → List LevyShare) (s : Store) (building levy_id : String)
    (amount : ℤ) (user unit : Option String) (new_id : String)
    → ((x : Store) → All (IsLimited limit) x.shares → All (IsLimited limit) (before x).shares)
    → ((n : ℕ) (t : List LevyShare) → All (IsLimited limit) t → All (IsLimited limit) (others n t))
    → All (IsLimited limit) s.shares
    → All
        (IsLimited limit)
        (collect_levy locale_compare before others s building levy_id amount user unit
          new_id).1.shares
unfolding collect_levy
collect_within limit locale_compare before others s building levy_id amount user unit new_id calm
      safe h =
    if-Ends P (is_other_building user building) _ _ h λ _.
      if-Ends P (leb_ℤ amount (pos 0)) _ _ h λ _.
        fund-Ends P s building new_id _ h (λ p e. rw (fund-shares s building new_id p e) h)
          λ f t k.
            or_unchanged-Ends P (before t)
              (collect locale_compare before others (before t) f building levy_id (pos_part amount)
                unit)
              Action.levy_collected (λ x w. w) (calm t k)
              (λ u e.
                let (_, table, loop, added) =
                  collect-runs locale_compare before others (before t) u f building levy_id
                    (pos_part amount) unit e in
                rw
                  (add_contribution-shares _ u f building (pos_part amount) levy (some levy_id)
                    added)
                  (loop-IsLimited limit others levy_id safe unit 0
                    (shares_of locale_compare before others (before t) levy_id) (pos_part amount)
                    (before t).shares _
                    (sort-All _ (λ x. x.amount_cents ≡ limit x.id) _
                      (filter-All (λ x. str_eq x.levy_id levy_id) (before t).shares (λ x w. w.1)
                        (calm t k)))
                    (calm t k) loop))
  where
    P : Store → Type 0
    P x = All (IsLimited limit) x.shares
