-- ===== src/Reserve/Collect/Books.antt =====
-- Collections and contributions one at a time: apps/api/src/reserve/reserve.service.ts.
use koinoxrista.Prelude.{
  ℕ, ◌+◌, ◌-◌, ◌≤◌, min, String, ◌≡◌, refl, sym, ◌∙◌, inl, inr, Bool, true, false, not, Option,
  none, some, List, [], ◌∷◌, arith, ◌==◌, if◌then◌else◌, Bool-cases, Option-cases, All, Result, ok,
  err, >>=-eq-ok, ok-injective, if-eq-err,
}
use koinoxrista.Prelude.Int.{ℤ, pos, pos_part, leb_ℤ}
use koinoxrista.Prelude.Sort.{sort-All}
use koinoxrista.Prelude.Tables.{find, count, count_mono}
use koinoxrista.Prelude.Sums.{
  HasUniqueKeys, total-update_one, find-own_key, HasUniqueKeys-update_many,
}
use text.Mathlib.Text.{◌==◌ as str_eq}
use koinoxrista.Fees.Charges.{is_other_building}
use koinoxrista.Reserve.Store.{
  Fund, Source, LevyShare, Store, ReserveError, Action, manual, interest, levy, is_unset,
  text_or_empty,
}
use koinoxrista.Reserve.Fund.{add_contribution}
use koinoxrista.Reserve.Collect.{
  Allocation, amount_of, can_pay, pay, outstanding, pay_share, retry_share, take_share, is_skipped,
  round, collect_from, shares_of, collect, collect_levy, contribute, is_from_levy,
}
use koinoxrista.Reserve.Sound.{audit-IsSound, IsSound, if-Ends, IsWithin, collected, paid}
use koinoxrista.Reserve.Fund.Books.{
  fund-IsSound, fund-Ends, or_unchanged-Ends, add_contribution-IsSound,
}
use koinoxrista.Reserve.Collect.Runs.{collect-runs}
use koinoxrista.Reserve.Collect.Within.{IsLimited, loop-IsLimited, filter-All}

abbrev pub Unique : List LevyShare → Type 0
Unique = HasUniqueKeys (λ h. h.id)

-- What was taken is paid, within what was asked for.
abbrev pub Pays : ℕ → List LevyShare → Option Allocation × List LevyShare → Type 0
Pays remaining table p =
    (paid p.1 ≡ paid table + amount_of p.0) × (amount_of p.0 ≤ remaining) × Unique p.1

can_pay-id :
    (id levy_id : String) (limit : ℕ) (h : LevyShare)
    → can_pay id levy_id limit h ≡ true
    → str_eq h.id id ≡ true
can_pay-id id levy_id limit h e = ground arith

pay_share-Pays :
    (levy_id : String) (h : LevyShare) (n remaining : ℕ) (table : List LevyShare)
    (p : Option Allocation × List LevyShare)
    → n ≤ remaining
    → Unique table
    → pay_share levy_id h n table ≡ ok p
    → Pays remaining table p
unfolding pay_share
pay_share-Pays levy_id h n remaining table p small u c =
    let can : LevyShare → Bool = can_pay h.id levy_id (h.amount_cents - n) in
    let (there, same) = if-eq-err (count can table == 0) _ _ c in
    let one : count can table ≡ 1 =
      some_counts (count can table) (count (λ x. str_eq x.id h.id) table) there
        (count_mono can (λ x. str_eq x.id h.id) table
          (λ x. can_pay-id h.id levy_id (h.amount_cents - n) x))
        (u h.id) in
    rw (sym (ok-injective same)) (
      total-update_one (λ x. x.paid_cents) can (pay n) n table one (λ x _. refl),
      small,
      HasUniqueKeys-update_many (λ x. x.id) can (pay n) table (λ x. refl) u,
    )
  where
    some_counts : (a b : ℕ) → (a == 0) ≡ false → a ≤ b → b ≤ 1 → a ≡ 1
    some_counts a b e k l = ground arith

abbrev pub alone : ℕ → List LevyShare → List LevyShare
alone n t = t

module _ (levy_id : String) where
  either-Pays :
      (remaining : ℕ) (table : List LevyShare) (b : Bool)
      (x y : Result ReserveError (Option Allocation × List LevyShare))
      → ((p : Option Allocation × List LevyShare) → x ≡ ok p → Pays remaining table p)
      → ((p : Option Allocation × List LevyShare) → y ≡ ok p → Pays remaining table p)
      → (p : Option Allocation × List LevyShare) → (if b then x else y) ≡ ok p
      → Pays remaining table p
  either-Pays remaining table true x y k l = k
  either-Pays remaining table false x y k l = l

  none-Pays :
      (remaining : ℕ) (table : List LevyShare)
      → Unique table
      → (p : Option Allocation × List LevyShare)
      → ◌≡◌ {A = Result ReserveError (Option Allocation × List LevyShare)} (ok (none, table)) (ok p)
      → Pays remaining table p
  none-Pays remaining table u p c = rw (sym (ok-injective c)) (omega arith, omega arith, u)

  retry-Pays :
      (n : ℕ) (id : String) (remaining : ℕ) (table : List LevyShare)
      → Unique table
      → (p : Option Allocation × List LevyShare)
      → retry_share alone levy_id n id remaining table ≡ ok p
      → Pays remaining table p
  unfolding retry_share
  retry-Pays n id remaining table u p c = elim (Option-cases (find (λ h. str_eq h.id id) table)) [
    | inl e ↦ absurd (no_share (rw (retry_share, e) at c))
    | inr (x, e) ↦
        either-Pays remaining table (outstanding x == 0) _ _ (none-Pays remaining table u)
          (λ q k.
            pay_share-Pays levy_id x (min remaining (outstanding x)) remaining table q (omega arith)
              u k)
          p (rw (retry_share, e) at c)
  ]
    where
      no_share :
          {e : ReserveError}
          → ◌≡◌ {A = Result ReserveError (Option Allocation × List LevyShare)} (err e) (ok p)
          → ⊥
      no_share h = cc

  round-Pays :
      (unit : Option String) (n : ℕ) (h : LevyShare) (remaining : ℕ) (table : List LevyShare)
      → Unique table
      → (p : Option Allocation × List LevyShare)
      → round alone levy_id unit n h remaining table ≡ ok p
      → Pays remaining table p
  unfolding round take_share
  round-Pays unit n h remaining table u =
      let taken = min remaining (outstanding h) in
      either-Pays remaining table (is_skipped alone levy_id unit h remaining) _ _
        (none-Pays remaining table u)
        (either-Pays remaining table
          (count (can_pay h.id levy_id (h.amount_cents - taken)) table == 0) _ _
          (retry-Pays (n + 1) h.id remaining table u)
          (λ q k. pay_share-Pays levy_id h taken remaining table q (omega arith) u k))

  -- The loop pays what no longer remains.
  loop-Pays :
      (unit : Option String) (n : ℕ) (hs : List LevyShare) (remaining : ℕ) (table : List LevyShare)
      (r : List Allocation × ℕ × List LevyShare)
      → Unique table
      → collect_from alone levy_id unit n hs remaining table ≡ ok r
      → (paid r.2 + r.1 ≡ paid table + remaining) × Unique r.2
  unfolding collect_from
  loop-Pays unit n [] remaining table r u c = rw (sym (ok-injective c)) (refl, u)
  loop-Pays unit n (h ∷ hs) remaining table r u c =
      let (p, first, more) = >>=-eq-ok (round alone levy_id unit n h remaining table) _ c in
      let (q, rest, same) =
        >>=-eq-ok (collect_from alone levy_id unit (n + 3) hs (remaining - amount_of p.0) p.1) _
          more in
      let (gain, small, u') = round-Pays unit n h remaining table u p first in
      let (later, u'') = loop-Pays unit (n + 3) hs (remaining - amount_of p.0) p.1 q u' rest in
      rw (sym (ok-injective same)) (omega (arith, gain, small, later), u'')

-- The amount of the share with the id.
abbrev limit_in : List LevyShare → String → ℕ
limit_in table id = elim (find (λ h. str_eq h.id id) table) [ none ↦ 0 | some h ↦ h.amount_cents ]

limited :
    (table hs : List LevyShare)
    → All (λ h. find (λ g. str_eq g.id h.id) table ≡ some h) hs
    → All IsWithin hs
    → All (IsLimited (limit_in table)) hs
limited table [] f w = tt
limited table (h ∷ hs) f w = ((w.0, rw (limit_in, f.0) refl), limited table hs f.1 w.1)

amounts_limited :
    (table hs : List LevyShare)
    → All (IsLimited (limit_in table)) hs
    → All (λ h. h.amount_cents ≡ limit_in table h.id) hs
amounts_limited table [] f = tt
amounts_limited table (h ∷ hs) f = (f.0.1, amounts_limited table hs f.1)

IsWithin-limit : (table hs : List LevyShare) → All (IsLimited (limit_in table)) hs → All IsWithin hs
IsWithin-limit table [] f = tt
IsWithin-limit table (h ∷ hs) f = (f.0.0, IsWithin-limit table hs f.1)

module _ (locale_compare : String → String → ℤ) (before : Store → Store) where
  collect-IsSound :
      (s u : Store) (f : Fund) (building levy_id : String) (n : ℕ) (unit : Option String)
      → IsSound s
      → collect locale_compare before alone s f building levy_id n unit ≡ ok u
      → IsSound u
  collect-IsSound s u f building levy_id n unit h e =
      let (_, table, loop, added) =
        collect-runs locale_compare before alone s u f building levy_id n unit e in
      let asked = shares_of locale_compare before alone s levy_id in
      let (gain, unique) = loop-Pays levy_id unit 0 asked n s.shares _ h.unique_shares loop in
      let (fund, all_in, for_shares, same_draws, same_shares, _, unique_funds) =
        add_contribution-IsSound (record s { shares = table }) u f building n levy (some levy_id)
          h.unique_funds added in
      let every =
        limited s.shares s.shares (find-own_key (λ x. x.id) s.shares h.unique_shares) h.within in
      let limits =
        loop-IsLimited (limit_in s.shares) alone levy_id (λ k t w. w) unit 0 asked n s.shares _
          (sort-All _ (λ x. x.amount_cents ≡ limit_in s.shares x.id) _
            (filter-All (λ x. str_eq x.levy_id levy_id) s.shares (λ x w. w.1) every))
          every loop in
      record {
        books = rw same_draws (omega (arith, fund, all_in, h.books));
        receivables = rw same_shares (omega (arith, for_shares, gain, h.receivables));
        within = rw same_shares (IsWithin-limit s.shares table limits);
        unique_funds = unique_funds;
        unique_shares = rw same_shares unique;
      }

  module _ (safe : (x : Store) → IsSound x → IsSound (before x)) where
    -- A collection keeps the tables sound.
    pub collect_levy-IsSound :
        (s : Store) (building levy_id : String) (amount : ℤ) (user unit : Option String)
        (new_id : String)
        → IsSound s
        → IsSound
            (collect_levy locale_compare before alone s building levy_id amount user unit new_id).1
    unfolding collect_levy
    collect_levy-IsSound s building levy_id amount user unit new_id h =
        if-Ends IsSound (is_other_building user building) _ _ h λ _.
          if-Ends IsSound (leb_ℤ amount (pos 0)) _ _ h λ _.
            fund-Ends IsSound s building new_id _ h (λ p. fund-IsSound s building new_id p h)
              λ f t k.
                or_unchanged-Ends IsSound (before t)
                  (collect locale_compare before alone (before t) f building levy_id
                    (pos_part amount) unit)
                  Action.levy_collected (λ x. audit-IsSound x Action.levy_collected) (safe t k)
                  (λ u.
                    collect-IsSound (before t) u f building levy_id (pos_part amount) unit
                      (safe t k))

    given-IsSound :
        (s u : Store) (f : Fund) (building : String) (n : ℕ) (source : Source)
        → is_from_levy locale_compare before alone source ≡ false
        → IsSound s
        → add_contribution s f building n source none ≡ ok u
        → IsSound u
    given-IsSound s u f building n source e h added =
        let (fund, all_in, for_shares, same_draws, same_shares, _, unique_funds) =
          add_contribution-IsSound s u f building n source none h.unique_funds added in
        record {
          books = rw same_draws (omega (arith, fund, all_in, h.books));
          receivables =
              rw same_shares (for_shares ∙ (nothing source n (collected s) e ∙ h.receivables));
          within = rw same_shares h.within;
          unique_funds = unique_funds;
          unique_shares = rw same_shares h.unique_shares;
        }
      where
        nothing :
            (source : Source) (n c : ℕ)
            → is_from_levy locale_compare before alone source ≡ false
            → c + (elim source [ levy ↦ n | manual ↦ 0 | interest ↦ 0 ]) ≡ c
        nothing levy n c e = absurd (no_levy e)
          where
            no_levy : true ≡ false → ⊥
            no_levy x = cc
        nothing manual n c e = omega arith
        nothing interest n c e = omega arith

    -- A contribution keeps the tables sound, whatever sound changes others commit before its
    -- transaction.
    pub contribute-IsSound :
        (s : Store) (building : String) (amount : ℤ) (source : Source)
        (levy_id user unit : Option String) (new_id : String)
        → IsSound s
        → IsSound
            (contribute locale_compare before alone s building amount source levy_id user unit
              new_id).1
    unfolding contribute
    contribute-IsSound s building amount source levy_id user unit new_id h =
        if-Ends IsSound (is_other_building user building) _ _ h λ _.
          if-Ends IsSound (leb_ℤ amount (pos 0)) _ _ h λ _.
            elim (Bool-cases (is_from_levy locale_compare before alone source)) [
              | inl e ↦
                  rw (contribute, e)
                    (if-Ends IsSound (is_unset levy_id) _ _ h λ _.
                      collect_levy-IsSound s building (text_or_empty levy_id) amount user unit
                        new_id h)
              | inr e ↦
                  rw (contribute, e)
                    (if-Ends IsSound (not (is_unset levy_id)) _ _ h λ _.
                      fund-Ends IsSound s building new_id _ h
                        (λ p. fund-IsSound s building new_id p h)
                        λ f t k.
                          or_unchanged-Ends IsSound (before t)
                            (add_contribution (before t) f building (pos_part amount) source none)
                            Action.contribution_created
                            (λ x. audit-IsSound x Action.contribution_created) (safe t k)
                            (λ u.
                              given-IsSound (before t) u f building (pos_part amount) source e
                                (safe t k)))
            ]
