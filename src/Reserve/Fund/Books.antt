-- ===== src/Reserve/Fund/Books.antt =====
-- Contributions and drawdowns, and the tables of apps/api/src/reserve/reserve.service.ts.
use koinoxrista.Prelude.{
  ℕ, ◌+◌, ◌≤◌, String, ◌≡◌, refl, sym, inl, inr, true, false, Option, none, some, ◌∷◌, arith, ltb,
  ◌==◌, Option-cases, Result, ok, err, ◌>>=◌, ok-injective, if-eq-ok, if-eq-err,
}
use koinoxrista.Prelude.Int.{ℤ, pos, pos_part, ltb_ℤ, leb_ℤ}
use koinoxrista.Prelude.Tables.{find, count, update_many, count_mono}
use koinoxrista.Prelude.Sums.{
  HasUniqueKeys, total-update_one, total-update_one_less, count-one, HasUniqueKeys-cons,
  HasUniqueKeys-update_many,
}
use text.Mathlib.Text.{◌==◌ as str_eq}
use koinoxrista.Fees.Charges.{is_other_building}
use koinoxrista.Reserve.Store.{Fund, Source, Store, ReserveError, Action, levy, manual, interest}
use koinoxrista.Reserve.Sound.{Ends, if-Ends, audit-IsSound, IsSound, held, contributed, collected}
use koinoxrista.Reserve.Fund.{
  get_or_create_fund, update_fund, audited, or_unchanged, open_fund, update_target, credit,
  add_contribution, debit, can_draw, claim_draw, draw, lacks_expense, drawdown,
}

-- A new fund is empty, and its id is new.
abbrev with_fund : Store → Fund → Store
with_fund s f = record s { funds = f ∷ s.funds }

with_fund-IsSound :
    (s : Store) (f : Fund)
    → IsSound s
    → f.balance_cents ≡ 0
    → count (λ g. str_eq g.id f.id) s.funds ≡ 0
    → IsSound (with_fund s f)
with_fund-IsSound s f h empty fresh = record {
  books = omega (arith, h.books);
  receivables = h.receivables;
  within = h.within;
  unique_funds = HasUniqueKeys-cons (λ g. g.id) f s.funds fresh h.unique_funds;
  unique_shares = h.unique_shares;
}

-- A fund that is found or made, with what holds after it.
pub fund-IsSound :
    (s : Store) (building new_id : String) (p : Fund × Store)
    → IsSound s
    → get_or_create_fund s building new_id ≡ ok p
    → IsSound p.1
unfolding get_or_create_fund
fund-IsSound s building new_id p h e =
    elim (Option-cases (find (λ f. str_eq f.building_id building) s.funds)) [
      | inl n ↦
          let (fresh, same) =
            if-eq-ok (count (λ g. str_eq g.id new_id) s.funds == 0) _ _
              (rw (get_or_create_fund, n) at e) in
          rw (sym same) (with_fund-IsSound s _ h refl (ground arith))
      | inr (g, m) ↦ rw (sym (ok-injective (rw (get_or_create_fund, m) at e))) h
    ]

abbrev with_funds : Store → String → (Fund → Fund) → Store
with_funds s id change = record s { funds = update_many (λ f. str_eq f.id id) change s.funds }

-- The fund is found or made without a change to the shares.
pub fund-shares :
    (s : Store) (building new_id : String) (p : Fund × Store)
    → get_or_create_fund s building new_id ≡ ok p
    → p.1.shares ≡ s.shares
unfolding get_or_create_fund
fund-shares s building new_id p e =
    elim (Option-cases (find (λ f. str_eq f.building_id building) s.funds)) [
      | inl n ↦
          let (_, same) =
            if-eq-ok (count (λ g. str_eq g.id new_id) s.funds == 0) _ _
              (rw (get_or_create_fund, n) at e) in
          rw (sym same) refl
      | inr (g, m) ↦ rw (sym (ok-injective (rw (get_or_create_fund, m) at e))) refl
    ]

-- An update by id that returns has changed one row.
pub update_fund-found :
    (s t : Store) (id : String) (change : Fund → Fund)
    → HasUniqueKeys (λ f. f.id) s.funds
    → update_fund s id change ≡ ok t
    → (count (λ f. str_eq f.id id) s.funds ≡ 1) × (with_funds s id change ≡ t)
unfolding update_fund
update_fund-found s t id change h e =
    let (there, same) = if-eq-err (count (λ f. str_eq f.id id) s.funds == 0) _ _ e in
    (count-one (λ f. f.id) s.funds id h there, ok-injective same)

pub add_contribution-shares :
    (s t : Store) (f : Fund) (building : String) (n : ℕ) (source : Source) (levy_id : Option String)
    → add_contribution s f building n source levy_id ≡ ok t
    → t.shares ≡ s.shares
unfolding add_contribution update_fund
add_contribution-shares s t f building n source levy_id e =
    let (_, same) = if-eq-err (count (λ g. str_eq g.id f.id) s.funds == 0) _ _ e in
    rw (sym (ok-injective same)) refl

-- What a contribution adds to the fund and to the contributions.
pub add_contribution-IsSound :
    (s t : Store) (f : Fund) (building : String) (n : ℕ) (source : Source) (levy_id : Option String)
    → HasUniqueKeys (λ g. g.id) s.funds
    → add_contribution s f building n source levy_id ≡ ok t
    → (held t ≡ held s + n)
      × (contributed t ≡ contributed s + n)
      × (collected t ≡ collected s + (elim source [ levy ↦ n | manual ↦ 0 | interest ↦ 0 ]))
      × (t.drawdowns ≡ s.drawdowns)
      × (t.shares ≡ s.shares)
      × (t.levies ≡ s.levies)
      × HasUniqueKeys (λ g. g.id) t.funds
unfolding add_contribution
add_contribution-IsSound s t f building n source levy_id h e =
    let (one, same) = update_fund-found _ t f.id (credit n) h e in
    rw (sym same) (
      total-update_one (λ g. g.balance_cents) (λ g. str_eq g.id f.id) (credit n) n s.funds one
          (λ g _. refl),
      omega arith,
      omega arith,
      refl,
      refl,
      refl,
      HasUniqueKeys-update_many (λ g. g.id) (λ g. str_eq g.id f.id) (credit n) s.funds (λ g. refl)
          h,
    )

can_draw-id : (id : String) (n : ℕ) (g : Fund) → can_draw id n g ≡ true → str_eq g.id id ≡ true
can_draw-id id n g h = ground arith

debit-lem :
    (id : String) (n : ℕ) (g : Fund)
    → can_draw id n g ≡ true
    → (debit n g).balance_cents + n ≡ g.balance_cents
debit-lem id n g h = ground arith

-- An update that is made has taken the amount from one fund, which held it.
claim_draw-IsSound :
    (s t : Store) (f : Fund) (building : String) (n : ℕ) (reason : String)
    (expense_id : Option String)
    → IsSound s
    → claim_draw s f building n reason expense_id ≡ ok t
    → IsSound t
unfolding claim_draw
claim_draw-IsSound s t f building n reason expense_id h e =
    let (there, same) = if-eq-err (count (can_draw f.id n) s.funds == 0) _ _ e in
    let one : count (can_draw f.id n) s.funds ≡ 1 = omega (
      arith,
      h.unique_funds f.id,
      count_mono (can_draw f.id n) (λ g. str_eq g.id f.id) s.funds (λ g. can_draw-id f.id n g),
      positive (count (can_draw f.id n) s.funds) there,
    ) in
    rw (sym (ok-injective same)) (record {
      books = omega (
        arith,
        h.books,
        total-update_one_less (λ g. g.balance_cents) (can_draw f.id n) (debit n) n s.funds one
            (λ g k. debit-lem f.id n g k),
      );
      receivables = h.receivables;
      within = h.within;
      unique_funds =
          HasUniqueKeys-update_many (λ g. g.id) (can_draw f.id n) (debit n) s.funds (λ g. refl)
            h.unique_funds;
      unique_shares = h.unique_shares;
    })
  where
    positive : (c : ℕ) → (c == 0) ≡ false → 1 ≤ c
    positive c h = ground arith

-- A transaction that returns with a property, or leaves the tables that it found.
pub or_unchanged-Ends :
    (P : Store → Type 0) (s : Store) (r : Result ReserveError Store) (a : Action)
    → ((x : Store) → P x → P (audited a x))
    → P s
    → ((t : Store) → r ≡ ok t → P t)
    → Ends P (or_unchanged s (r >>= λ t. ok (audited a t)))
or_unchanged-Ends P s (err e) a f h k = h
or_unchanged-Ends P s (ok t) a f h k = f t (k t refl)

-- A request that goes on with the fund of the building.
pub fund-Ends :
    (P : Store → Type 0) (s : Store) (building new_id : String)
    (next : Fund → Store → Result ReserveError (Unit {0}) × Store)
    → P s
    → ((p : Fund × Store) → get_or_create_fund s building new_id ≡ ok p → P p.1)
    → ((f : Fund) (t : Store) → P t → Ends P (next f t))
    → Ends {A = Result ReserveError (Unit {0})} P
        (elim (get_or_create_fund s building new_id) [ err e ↦ (err e, s) | ok (f, t) ↦ next f t ])
fund-Ends P s building new_id next h m k = go (get_or_create_fund s building new_id) m
  where
    go :
        (r : Result ReserveError (Fund × Store))
        → ((p : Fund × Store) → r ≡ ok p → P p.1)
        → Ends {A = Result ReserveError (Unit {0})} P
            (elim r [ err e ↦ (err e, s) | ok (f, t) ↦ next f t ])
    go (err e) m = h
    go (ok (f, t)) m = k f t (m (f, t) refl)

-- A lookup that may fail, and goes on with what it finds.
pub find-Ends :
    {A : Type 0} (P : Store → Type 0) (found : Option A)
    (missing : Result ReserveError (Unit {0}) × Store)
    (next : A → Result ReserveError (Unit {0}) × Store)
    → Ends P missing
    → ((x : A) → found ≡ some x → Ends P (next x))
    → Ends {A = Result ReserveError (Unit {0})} P (elim found [ none ↦ missing | some x ↦ next x ])
find-Ends P none missing next h k = h
find-Ends P (some x) missing next h k = k x refl

module _ (others during : Store → Store) (safe : (x : Store) → IsSound x → IsSound (others x))
    (during_safe : (x : Store) → IsSound x → IsSound (during x)) where
  draw-IsSound :
      (s : Store) (f : Fund) (building : String) (n : ℕ) (reason : String)
      (expense_id : Option String)
      → IsSound s
      → IsSound (draw during s f building n reason expense_id).1
  unfolding draw
  draw-IsSound s f building n reason expense_id h =
      find-Ends IsSound (find (λ g. str_eq g.id f.id) s.funds) _ _ h λ g _.
        if-Ends IsSound (ltb g.balance_cents n) _ _ h λ _.
          or_unchanged-Ends IsSound (during s)
            (claim_draw (during s) f building n reason expense_id) Action.drawdown_created
            (λ x. audit-IsSound x Action.drawdown_created) (during_safe s h)
            (λ u. claim_draw-IsSound (during s) u f building n reason expense_id (during_safe s h))

  -- A drawdown keeps the tables sound, whatever sound changes others commit before its transaction
  -- and between its read of the fund and the update.
  pub drawdown-IsSound :
      (s : Store) (building : String) (amount : ℤ) (reason : String)
      (expense_id user : Option String) (new_id : String)
      → IsSound s
      → IsSound (drawdown others during s building amount reason expense_id user new_id).1
  unfolding drawdown
  drawdown-IsSound s building amount reason expense_id user new_id h =
      if-Ends IsSound (is_other_building user building) _ _ h λ _.
        if-Ends IsSound (leb_ℤ amount (pos 0)) _ _ h λ _.
          if-Ends IsSound (lacks_expense s building expense_id) _ _ h λ _.
            fund-Ends IsSound s building new_id _ h (λ p. fund-IsSound s building new_id p h)
              λ f t k. if-Ends IsSound (ltb f.balance_cents (pos_part amount)) _ _ k λ _.
                draw-IsSound (others t) f building (pos_part amount) reason expense_id (safe t k)

set_target-IsSound :
    (s t : Store) (id : String) (n : ℕ)
    → IsSound s
    → update_fund s id (λ g. record g { target_cents = n }) ≡ ok t
    → IsSound t
set_target-IsSound s t id n h e =
    let (one, same) =
      update_fund-found s t id (λ g. record g { target_cents = n }) h.unique_funds e in
    rw (sym same) (record {
      books = omega (
        arith,
        h.books,
        total-update_one (λ g. g.balance_cents) (λ g. str_eq g.id id)
            (λ g. record g { target_cents = n }) 0 s.funds one (λ g _. omega arith),
      );
      receivables = h.receivables;
      within = h.within;
      unique_funds =
          HasUniqueKeys-update_many (λ g. g.id) (λ g. str_eq g.id id)
            (λ g. record g { target_cents = n }) s.funds (λ g. refl) h.unique_funds;
      unique_shares = h.unique_shares;
    })

pub update_target-IsSound :
    (s : Store) (building : String) (target : ℤ) (user : Option String) (new_id : String)
    → IsSound s
    → IsSound (update_target s building target user new_id).1
unfolding update_target
update_target-IsSound s building target user new_id h =
    if-Ends IsSound (is_other_building user building) _ _ h λ _.
      if-Ends IsSound (ltb_ℤ target (pos 0)) _ _ h λ _.
        fund-Ends IsSound s building new_id _ h (λ p. fund-IsSound s building new_id p h)
          λ f t k.
            or_unchanged-Ends IsSound t
              (update_fund t f.id (λ g. record g { target_cents = pos_part target }))
              Action.target_updated (λ x. audit-IsSound x Action.target_updated) k
              (λ u. set_target-IsSound t u f.id (pos_part target) k)

pub open_fund-IsSound :
    (s : Store) (building : String) (user : Option String) (new_id : String)
    → IsSound s
    → IsSound (open_fund s building user new_id).1
unfolding open_fund
open_fund-IsSound s building user new_id h =
    if-Ends IsSound (is_other_building user building) _ _ h λ _.
      fund-Ends IsSound s building new_id _ h (λ p. fund-IsSound s building new_id p h) λ f t k. k
