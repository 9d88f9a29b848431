-- ===== src/Treasury/Journal.antt =====
-- The balances of apps/api/src/treasury/treasury.service.ts against a replay of the entries.
use koinoxrista.Prelude.{
  ℕ, ◌+◌, ◌≤◌, String, ◌≡◌, refl, sym, ap, ◌∙◌, inl, inr, Bool, true, false, not, ◌&&◌, Option,
  none, some, List, [], ◌∷◌, arith, ◌==◌, if◌then◌else◌, ==_iff, Bool-cases, Option-cases, All,
  Result, ok, err, ◌>>◌, throw_if, >>=-eq-ok, ok-injective, if-eq-ok, if-eq-err,
}
use koinoxrista.Prelude.Int.{ℤ, pos, pos_part, neg_part, ◌+ℤ◌, ltb_ℤ}
use koinoxrista.Prelude.Tables.{find, count, update_many, count_mono}
use koinoxrista.Prelude.Sums.{
  HasUniqueKeys, count-update_many, count-only, str_eq_comm, HasUniqueKeys-cons,
  HasUniqueKeys-update_many,
}
use text.Mathlib.Text.{◌==◌ as str_eq}
use text.Mathlib.TextEquality.{eq_iff}
use mathlib.Core.Path.{subst}
use koinoxrista.Fees.Charges.{is_other_building}
use koinoxrista.Treasury.Ledger.{
  AccountType, Direction, incoming, outgoing, Method, Account, Entry, EntryInput, Action, Store,
  TreasuryError, is_account, has_reference, eq_ℤ, is_incoming, check_entry, same_money, credit,
  create_account, new_entry, insert_entry, post_entry, finish, create_entry,
}

-- What the entries of an account add up to.
unfoldable pub posted : String → List Entry → ℤ
posted id [] = pos 0
posted id (e ∷ es) = if str_eq e.account_id id then posted id es +ℤ e.amount_cents else posted id es

-- An entry goes the way that its sign says.
abbrev pub Goes : Direction → ℤ → Type 0
Goes incoming n = neg_part n ≡ 0
Goes outgoing n = pos_part n ≡ 0

abbrev pub IsSigned : Entry → Type 0
IsSigned e = Goes e.direction e.amount_cents

abbrev pub account_rows : String → Store → ℕ
account_rows id s = count (λ a. str_eq a.id id) s.accounts

-- The balance of every account is what its entries add up to.
pub record IsBooked (s : Store) : Type 0 where
  pub balanced : All (λ a. a.balance_cents ≡ posted a.id s.entries) s.accounts
  pub unique : HasUniqueKeys (λ a. a.id) s.accounts
  pub known : All (λ e. (account_rows e.account_id s == 0) ≡ false) s.entries
  pub signed : All IsSigned s.entries

audit-IsBooked :
    (s : Store) (a : Action) → IsBooked s → IsBooked (record s { audits = a ∷ s.audits })
audit-IsBooked s a h = record {
  balanced = h.balanced;
  unique = h.unique;
  known = h.known;
  signed = h.signed;
}

-- An account that no entry names has nothing posted.
posted-unknown :
    (s : Store) (es : List Entry) (id : String)
    → account_rows id s ≡ 0
    → All (λ e. (account_rows e.account_id s == 0) ≡ false) es
    → posted id es ≡ pos 0
unfolding posted
posted-unknown s [] id h k = refl
posted-unknown s (e ∷ es) id h k = elim (Bool-cases (str_eq e.account_id id)) [
  | inl t ↦ absurd (clash h (rw ((eq_iff e.account_id id).0 t) at k.0))
  | inr f ↦ rw f (posted-unknown s es id h k.1)
]
  where
    clash : account_rows id s ≡ 0 → (account_rows id s == 0) ≡ false → ⊥
    clash e f = ground arith

still_known :
    (s t : Store) (es : List Entry)
    → ((id : String) → (account_rows id s == 0) ≡ false → (account_rows id t == 0) ≡ false)
    → All (λ e. (account_rows e.account_id s == 0) ≡ false) es
    → All (λ e. (account_rows e.account_id t == 0) ≡ false) es
still_known s t [] k h = tt
still_known s t (e ∷ es) k h = (k e.account_id h.0, still_known s t es k h.1)

open_account-IsBooked :
    (s : Store) (a : Account)
    → IsBooked s
    → a.balance_cents ≡ pos 0
    → account_rows a.id s ≡ 0
    → IsBooked (record s { accounts = a ∷ s.accounts })
open_account-IsBooked s a h empty fresh = record {
  balanced = (empty ∙ sym (posted-unknown s s.entries a.id fresh h.known), h.balanced);
  unique = HasUniqueKeys-cons (λ b. b.id) a s.accounts fresh h.unique;
  known =
      still_known s (record s { accounts = a ∷ s.accounts }) s.entries
        (λ id. more (str_eq a.id id) (account_rows id s)) h.known;
  signed = h.signed;
}
  where
    more : (b : Bool) (n : ℕ) → (n == 0) ≡ false → ((if b then 1 else 0) + n == 0) ≡ false
    more b n k = ground arith

credit_row :
    (e : Entry) (es : List Entry) (a : Account) (b : Bool)
    → str_eq a.id e.account_id ≡ b
    → a.balance_cents ≡ posted a.id es
    → (if b then credit e.amount_cents a else a).balance_cents
      ≡ posted (if b then credit e.amount_cents a else a).id (e ∷ es)
unfolding posted
credit_row e es a true t h = rw (str_eq_comm e.account_id a.id, t) (ap (λ b. b +ℤ e.amount_cents) h)
credit_row e es a false f h = rw (str_eq_comm e.account_id a.id, f) h

credit_one :
    (building : String) (e : Entry) (es : List Entry) (as' : List Account)
    → All (λ a. str_eq a.id e.account_id ≡ true → is_account e.account_id building a ≡ true) as'
    → All (λ a. a.balance_cents ≡ posted a.id es) as'
    → All
        (λ a. a.balance_cents ≡ posted a.id (e ∷ es))
        (update_many (is_account e.account_id building) (credit e.amount_cents) as')
credit_one building e es [] only h = tt
credit_one building e es (a ∷ as') only h = (
  credit_row e es a (is_account e.account_id building a)
      (agree (str_eq a.id e.account_id) (str_eq a.building_id building) only.0) h.0,
  credit_one building e es as' only.1 h.1,
)
  where
    agree : (b c : Bool) → (b ≡ true → b && c ≡ true) → b ≡ b && c
    agree true c h = sym (h refl)
    agree false c h = refl

account_id :
    (id building : String) (a : Account) → is_account id building a ≡ true → str_eq a.id id ≡ true
account_id id building a h = ground arith

insert_entry-IsBooked :
    (trim : String → String) (s : Store) (building : String) (e : Entry) (p : Entry × Bool × Store)
    → IsBooked s
    → IsSigned e
    → insert_entry trim s building e ≡ ok p
    → IsBooked p.2
unfolding insert_entry
insert_entry-IsBooked trim s building e p h signed run =
    let mine = is_account e.account_id building in
    let (there, same) = if-eq-err (count mine s.accounts == 0) _ _ run in
    let only =
      count-only mine (λ a. str_eq a.id e.account_id) s.accounts (account_id e.account_id building)
        (h.unique e.account_id) there in
    let kept = λ (id : String).
      count-update_many (λ a. str_eq a.id id) mine (credit e.amount_cents) s.accounts (λ a. refl) in
    rw (sym (ok-injective same)) (record {
      balanced = credit_one building e s.entries s.accounts only h.balanced;
      unique =
          HasUniqueKeys-update_many (λ a. a.id) mine (credit e.amount_cents) s.accounts (λ a. refl)
            h.unique;
      known = (
        rw (kept e.account_id) (
            named (count mine s.accounts) (account_rows e.account_id s) there (
              count_mono mine (λ a. str_eq a.id e.account_id) s.accounts
                (account_id e.account_id building))),
        still_known s
            (record s {
              accounts = update_many mine (credit e.amount_cents) s.accounts;
              entries = e ∷ s.entries;
            })
            s.entries (λ id k. rw (kept id) k) h.known,
      );
      signed = (signed, h.signed);
    })
  where
    named : (n m : ℕ) → (n == 0) ≡ false → n ≤ m → (m == 0) ≡ false
    named n m h k = ground arith

-- An entry that passed the checks goes the way that its sign says.
check_entry-IsSigned :
    (trim : String → String) (i : EntryInput) (building reference month : String)
    (p : Direction × Method)
    → check_entry i ≡ ok p
    → IsSigned (new_entry trim building i p.0 p.1 reference month)
unfolding check_entry
check_entry-IsSigned trim i building reference month p h = elim (Option-cases i.direction) [
  | inl e ↦ absurd (refused (rw (check_entry, e) at h))
  | inr (d, e) ↦ elim (Option-cases i.method) [
    | inl k ↦ absurd (refused (rw (check_entry, e, k) at h))
    | inr (m, k) ↦
        let bad = eq_ℤ i.amount_cents (pos 0) in
        let (_, checked, same) =
          >>=-eq-ok
            (throw_if bad TreasuryError.bad_amount
              >> throw_if (is_incoming d && ltb_ℤ i.amount_cents (pos 0)) TreasuryError.negative_in
              >> throw_if (not (is_incoming d) && ltb_ℤ (pos 0) i.amount_cents)
                  TreasuryError.positive_out)
            _ (rw (check_entry, e, k) at h) in
        let (_, first, out_way) =
          >>=-eq-ok
            (throw_if bad TreasuryError.bad_amount
              >> throw_if (is_incoming d && ltb_ℤ i.amount_cents (pos 0)) TreasuryError.negative_in)
            _ checked in
        let (_, _, in_way) = >>=-eq-ok (throw_if bad TreasuryError.bad_amount) _ first in
        subst
          (λ (x : Direction × Method). IsSigned (new_entry trim building i x.0 x.1 reference month))
          (ok-injective same)
          (right_way d i.amount_cents (no_throw _ _ _ in_way) (no_throw _ _ _ out_way))
  ]
]
  where
    refused :
        {x : TreasuryError} → ◌≡◌ {A = Result TreasuryError (Direction × Method)} (err x) (ok p) → ⊥
    refused k = cc

    no_throw : (b : Bool) (e : TreasuryError) (u : Unit {0}) → throw_if b e ≡ ok u → b ≡ false
    no_throw true e u k = cc
    no_throw false e u k = refl

    right_way :
        (d : Direction) (n : ℤ)
        → (is_incoming d && ltb_ℤ n (pos 0)) ≡ false
        → (not (is_incoming d) && ltb_ℤ (pos 0) n) ≡ false
        → Goes d n
    right_way incoming n a b = ground arith
    right_way outgoing n a b = ground arith

-- The tables that a request leaves.
abbrev Ends : {A : Type 0} → (Store → Type 0) → A × Store → Type 0
Ends P p = P p.1

if-Ends :
    {A : Type 0} (P : Store → Type 0) (b : Bool) (x y : A × Store)
    → Ends P x
    → (b ≡ false → Ends P y)
    → Ends P (if b then x else y)
if-Ends P true x y h k = h
if-Ends P false x y h k = k refl

create_account-IsBooked :
    (trim : String → String) (s : Store) (building name : String) (kind : Option AccountType)
    (user : Option String) (new_id : String)
    → IsBooked s
    → IsBooked (create_account trim s building name kind user new_id).1
unfolding create_account
create_account-IsBooked trim s building name none user new_id h =
    if-Ends IsBooked (is_other_building user building) _ _ h λ _. h
create_account-IsBooked trim s building name (some k) user new_id h =
    if-Ends IsBooked (is_other_building user building) _ _ h λ _.
      added (count (λ b. str_eq b.id new_id) s.accounts == 0)
        (count (λ b. str_eq b.building_id building && str_eq b.name (trim name)) s.accounts == 0)
        (λ e. (==_iff (account_rows new_id s) 0).0 e)
  where
    a : Account
    a = record {
      id = new_id;
      building_id = building;
      name = trim name;
      kind = k;
      balance_cents = pos 0;
    }

    added :
        (free_id free_name : Bool)
        → (free_id ≡ true → account_rows new_id s ≡ 0)
        → Ends {A = Result TreasuryError (Unit {0})} IsBooked (
            if free_id && free_name
            then (
              ok tt,
              record s { accounts = a ∷ s.accounts; audits = Action.account_created ∷ s.audits },
            )
            else (err TreasuryError.name_taken, s))
    added true true e =
        audit-IsBooked _ Action.account_created (open_account-IsBooked s a h refl (e refl))
    added true false e = h
    added false free_name e = h

post_entry-IsBooked :
    (trim : String → String) (s : Store) (building : String) (i : EntryInput) (d : Direction)
    (m : Method) (month : String) (p : Entry × Bool × Store)
    → IsBooked s
    → check_entry i ≡ ok (d, m)
    → post_entry trim s building i d m month ≡ ok p
    → IsBooked p.2
unfolding post_entry
post_entry-IsBooked trim s building i d m month p h checked run =
    posting
      (if str_eq (trim i.reference) ""
        then none
        else find (has_reference building i.account_id (trim i.reference)) s.entries)
      run
  where
    posting :
        (found : Option Entry)
        → ◌≡◌ {A = Result TreasuryError (Entry × Bool × Store)}
            (elim found [
              | none ↦
                  insert_entry trim s building
                    (new_entry trim building i d m (trim i.reference) month)
              | some existing ↦
                  if same_money existing i.amount_cents d m
                  then ok (existing, false, s)
                  else err TreasuryError.reference_used
            ])
            (ok p)
        → IsBooked p.2
    posting none r =
        insert_entry-IsBooked trim s building _ p h
          (check_entry-IsSigned trim i building (trim i.reference) month (d, m) checked) r
    posting (some e) r =
        let (_, same) = if-eq-ok (same_money e i.amount_cents d m) _ _ r in rw (sym same) h

finish-IsBooked :
    (trim : String → String) (s : Store) (r : Result TreasuryError (Entry × Bool × Store))
    → IsBooked s
    → ((p : Entry × Bool × Store) → r ≡ ok p → IsBooked p.2)
    → IsBooked (finish trim s r).1
finish-IsBooked trim s (err e) h k = h
finish-IsBooked trim s (ok (e, true, t)) h k =
    audit-IsBooked t Action.entry_created (k (e, true, t) refl)
finish-IsBooked trim s (ok (e, false, t)) h k = k (e, false, t) refl

create_entry-IsBooked :
    (trim : String → String) (before : Store → Store) (s : Store) (building : String)
    (i : EntryInput) (user : Option String) (month : String)
    → ((x : Store) → IsBooked x → IsBooked (before x))
    → IsBooked s
    → IsBooked (create_entry trim before s building i user month).1
unfolding create_entry
create_entry-IsBooked trim before s building i user month safe h =
    if-Ends IsBooked (is_other_building user building) _ _ h λ _. checked (check_entry i) refl
  where
    checked :
        (r : Result TreasuryError (Direction × Method))
        → check_entry i ≡ r
        → Ends {A = Result TreasuryError Entry} IsBooked (elim r [
          | err e ↦ (err e, s)
          | ok (d, m) ↦
              if count (is_account i.account_id building) s.accounts == 0
              then (err TreasuryError.account_not_found, s)
              else finish trim (before s) (post_entry trim (before s) building i d m month)
        ])
    checked (err e) c = h
    checked (ok (d, m)) c =
        if-Ends IsBooked (count (is_account i.account_id building) s.accounts == 0) _ _ h λ _.
          finish-IsBooked trim (before s) (post_entry trim (before s) building i d m month)
            (safe s h)
            (λ p. post_entry-IsBooked trim (before s) building i d m month p (safe s h) c)

-- Requests one after the other; `beside` is what others commit in the middle of a new entry's
-- request.
pub data Request : Type 0 where
  opening :
      (building name : String) (kind : Option AccountType) (user : Option String) (new_id : String)
      → Request
  posting : (building : String) (i : EntryInput) (user : Option String) (month : String) → Request

module _ (trim : String → String) (beside : Store → Store) where
  -- The tables after the requests.
  unfoldable pub run : List Request → Store → Store
  run [] s = s
  run (opening building name kind user new_id ∷ rs) s =
      run rs (create_account trim s building name kind user new_id).1
  run (posting building i user month ∷ rs) s =
      run rs (create_entry trim beside s building i user month).1

  -- After any requests the balance of every account is what a replay of the account's entries
  -- gives, ids are unique, no entry is without its account, and every entry goes the way that its
  -- sign says, as long as what others commit in the middle keeps this.
  pub run-IsBooked :
      (rs : List Request) (s : Store)
      → ((x : Store) → IsBooked x → IsBooked (beside x))
      → IsBooked s
      → IsBooked (run rs s)
  unfolding run
  run-IsBooked [] s safe h = h
  run-IsBooked (opening building name kind user new_id ∷ rs) s safe h =
      run-IsBooked rs _ safe (create_account-IsBooked trim s building name kind user new_id h)
  run-IsBooked (posting building i user month ∷ rs) s safe h =
      run-IsBooked rs _ safe (create_entry-IsBooked trim beside s building i user month safe h)
