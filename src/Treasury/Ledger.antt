-- ===== src/Treasury/Ledger.antt =====
-- TreasuryService of apps/api/src/treasury/treasury.service.ts: createAccount, createEntry and
-- getBalance over the tables of accounts and entries. `trim` is `String.prototype.trim`, `before`
-- is what concurrent requests commit between the check of the account and the serializable
-- transaction, and a text outside of the allowed ones is none.
use koinoxrista.Prelude.{
  ℕ, ◌+◌, String, Bool, true, false, not, ◌&&◌, ◌||◌, Option, none, some, List, [], ◌∷◌, ◌==◌,
  if◌then◌else◌, filter, Result, ok, err, ◌>>◌, throw_if,
}
use koinoxrista.Prelude.Int.{ℤ, pos, pos_part, neg_part, ◌+ℤ◌, ltb_ℤ, leb_ℤ}
use koinoxrista.Prelude.Sort.{sort}
use koinoxrista.Prelude.Tables.{find, count, update_many}
use text.Mathlib.Text.{◌==◌ as str_eq}
use koinoxrista.Fees.Charges.{is_other_building}

-- `ACCOUNT_TYPES`
pub data AccountType : Type 0 where
  cash bank : AccountType

-- `DIRECTIONS`
pub data Direction : Type 0 where
  incoming outgoing : Direction

-- `METHODS`
pub data Method : Type 0 where
  cash bank check card : Method

pub record Account : Type 0 where
  pub id : String
  pub building_id : String
  pub name : String
  pub kind : AccountType
  pub balance_cents : ℤ

pub record Entry : Type 0 where
  pub account_id : String
  pub building_id : String
  pub amount_cents : ℤ
  pub direction : Direction
  pub method : Method
  pub reference : Option String
  pub month : String

-- What a request asks for; a reference that is missing is empty.
pub record EntryInput : Type 0 where
  pub account_id : String
  pub amount_cents : ℤ
  pub direction : Option Direction
  pub method : Option Method
  pub reference : String

pub data Action : Type 0 where
  account_created entry_created : Action

pub record Store : Type 0 where
  pub accounts : List Account
  pub entries : List Entry
  pub audits : List Action

pub data TreasuryError : Type 0 where
  forbidden bad_type name_taken bad_direction bad_method bad_amount negative_in positive_out
        account_not_found reference_used :
      TreasuryError

abbrev pub is_account : String → String → Account → Bool
is_account id building a = str_eq a.id id && str_eq a.building_id building

-- The row of the reference.
abbrev pub has_reference : String → String → String → Entry → Bool
has_reference building account_id reference e =
    str_eq e.building_id building
    && str_eq e.account_id account_id
    && (elim e.reference [ none ↦ false | some r ↦ str_eq r reference ])

abbrev pub same_direction : Direction → Direction → Bool
same_direction incoming incoming = true
same_direction incoming outgoing = false
same_direction outgoing incoming = false
same_direction outgoing outgoing = true

abbrev pub method_code : Method → ℕ
method_code Method.cash = 0
method_code Method.bank = 1
method_code Method.check = 2
method_code Method.card = 3

abbrev pub eq_ℤ : ℤ → ℤ → Bool
eq_ℤ a b = leb_ℤ a b && leb_ℤ b a

abbrev pub is_incoming : Direction → Bool
is_incoming incoming = true
is_incoming outgoing = false

-- The checks in front of `createEntry`.
unfoldable pub check_entry : EntryInput → Result TreasuryError (Direction × Method)
check_entry i = elim i.direction [
  | none ↦ err TreasuryError.bad_direction
  | some d ↦ elim i.method [
    | none ↦ err TreasuryError.bad_method
    | some m ↦
        throw_if (eq_ℤ i.amount_cents (pos 0)) TreasuryError.bad_amount
        >> throw_if (is_incoming d && ltb_ℤ i.amount_cents (pos 0)) TreasuryError.negative_in
        >> throw_if (not (is_incoming d) && ltb_ℤ (pos 0) i.amount_cents) TreasuryError.positive_out
        >> ok (d, m)
  ]
]

-- An entry is what the request asks for.
abbrev pub same_money : Entry → ℤ → Direction → Method → Bool
same_money e amount d m =
    eq_ℤ e.amount_cents amount
    && same_direction e.direction d
    && method_code e.method == method_code m

abbrev pub credit : ℤ → Account → Account
credit amount a = record a { balance_cents = a.balance_cents +ℤ amount }

module _ (trim : String → String) where
  -- `createAccount`; the table refuses an id or a name of the building that it has.
  unfoldable pub create_account :
      Store
      → String
      → String
      → Option AccountType
      → Option String
      → String
      → Result TreasuryError (Unit {0}) × Store
  create_account s building name kind user new_id =
      if is_other_building user building then (err TreasuryError.forbidden, s) else elim kind [
        | none ↦ (err TreasuryError.bad_type, s)
        | some k ↦
            let a : Account = record {
              id = new_id;
              building_id = building;
              name = trim name;
              kind = k;
              balance_cents = pos 0;
            } in
            if count (λ b. str_eq b.id new_id) s.accounts == 0
              && count (λ b. str_eq b.building_id building && str_eq b.name (trim name)) s.accounts
                == 0
            then (
              ok tt,
              record s { accounts = a ∷ s.accounts; audits = Action.account_created ∷ s.audits },
            )
            else (err TreasuryError.name_taken, s)
      ]

  abbrev pub new_entry : String → EntryInput → Direction → Method → String → String → Entry
  new_entry building i d m reference month = record {
    account_id = i.account_id;
    building_id = building;
    amount_cents = i.amount_cents;
    direction = d;
    method = m;
    reference = if str_eq reference "" then none else some reference;
    month = month;
  }

  -- The insertion and the update of the balance.
  unfoldable pub insert_entry : Store → String → Entry → Result TreasuryError (Entry × Bool × Store)
  insert_entry s building e =
      if count (is_account e.account_id building) s.accounts == 0
      then err TreasuryError.account_not_found
      else ok (
        e,
        true,
        record s {
          accounts =
              update_many (is_account e.account_id building) (credit e.amount_cents) s.accounts;
          entries = e ∷ s.entries;
        },
      )

  -- The transaction of `createEntry`: the entry, whether it is new, and the tables.
  unfoldable pub post_entry :
      Store
      → String
      → EntryInput
      → Direction
      → Method
      → String
      → Result TreasuryError (Entry × Bool × Store)
  post_entry s building i d m month =
      let reference = trim i.reference in
      elim (if str_eq reference ""
        then none
        else find (has_reference building i.account_id reference) s.entries) [
          | none ↦ insert_entry s building (new_entry building i d m reference month)
          | some existing ↦
              if same_money existing i.amount_cents d m
              then ok (existing, false, s)
              else err TreasuryError.reference_used
        ]

  -- The audit record of a new entry.
  abbrev pub finish :
      Store → Result TreasuryError (Entry × Bool × Store) → Result TreasuryError Entry × Store
  finish s (err e) = (err e, s)
  finish s (ok (e, created, t)) =
      (ok e, if created then record t { audits = Action.entry_created ∷ t.audits } else t)

  -- `createEntry`
  unfoldable pub create_entry :
      (Store → Store)
      → Store
      → String
      → EntryInput
      → Option String
      → String
      → Result TreasuryError Entry × Store
  create_entry before s building i user month =
      if is_other_building user building
      then (err TreasuryError.forbidden, s)
      else elim (check_entry i) [
        | err e ↦ (err e, s)
        | ok (d, m) ↦
            if count (is_account i.account_id building) s.accounts == 0
            then (err TreasuryError.account_not_found, s)
            else finish (before s) (post_entry (before s) building i d m month)
      ]

pub record MonthTotal : Type 0 where
  pub month : String
  pub in_cents : ℕ
  pub out_cents : ℕ

-- `bucket.inCents` or `bucket.outCents` raised by the entry.
abbrev pub raise : Entry → MonthTotal → MonthTotal
raise e b =
    if is_incoming e.direction || ltb_ℤ (pos 0) e.amount_cents
    then record b { in_cents = b.in_cents + (pos_part e.amount_cents + neg_part e.amount_cents) }
    else record b { out_cents = b.out_cents + (pos_part e.amount_cents + neg_part e.amount_cents) }

-- `monthMap.set`
unfoldable pub add_month : Entry → List MonthTotal → List MonthTotal
add_month e [] = raise e (record { month = e.month; in_cents = 0; out_cents = 0 }) ∷ []
add_month e (b ∷ bs) = if str_eq b.month e.month then raise e b ∷ bs else b ∷ add_month e bs

-- The loop over the entries.
unfoldable pub month_totals : List Entry → List MonthTotal → List MonthTotal
unfolding add_month
month_totals [] bs = bs
month_totals (e ∷ es) bs = month_totals es (add_month e bs)

-- The balances of the accounts with a type, or of all of them.
unfoldable pub balances : (Account → Bool) → List Account → ℤ
balances p [] = pos 0
balances p (a ∷ as') = (if p a then a.balance_cents else pos 0) +ℤ balances p as'

abbrev pub is_cash : Account → Bool
is_cash a = elim a.kind [ AccountType.cash ↦ true | AccountType.bank ↦ false ]

abbrev pub is_bank : Account → Bool
is_bank a = elim a.kind [ AccountType.cash ↦ false | AccountType.bank ↦ true ]

pub record Balance : Type 0 where
  pub total_cents : ℤ
  pub cash_cents : ℤ
  pub bank_cents : ℤ
  pub by_account : List Account
  pub by_month : List MonthTotal

-- `getBalance`; the accounts are listed with the fields that the code copies.
unfoldable pub get_balance :
    (String → String → ℤ) → Store → String → Option String → Result TreasuryError Balance
unfolding balances month_totals
get_balance locale_compare s building user =
    let accounts = filter (λ a. str_eq a.building_id building) s.accounts in
    let entries = filter (λ e. str_eq e.building_id building) s.entries in
    if is_other_building user building
    then err TreasuryError.forbidden
    else ok (record {
      total_cents = balances (λ a. true) accounts;
      cash_cents = balances is_cash accounts;
      bank_cents = balances is_bank accounts;
      by_account = accounts;
      by_month =
          sort (λ a b. ltb_ℤ (locale_compare a.month b.month) (pos 0)) (month_totals entries []);
    })
