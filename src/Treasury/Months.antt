-- ===== src/Treasury/Months.antt =====
-- The sums of getBalance: apps/api/src/treasury/treasury.service.ts.
use koinoxrista.Prelude.{
  ◌+◌, String, ◌≡◌, refl, sym, ap, inl, inr, Bool, true, false, ◌||◌, Option, List, [], ◌∷◌, arith,
  if◌then◌else◌, Bool-cases, total, All, filter, ok, ok-injective, if-eq-err,
}
use koinoxrista.Prelude.Int.{ℤ, pos, negsuc, pos_part, neg_part, ◌+ℤ◌, ltb_ℤ, +ℤ_parts, eq_of_parts}
use koinoxrista.Prelude.Sort.{total-sort}
use text.Mathlib.Text.{◌==◌ as str_eq}
use koinoxrista.Fees.Charges.{is_other_building}
use koinoxrista.Treasury.Ledger.{
  AccountType, Direction, incoming, outgoing, Account, Entry, Store, TreasuryError, is_incoming,
}
use koinoxrista.Treasury.Ledger.{
  MonthTotal, raise, add_month, month_totals, balances, is_cash, is_bank, Balance, get_balance,
}
use koinoxrista.Treasury.Journal.{IsSigned, Goes, IsBooked}

raise_lem :
    (e : Entry) (b : MonthTotal)
    → IsSigned e
    → ((raise e b).in_cents ≡ b.in_cents + pos_part e.amount_cents)
      × ((raise e b).out_cents ≡ b.out_cents + neg_part e.amount_cents)
raise_lem e b h = raised e.direction e.amount_cents h
  where
    raised :
        (d : Direction) (n : ℤ)
        → Goes d n
        → let c : MonthTotal =
            if is_incoming d || ltb_ℤ (pos 0) n
            then record b { in_cents = b.in_cents + (pos_part n + neg_part n) }
            else record b { out_cents = b.out_cents + (pos_part n + neg_part n) } in
          (c.in_cents ≡ b.in_cents + pos_part n) × (c.out_cents ≡ b.out_cents + neg_part n)
    raised incoming n g = (omega (arith, g), omega (arith, g))
    raised outgoing (pos n) g = (ground (arith, g), ground (arith, g))
    raised outgoing (negsuc n) g = (ground arith, ground arith)

add_month_lem :
    (e : Entry) (bs : List MonthTotal)
    → IsSigned e
    → (total (λ b. b.in_cents) (add_month e bs)
        ≡ total (λ b. b.in_cents) bs + pos_part e.amount_cents)
      × (total (λ b. b.out_cents) (add_month e bs)
          ≡ total (λ b. b.out_cents) bs + neg_part e.amount_cents)
unfolding add_month
add_month_lem e [] h =
    let (i, o) = raise_lem e (record { month = e.month; in_cents = 0; out_cents = 0 }) h in
    (omega (arith, i), omega (arith, o))
add_month_lem e (b ∷ bs) h = elim (Bool-cases (str_eq b.month e.month)) [
  | inl t ↦ let (i, o) = raise_lem e b h in rw t (omega (arith, i), omega (arith, o))
  | inr f ↦ let (i, o) = add_month_lem e bs h in rw f (omega (arith, i), omega (arith, o))
]

month_totals_lem :
    (es : List Entry) (bs : List MonthTotal)
    → All IsSigned es
    → (total (λ b. b.in_cents) (month_totals es bs)
        ≡ total (λ b. b.in_cents) bs + total (λ e. pos_part e.amount_cents) es)
      × (total (λ b. b.out_cents) (month_totals es bs)
          ≡ total (λ b. b.out_cents) bs + total (λ e. neg_part e.amount_cents) es)
unfolding month_totals
month_totals_lem [] bs h = (omega arith, omega arith)
month_totals_lem (e ∷ es) bs h =
    let (i, o) = add_month_lem e bs h.0 in
    let (j, p) = month_totals_lem es (add_month e bs) h.1 in
    (omega (arith, i, j), omega (arith, o, p))

balances_split :
    (as' : List Account) → balances (λ a. true) as' ≡ balances is_cash as' +ℤ balances is_bank as'
unfolding balances
balances_split [] = unfold ◌+ℤ◌ in refl
balances_split (a ∷ as') =
    added a.kind a.balance_cents (balances (λ a. true) as') (balances is_cash as')
      (balances is_bank as') (balances_split as')
  where
    added :
        (k : AccountType) (n t c b : ℤ)
        → t ≡ c +ℤ b
        → n +ℤ t
          ≡ ((if elim k as (λ _. Bool) [ AccountType.cash ↦ true | AccountType.bank ↦ false ]
                then n
                else pos 0)
              +ℤ c)
            +ℤ ((if elim k as (λ _. Bool) [ AccountType.cash ↦ false | AccountType.bank ↦ true ]
                  then n
                  else pos 0)
                +ℤ b)
    added AccountType.cash n t c b h = eq_of_parts _ _ (
        omega (
          arith,
          ap pos_part h,
          ap neg_part h,
          +ℤ_parts c b,
          +ℤ_parts n t,
          +ℤ_parts n c,
          +ℤ_parts (pos 0) b,
          +ℤ_parts (n +ℤ c) (pos 0 +ℤ b),
        ))
    added AccountType.bank n t c b h = eq_of_parts _ _ (
        omega (
          arith,
          ap pos_part h,
          ap neg_part h,
          +ℤ_parts c b,
          +ℤ_parts n t,
          +ℤ_parts (pos 0) c,
          +ℤ_parts n b,
          +ℤ_parts (pos 0 +ℤ c) (n +ℤ b),
        ))

filter_keeps :
    (P : Entry → Type 0) (p : Entry → Bool) (es : List Entry) → All P es → All P (filter p es)
filter_keeps P p [] h = tt
filter_keeps P p (e ∷ es) h =
    elim (p e) as (λ b. All P (elim b [ true ↦ e ∷ filter p es | false ↦ filter p es ])) [
      | true ↦ (h.0, filter_keeps P p es h.1)
      | false ↦ filter_keeps P p es h.1
    ]

-- Over booked tables the total of getBalance is the cash and the bank balances together, and the
-- months add up to what came in and what went out in the building's entries, none counted twice.
pub get_balance_sums :
    (locale_compare : String → String → ℤ) (s : Store) (building : String) (user : Option String)
    (b : Balance)
    → IsBooked s
    → get_balance locale_compare s building user ≡ ok b
    → let es = filter (λ e. str_eq e.building_id building) s.entries in
      (b.total_cents ≡ b.cash_cents +ℤ b.bank_cents)
      × (total (λ m. m.in_cents) b.by_month ≡ total (λ e. pos_part e.amount_cents) es)
      × (total (λ m. m.out_cents) b.by_month ≡ total (λ e. neg_part e.amount_cents) es)
unfolding get_balance
get_balance_sums locale_compare s building user b h run =
    let (_, same) = if-eq-err (is_other_building user building) TreasuryError.forbidden _ run in
    let es = filter (λ e. str_eq e.building_id building) s.entries in
    let by_name =
      λ (x : MonthTotal) (y : MonthTotal). ltb_ℤ (locale_compare x.month y.month) (pos 0) in
    let (i, o) =
      month_totals_lem es []
        (filter_keeps IsSigned (λ e. str_eq e.building_id building) s.entries h.signed) in
    rw (sym (ok-injective same)) (
      balances_split (filter (λ a. str_eq a.building_id building) s.accounts),
      omega (arith, total-sort by_name (λ m. m.in_cents) (month_totals es []), i),
      omega (arith, total-sort by_name (λ m. m.out_cents) (month_totals es []), o),
    )
