-- ===== src/Treasury/Tests.antt =====
-- Runs of the treasury.
use koinoxrista.Prelude.{
  String, ◌≡◌, refl, true, false, none, some, List, [], ◌∷◌, arith, total, ok, err,
}
use koinoxrista.Prelude.Int.{ℤ, pos, negsuc, pos_part, neg_part, ◌+ℤ◌}
use koinoxrista.Prelude.Sort.{sort}
use text.Mathlib.Text.{◌==◌ as str_eq}
use mathlib.Core.Path.{subst}
use koinoxrista.Fees.Charges.{is_other_building}
use koinoxrista.Treasury.Ledger.{
  AccountType, incoming, outgoing, Method, Account, Entry, EntryInput, Action, Store, TreasuryError,
  check_entry, create_account, insert_entry, post_entry, create_entry,
}
use koinoxrista.Treasury.Ledger.{Balance, get_balance}
use koinoxrista.Treasury.Journal.{IsBooked, Request, run, run-IsBooked}
use koinoxrista.Treasury.Months.{get_balance_sums}
use koinoxrista.Treasury.Replay.{at_once, create_entry_again}

abbrev same_text : String → String
same_text t = t

abbrev nothing : Store
nothing = record { accounts = []; entries = []; audits = [] }

abbrev rent : EntryInput
rent = record {
  account_id = "c";
  amount_cents = pos 500;
  direction = some incoming;
  method = some Method.cash;
  reference = "r1";
}

abbrev repair : EntryInput
repair = record {
  account_id = "c";
  amount_cents = negsuc 119;
  direction = some outgoing;
  method = some Method.card;
  reference = "";
}

abbrev day : List Request
day =
    Request.opening "B" "till" (some AccountType.cash) (some "B") "c"
    ∷ Request.opening "B" "till" (some AccountType.bank) (some "B") "d"
    ∷ Request.posting "B" rent (some "B") "2026-05"
    ∷ Request.posting "B" rent (some "B") "2026-05"
    ∷ Request.posting "B" repair (some "B") "2026-06"
    ∷ []

abbrev till : ℤ → Account
till n = record {
  id = "c";
  building_id = "B";
  name = "till";
  kind = AccountType.cash;
  balance_cents = n;
}

abbrev rent_entry : Entry
rent_entry = record {
  account_id = "c";
  building_id = "B";
  amount_cents = pos 500;
  direction = incoming;
  method = Method.cash;
  reference = some "r1";
  month = "2026-05";
}

abbrev repair_entry : Entry
repair_entry = record {
  account_id = "c";
  building_id = "B";
  amount_cents = negsuc 119;
  direction = outgoing;
  method = Method.card;
  reference = none;
  month = "2026-06";
}

abbrev evening : Store
evening = record {
  accounts = till (pos 380) ∷ [];
  entries = repair_entry ∷ rent_entry ∷ [];
  audits = Action.entry_created ∷ Action.entry_created ∷ Action.account_created ∷ [];
}

run-day : run same_text at_once day nothing ≡ evening
unfolding run create_account create_entry is_other_building check_entry post_entry insert_entry ◌+ℤ◌
run-day = refl

nothing-IsBooked : IsBooked nothing
nothing-IsBooked = record { balanced = tt; unique = λ k. omega arith; known = tt; signed = tt }

-- What another request opens in the middle of one.
abbrev idle : Store → Store
idle s = record s { audits = [] }

idle-IsBooked : (s : Store) → IsBooked s → IsBooked (idle s)
idle-IsBooked s h = record {
  balanced = h.balanced;
  unique = h.unique;
  known = h.known;
  signed = h.signed;
}

run-IsBooked_example : IsBooked (run same_text idle day nothing)
run-IsBooked_example = run-IsBooked same_text idle day nothing idle-IsBooked nothing-IsBooked

evening-IsBooked : IsBooked evening
evening-IsBooked =
    subst IsBooked run-day (run-IsBooked same_text at_once day nothing (λ x h. h) nothing-IsBooked)

-- The order of two months.
abbrev compare_months : String → String → ℤ
compare_months x y = elim (str_eq x "2026-05") [ true ↦ negsuc 0 | false ↦ pos 1 ]

abbrev summary : Balance
summary = record {
  total_cents = pos 380;
  cash_cents = pos 380;
  bank_cents = pos 0;
  by_account = till (pos 380) ∷ [];
  by_month =
      record { month = "2026-05"; in_cents = 500; out_cents = 0 }
      ∷ record { month = "2026-06"; in_cents = 0; out_cents = 120 }
      ∷ [];
}

run_balance : get_balance compare_months evening "B" (some "B") ≡ ok summary
unfolding get_balance is_other_building sort ◌+ℤ◌
run_balance = refl

get_balance_sums_example :
    (pos 380 ≡ pos 380 +ℤ pos 0)
    × (total (λ m. m.in_cents) summary.by_month
        ≡ total (λ e. pos_part e.amount_cents) evening.entries)
    × (total (λ m. m.out_cents) summary.by_month
        ≡ total (λ e. neg_part e.amount_cents) evening.entries)
get_balance_sums_example =
    get_balance_sums compare_months evening "B" (some "B") summary evening-IsBooked run_balance

abbrev opened : Store
opened = record { accounts = till (pos 0) ∷ []; entries = []; audits = [] }

abbrev posted_rent : Store
posted_rent = record {
  accounts = till (pos 500) ∷ [];
  entries = rent_entry ∷ [];
  audits = Action.entry_created ∷ [];
}

run_rent :
    create_entry same_text at_once opened "B" rent (some "B") "2026-05"
    ≡ (ok rent_entry, posted_rent)
unfolding create_entry is_other_building check_entry post_entry insert_entry ◌+ℤ◌
run_rent = refl

abbrev more_rent : EntryInput
more_rent = record rent { amount_cents = pos 600 }

run_check : check_entry more_rent ≡ ok (incoming, Method.cash)
unfolding check_entry
run_check = refl

create_entry_again_example :
    create_entry same_text at_once posted_rent "B" more_rent (some "B") "2026-07"
    ≡ (err TreasuryError.reference_used, posted_rent)
create_entry_again_example =
    create_entry_again same_text opened posted_rent "B" rent more_rent (some "B") "2026-05"
      "2026-07" rent_entry incoming Method.cash refl run_rent refl refl run_check
