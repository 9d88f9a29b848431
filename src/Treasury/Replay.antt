-- ===== src/Treasury/Replay.antt =====
-- Requests with one reference: createEntry of apps/api/src/treasury/treasury.service.ts.
use koinoxrista.Prelude.{
  String, ◌≡◌, refl, sym, ap, ◌∙◌, inl, inr, Bool, true, false, Option, some, ◌==◌, if◌then◌else◌,
  Option-cases, Result, ok, err, ok-injective, if-eq-ok, if-eq-err,
}
use koinoxrista.Prelude.Tables.{find, count}
use koinoxrista.Prelude.Sums.{count-update_many}
use text.Mathlib.Text.{◌==◌ as str_eq}
use text.Mathlib.TextPositions.{eq_refl}
use koinoxrista.Fees.Charges.{is_other_building}
use koinoxrista.Treasury.Ledger.{
  Direction, Method, Entry, EntryInput, Store, TreasuryError, is_account, has_reference,
  check_entry, same_money, credit, insert_entry, post_entry, finish, create_entry,
}

abbrev pub at_once : Store → Store
at_once s = s

-- What a transaction that returns leaves to be found under the reference.
post_entry-found :
    (trim : String → String) (s : Store) (building : String) (i : EntryInput) (d : Direction)
    (m : Method) (month : String) (p : Entry × Bool × Store)
    → str_eq (trim i.reference) "" ≡ false
    → (count (is_account i.account_id building) s.accounts == 0) ≡ false
    → post_entry trim s building i d m month ≡ ok p
    → (find (has_reference building i.account_id (trim i.reference)) p.2.entries ≡ some p.0)
      × ((count (is_account i.account_id building) p.2.accounts == 0) ≡ false)
unfolding post_entry insert_entry
post_entry-found trim s building i d m month p named there run =
    elim (Option-cases (find (has_reference building i.account_id (trim i.reference)) s.entries)) [
      | inl e ↦
          let (_, same) =
            if-eq-err (count (is_account i.account_id building) s.accounts == 0) _ _
              (rw (post_entry, named, e) at run) in
          rw (sym (ok-injective same)) (
            rw (named, eq_refl building, eq_refl i.account_id, eq_refl (trim i.reference)) refl,
            rw
                (count-update_many (is_account i.account_id building)
                  (is_account i.account_id building) (credit i.amount_cents) s.accounts (λ a. refl))
                there,
          )
      | inr (x, e) ↦
          let (_, same) =
            if-eq-ok (same_money x i.amount_cents d m) _ _ (rw (post_entry, named, e) at run) in
          rw (sym same) (e, there)
    ]

-- A request that was answered with an entry has passed its checks and its transaction.
create_entry-runs :
    (trim : String → String) (s t : Store) (building : String) (i : EntryInput)
    (user : Option String) (month : String) (e : Entry)
    → create_entry trim at_once s building i user month ≡ (ok e, t)
    → (is_other_building user building ≡ false)
      × ((count (is_account i.account_id building) s.accounts == 0) ≡ false)
      × (d : Direction) × (m : Method) × (p : Entry × Bool × Store) × (post_entry trim s building i
            d m month
          ≡ ok p)
      × (p.0 ≡ e)
      × (t.accounts ≡ p.2.accounts)
      × (t.entries ≡ p.2.entries)
unfolding create_entry
create_entry-runs trim s t building i user month e run =
    let (same_building, run₁) = passed (is_other_building user building) _ _ run in
    let (dm, run₂) = checked (check_entry i) run₁ in
    let (there, run₃) =
      passed (count (is_account i.account_id building) s.accounts == 0) _ _ run₂ in
    let (p, posted_, same, accounts, entries) =
      finished (post_entry trim s building i dm.0 dm.1 month) run₃ in
    (same_building, there, dm.0, dm.1, p, posted_, same, accounts, entries)
  where
    passed :
        (b : Bool) (x : TreasuryError) (rest : Result TreasuryError Entry × Store)
        → ◌≡◌ {A = Result TreasuryError Entry × Store} (if b then (err x, s) else rest) (ok e, t)
        → (b ≡ false) × (rest ≡ (ok e, t))
    passed true x rest h = absurd (refused (ap (λ p. p.0) h))
      where
        refused : ◌≡◌ {A = Result TreasuryError Entry} (err x) (ok e) → ⊥
        refused k = cc
    passed false x rest h = (refl, h)

    checked :
        (r : Result TreasuryError (Direction × Method))
        {next : Direction × Method → Result TreasuryError Entry × Store}
        → ◌≡◌ {A = Result TreasuryError Entry × Store}
            (elim r [ err x ↦ (err x, s) | ok y ↦ next y ])
            (ok e, t)
        → (y : Direction × Method) × (next y ≡ (ok e, t))
    checked (err x) h = absurd (refused (ap (λ p. p.0) h))
      where
        refused : ◌≡◌ {A = Result TreasuryError Entry} (err x) (ok e) → ⊥
        refused k = cc
    checked (ok y) h = (y, h)

    finished :
        (r : Result TreasuryError (Entry × Bool × Store))
        → finish trim s r ≡ (ok e, t)
        → (p : Entry × Bool × Store) × (r ≡ ok p)
          × (p.0 ≡ e)
          × (t.accounts ≡ p.2.accounts)
          × (t.entries ≡ p.2.entries)
    finished (err x) h = absurd (refused (ap (λ p. p.0) h))
      where
        refused : ◌≡◌ {A = Result TreasuryError Entry} (err x) (ok e) → ⊥
        refused k = cc
    finished (ok (y, true, u)) h = (
      (y, true, u),
      refl,
      ok-injective (ap (λ p. p.0) h),
      ap (λ p. p.1.accounts) (sym h),
      ap (λ p. p.1.entries) (sym h),
    )
    finished (ok (y, false, u)) h = (
      (y, false, u),
      refl,
      ok-injective (ap (λ p. p.0) h),
      ap (λ p. p.1.accounts) (sym h),
      ap (λ p. p.1.entries) (sym h),
    )

-- After a request with a reference was answered with an entry, a valid request for the same account
-- and with the same reference changes nothing: it is answered with that entry where it asks for the
-- same amount, direction and method, and refused where it does not.
pub create_entry_again :
    (trim : String → String) (s t : Store) (building : String) (i j : EntryInput)
    (user : Option String) (month later : String) (e : Entry) (d : Direction) (m : Method)
    → str_eq (trim i.reference) "" ≡ false
    → create_entry trim at_once s building i user month ≡ (ok e, t)
    → j.account_id ≡ i.account_id
    → trim j.reference ≡ trim i.reference
    → check_entry j ≡ ok (d, m)
    → create_entry trim at_once t building j user later
      ≡ ((if same_money e j.amount_cents d m then ok e else err TreasuryError.reference_used), t)
unfolding create_entry post_entry
create_entry_again trim s t building i j user month later e d m named run account reference
      checked =
    let (same_building, there, d', m', p, posted_, same, accounts, entries) =
      create_entry-runs trim s t building i user month e run in
    let (found, still) = post_entry-found trim s building i d' m' month p named there posted_ in
    let found_in : find (has_reference building i.account_id (trim i.reference)) t.entries
        ≡ some e =
      ap (find _) entries ∙ (found ∙ ap some same) in
    let there_in : (count (is_account i.account_id building) t.accounts == 0) ≡ false =
      ap (λ as'. count (is_account i.account_id building) as' == 0) accounts ∙ still in
    rw
      (
        create_entry, post_entry, same_building, checked, account, there_in, reference, named,
        found_in,
      )
      (answered (same_money e j.amount_cents d m))
  where
    answered :
        (b : Bool)
        → finish trim t (if b then ok (e, false, t) else err TreasuryError.reference_used)
          ≡ ((if b then ok e else err TreasuryError.reference_used), t)
    answered true = refl
    answered false = refl
