-- ===== src/Reserve/Sound.antt =====
-- What holds of the tables of apps/api/src/reserve/reserve.service.ts between two requests.
use koinoxrista.Prelude.{
  ℕ, ◌+◌, ◌≤◌, ◌≡◌, refl, Bool, true, false, List, ◌∷◌, if◌then◌else◌, total, All,
}
use koinoxrista.Prelude.Sums.{HasUniqueKeys}
use koinoxrista.Reserve.Store.{Contribution, LevyShare, Store, Action, levy, manual, interest}

abbrev pub held : Store → ℕ
held s = total (λ f. f.balance_cents) s.funds

abbrev pub drawn : Store → ℕ
drawn s = total (λ d. d.amount_cents) s.drawdowns

abbrev pub contributed : Store → ℕ
contributed s = total (λ c. c.amount_cents) s.contributions

-- What a contribution brings in for a levy.
abbrev pub for_levy : Contribution → ℕ
for_levy c = elim c.source [ levy ↦ c.amount_cents | manual ↦ 0 | interest ↦ 0 ]

abbrev pub collected : Store → ℕ
collected s = total for_levy s.contributions

abbrev pub paid : List LevyShare → ℕ
paid shares = total (λ h. h.paid_cents) shares

-- No share is paid beyond its amount.
abbrev pub IsWithin : LevyShare → Type 0
IsWithin h = h.paid_cents ≤ h.amount_cents

-- The funds hold what was contributed and not drawn, the levy contributions are what the shares
-- record as paid, no share is overpaid, and ids are unique.
pub record IsSound (s : Store) : Type 0 where
  pub books : held s + drawn s ≡ contributed s
  pub receivables : collected s ≡ paid s.shares
  pub within : All IsWithin s.shares
  pub unique_funds : HasUniqueKeys (λ f. f.id) s.funds
  pub unique_shares : HasUniqueKeys (λ h. h.id) s.shares

-- The outcome of a request leaves tables with a property.
abbrev pub Ends : {A : Type 0} → (Store → Type 0) → A × Store → Type 0
Ends P p = P p.1

pub if-Ends :
    {A : Type 0} (P : Store → Type 0) (b : Bool) (x y : A × Store)
    → Ends P x
    → (b ≡ false → Ends P y)
    → Ends P (if b then x else y)
if-Ends P true x y p q = p
if-Ends P false x y p q = q refl

pub audit-IsSound :
    (s : Store) (a : Action) → IsSound s → IsSound (record s { audits = a ∷ s.audits })
audit-IsSound s a h = record {
  books = h.books;
  receivables = h.receivables;
  within = h.within;
  unique_funds = h.unique_funds;
  unique_shares = h.unique_shares;
}
