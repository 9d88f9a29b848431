-- ===== src/Reserve/Levy/Settled.antt =====
-- Levies through the requests of apps/api/src/reserve/reserve.service.ts: what is owed for one, and
-- its status.
use koinoxrista.Prelude.{
  ℕ, ◌≤◌, String, ◌≡◌, refl, sym, inl, inr, Bool, true, false, Option, List, [], ◌∷◌, arith, ◌==◌,
  if◌then◌else◌, Option-cases, total, All, ok, ok-injective, if-eq-ok, if-eq-err,
}
use koinoxrista.Prelude.Tables.{find, count, update_many}
use koinoxrista.Prelude.Sums.{count-own_key, total-update_many_mono}
use text.Mathlib.Text.{◌==◌ as str_eq}
use koinoxrista.Reserve.Store.{LevyShare, Levy, Store, Action, is_closed}
use koinoxrista.Reserve.Fund.{audited}
use koinoxrista.Reserve.Collect.{outstanding}
use koinoxrista.Reserve.Levy.{owed}
use koinoxrista.Reserve.Store.{Fund, Source}
use koinoxrista.Reserve.Fund.{get_or_create_fund, update_fund, add_contribution}
use koinoxrista.Reserve.Fund.Books.{fund-shares}
use koinoxrista.Reserve.Collect.{pay}

-- The rows of the levies with the id.
abbrev pub levies_with : String → Store → ℕ
levies_with id s = count (λ l. str_eq l.id id) s.levies

-- A closed levy is paid.
abbrev pub IsSettled : Store → Type 0
IsSettled s = All (λ l. is_closed l.status ≡ true → owed l.id s.shares ≡ 0) s.levies

-- Levies stay, what one still owes does not grow, and closed levies stay paid.
pub record Settles (s t : Store) : Type 0 where
  pub kept : (id : String) → (levies_with id s == 0) ≡ false → (levies_with id t == 0) ≡ false
  pub less : (id : String) → (levies_with id s == 0) ≡ false → owed id t.shares ≤ owed id s.shares
  pub closed_paid : IsSettled s → IsSettled t

pub Settles-refl : (s : Store) → Settles s s
Settles-refl s = record { kept = λ id h. h; less = λ id h. omega arith; closed_paid = λ h. h }

pub Settles-trans : (s t u : Store) → Settles s t → Settles t u → Settles s u
Settles-trans s t u h k = record {
  kept = λ id e. k.kept id (h.kept id e);
  less = λ id e. omega (arith, h.less id e, k.less id (h.kept id e));
  closed_paid = λ e. k.closed_paid (h.closed_paid e);
}

-- A levy that still stands after its shares were paid or others added.
pub settled_less :
    (levies rest : List Levy) (old new : List LevyShare)
    → All (λ l. (count (λ k. str_eq k.id l.id) rest == 0) ≡ false) levies
    → ((id : String) → (count (λ k. str_eq k.id id) rest == 0) ≡ false → owed id new ≤ owed id old)
    → All (λ l. is_closed l.status ≡ true → owed l.id old ≡ 0) levies
    → All (λ l. is_closed l.status ≡ true → owed l.id new ≡ 0) levies
settled_less [] rest old new there k h = tt
settled_less (l ∷ ls) rest old new there k h =
    (λ e. omega (arith, h.0 e, k l.id there.0), settled_less ls rest old new there.1 k h.1)

-- A request that leaves the levies, and pays shares.
pub Settles-paid :
    (s t : Store)
    → t.levies ≡ s.levies
    → ((id : String) → owed id t.shares ≤ owed id s.shares)
    → Settles s t
Settles-paid s t e k = record {
  kept = λ id h. rw e h;
  less = λ id h. k id;
  closed_paid = λ h. rw e (
      settled_less s.levies s.levies s.shares t.shares (count-own_key (λ l. l.id) s.levies)
        (λ id _. k id) h);
}

pub Settles-same : (s t : Store) → t.levies ≡ s.levies → t.shares ≡ s.shares → Settles s t
Settles-same s t e k = Settles-paid s t e (λ id. rw k (omega arith))

-- What one share adds to what is owed.
abbrev pub owes : String → LevyShare → ℕ
owes id h = if str_eq h.levy_id id then outstanding h else 0

pub owed-eq : (id : String) (hs : List LevyShare) → owed id hs ≡ total (owes id) hs
owed-eq id [] = refl
owed-eq id (h ∷ hs) = ground (arith, owed-eq id hs)

pay-less : (id : String) (n : ℕ) (h : LevyShare) → owes id (pay n h) ≤ owes id h
pay-less id n h = ground arith

pub paid-less :
    (p : LevyShare → Bool) (n : ℕ) (t : List LevyShare) (id : String)
    → owed id (update_many p (pay n) t) ≤ owed id t
paid-less p n t id = omega (
  arith,
  owed-eq id t,
  owed-eq id (update_many p (pay n) t),
  total-update_many_mono (owes id) p (pay n) t (pay-less id n),
)

fund-levies :
    (s : Store) (building new_id : String) (p : Fund × Store)
    → get_or_create_fund s building new_id ≡ ok p
    → p.1.levies ≡ s.levies
unfolding get_or_create_fund
fund-levies s building new_id p e =
    elim (Option-cases (find (λ f. str_eq f.building_id building) s.funds)) [
      | inl n ↦
          let (_, same) =
            if-eq-ok (count (λ g. str_eq g.id new_id) s.funds == 0) _ _
              (rw (get_or_create_fund, n) at e) in
          rw (sym same) refl
      | inr (g, m) ↦ rw (sym (ok-injective (rw (get_or_create_fund, m) at e))) refl
    ]

pub fund-Settles :
    (s : Store) (building new_id : String) (p : Fund × Store)
    → get_or_create_fund s building new_id ≡ ok p
    → Settles s p.1
fund-Settles s building new_id p e =
    Settles-same s p.1 (fund-levies s building new_id p e) (fund-shares s building new_id p e)

pub update_fund-Settles :
    (s t : Store) (id : String) (change : Fund → Fund)
    → update_fund s id change ≡ ok t
    → Settles s t
unfolding update_fund
update_fund-Settles s t id change e =
    let (_, same) = if-eq-err (count (λ f. str_eq f.id id) s.funds == 0) _ _ e in
    rw (sym (ok-injective same)) (Settles-same s _ refl refl)

pub add_contribution-Settles :
    (s t : Store) (f : Fund) (building : String) (n : ℕ) (source : Source) (levy_id : Option String)
    → add_contribution s f building n source levy_id ≡ ok t
    → Settles s t
unfolding add_contribution
add_contribution-Settles s t f building n source levy_id e =
    Settles-trans s _ t (Settles-same s _ refl refl) (update_fund-Settles _ t f.id _ e)

pub audit-Settles : (s t : Store) (a : Action) → Settles s t → Settles s (audited a t)
audit-Settles s t a h = Settles-trans s t _ h (Settles-same t _ refl refl)
