-- ===== src/Reserve/Levy/Books.antt =====
-- The tables through createLevy, issueLevy and closeLevy of
-- apps/api/src/reserve/reserve.service.ts.
use koinoxrista.Prelude.{
  String, ◌≡◌, refl, sym, ◌∙◌, inl, inr, not, Option, List, [], ◌∷◌, ◌++◌, map, arith, ◌==◌,
  Bool-cases, length, append-nil, append_assoc, total-append, All, All-append, sum, ok, ◌>>=◌, ◌>>◌,
  throw_if, throw_if-ok, >>=-eq-ok, ok-injective,
}
use koinoxrista.Prelude.Int.{ℤ, pos, pos_part, leb_ℤ}
use koinoxrista.Prelude.Tables.{find, count}
use koinoxrista.Prelude.Sums.{HasUniqueKeys, HasUniqueKeys-snoc}
use text.Mathlib.Text.{◌==◌ as str_eq}
use koinoxrista.Allocation.Float.{Float}
use koinoxrista.Allocation.Split.{SplitResult}
use koinoxrista.Allocation.Weights.{Area, Strategy, AllocatableUnit}
use koinoxrista.Fees.Charges.{is_other_building}
use koinoxrista.Reserve.Store.{
  LevyShare, Levy, Store, ReserveError, Action, is_issued, is_draft, is_closed, is_levy,
}
use koinoxrista.Reserve.Fund.Books.{or_unchanged-Ends, find-Ends}
use koinoxrista.Reserve.Sound.{audit-IsSound, IsSound, if-Ends, IsWithin, paid}
use koinoxrista.Reserve.Levy.{
  CustomWeight, is_allowed, plan_levy, new_share, add_shares, insert_levy, new_levy, create_levy,
  with_levies, can_issue, can_close, claim_issue, issue, issue_levy, owed, claim_close, close_levy,
}

abbrev pub IsUnpaid : LevyShare → Type 0
IsUnpaid h = h.paid_cents ≡ 0

pub fresh_shares :
    (levy_id : String) (share_id : String → String) (rs : List SplitResult)
    → All IsUnpaid (map (new_share levy_id share_id) rs)
fresh_shares levy_id share_id [] = tt
fresh_shares levy_id share_id (r ∷ rs) = (refl, fresh_shares levy_id share_id rs)

-- Rows that are inserted stand after the others.
pub add_shares-eq :
    (table hs out : List LevyShare) → add_shares table hs ≡ ok out → out ≡ table ++ hs
unfolding add_shares
add_shares-eq table [] out e = sym (ok-injective e) ∙ sym (append-nil table)
add_shares-eq table (h ∷ hs) out e =
    let (_, more) =
      throw_if-ok (not (count (λ g. str_eq g.id h.id) table == 0)) ReserveError.not_unique _ e in
    add_shares-eq (table ++ (h ∷ [])) hs out more ∙ append_assoc table (h ∷ []) hs

-- What rows that are inserted leave, when none of them is paid.
add_shares-IsSound :
    (table hs out : List LevyShare)
    → All IsUnpaid hs
    → All IsWithin table
    → HasUniqueKeys (λ h. h.id) table
    → add_shares table hs ≡ ok out
    → (paid out ≡ paid table) × All IsWithin out × HasUniqueKeys (λ h. h.id) out
unfolding add_shares
add_shares-IsSound table [] out f w u e = rw (sym (ok-injective e)) (refl, w, u)
add_shares-IsSound table (h ∷ hs) out f w u e =
    let (free, more) =
      throw_if-ok (not (count (λ g. str_eq g.id h.id) table == 0)) ReserveError.not_unique _ e in
    let (same, within, unique) =
      add_shares-IsSound (table ++ (h ∷ [])) hs out f.1
        (All-append IsWithin table (h ∷ []) w (omega (arith, f.0), tt))
        (HasUniqueKeys-snoc (λ x. x.id) h table (ground arith) u) more in
    (omega (arith, same, total-append (λ x. x.paid_cents) table (h ∷ []), f.0), within, unique)

insert_levy-IsSound :
    (area : Area) (f : Float) (trim : String → String) (s t : Store) (l : Levy)
    (share_id : String → String) (rs : List SplitResult)
    → IsSound s
    → insert_levy area f trim s l share_id rs ≡ ok t
    → IsSound t
unfolding insert_levy
insert_levy-IsSound area f trim s t l share_id rs h e =
    let (shares, inserted, same) =
      >>=-eq-ok
        (throw_if (not (count (λ k. str_eq k.id l.id) s.levies == 0)) ReserveError.not_unique
          >> add_shares s.shares (map (new_share l.id share_id) rs))
        _ e in
    let (_, added) =
      throw_if-ok (not (count (λ k. str_eq k.id l.id) s.levies == 0)) ReserveError.not_unique _
        inserted in
    let (sum, within, unique) =
      add_shares-IsSound s.shares _ shares (fresh_shares l.id share_id rs) h.within h.unique_shares
        added in
    rw (sym (ok-injective same)) (record {
      books = h.books;
      receivables = h.receivables ∙ sym sum;
      within = within;
      unique_funds = h.unique_funds;
      unique_shares = unique;
    })

pub create_levy-IsSound :
    (area : Area) (f : Float) (trim : String → String) (s : Store) (building title : String)
    (amount : ℤ) (strategy : Strategy) (custom : List CustomWeight) (vote_id user : Option String)
    (us : List (AllocatableUnit area)) (new_id : String) (share_id : String → String)
    → IsSound s
    → IsSound
        (create_levy area f trim s building title amount strategy custom vote_id user us new_id
          share_id).1
unfolding create_levy
create_levy-IsSound area f trim s building title amount strategy custom vote_id user us new_id
      share_id h =
    if-Ends IsSound (is_other_building user building) _ _ h λ _.
      if-Ends IsSound (not (is_allowed strategy)) _ _ h λ _.
        if-Ends IsSound (leb_ℤ amount (pos 0)) _ _ h λ _.
          if-Ends IsSound (length us == 0) _ _ h λ _.
            let l = new_levy area f trim new_id building title (pos_part amount) strategy vote_id in
            or_unchanged-Ends IsSound s
              (plan_levy area f trim us strategy custom amount
                >>= (λ splits. insert_levy area f trim s l share_id splits))
              Action.levy_created (λ x. audit-IsSound x Action.levy_created) h
              λ t e.
                let (splits, _, more) =
                  >>=-eq-ok (plan_levy area f trim us strategy custom amount) _ e in
                insert_levy-IsSound area f trim s t l share_id splits h more

levies-IsSound : (s : Store) (levies : List Levy) → IsSound s → IsSound (with_levies s levies)
levies-IsSound s levies h = record {
  books = h.books;
  receivables = h.receivables;
  within = h.within;
  unique_funds = h.unique_funds;
  unique_shares = h.unique_shares;
}

module _ (before during : Store → Store)
    (before_safe : (x : Store) → IsSound x → IsSound (before x))
    (during_safe : (x : Store) → IsSound x → IsSound (during x)) where
  claim_issue-IsSound :
      (s : Store) (building levy_id : String)
      → IsSound s
      → IsSound (claim_issue before during s building levy_id).1
  unfolding claim_issue
  claim_issue-IsSound s building levy_id h =
      elim (Bool-cases (count (can_issue levy_id building) s.levies == 0)) [
        | inl e ↦
            rw (claim_issue, e)
              (find-Ends IsSound (find (is_levy levy_id building) s.levies) _ _ h
                λ x _. if-Ends IsSound (is_issued x.status) _ _ h λ _. h)
        | inr e ↦ rw (claim_issue, e) (audit-IsSound _ Action.levy_issued (levies-IsSound s _ h))
      ]

  pub issue_levy-IsSound :
      (s : Store) (building levy_id : String) (user : Option String)
      → IsSound s
      → IsSound (issue_levy before during s building levy_id user).1
  unfolding issue_levy issue
  issue_levy-IsSound s building levy_id user h =
      if-Ends IsSound (is_other_building user building) _ _ h λ _.
        find-Ends IsSound (find (is_levy levy_id building) s.levies) _ _ h λ l _.
          if-Ends IsSound (not (is_draft l.status)) _ _ h λ _.
            find-Ends IsSound (find (is_levy levy_id building) (before s).levies) _ _
              (before_safe s h)
              λ k _. if-Ends IsSound (is_issued k.status) _ _ (before_safe s h) λ _.
                if-Ends IsSound (not (is_draft k.status)) _ _ (before_safe s h) λ _.
                  claim_issue-IsSound (during (before s)) building levy_id
                    (during_safe (before s) (before_safe s h))

  claim_close-IsSound :
      (s : Store) (building levy_id : String)
      → IsSound s
      → IsSound (claim_close before during s building levy_id).1
  unfolding claim_close
  claim_close-IsSound s building levy_id h =
      elim (Bool-cases (count (can_close levy_id building) s.levies == 0)) [
        | inl e ↦
            rw (claim_close, e)
              (find-Ends IsSound (find (is_levy levy_id building) s.levies) _ _ h
                λ x _. if-Ends IsSound (is_closed x.status) _ _ h λ _. h)
        | inr e ↦ rw (claim_close, e) (audit-IsSound _ Action.levy_closed (levies-IsSound s _ h))
      ]

  pub close_levy-IsSound :
      (s : Store) (building levy_id : String) (user : Option String)
      → IsSound s
      → IsSound (close_levy before during s building levy_id user).1
  unfolding close_levy
  close_levy-IsSound s building levy_id user h =
      if-Ends IsSound (is_other_building user building) _ _ h λ _.
        find-Ends IsSound (find (is_levy levy_id building) s.levies) _ _ h λ l _.
          if-Ends IsSound (is_closed l.status) _ _ h λ _.
            if-Ends IsSound (not (is_issued l.status)) _ _ h λ _.
              if-Ends IsSound (not (owed levy_id s.shares == 0)) _ _ h
                λ _. claim_close-IsSound (during s) building levy_id (during_safe s h)
