-- ===== src/Reserve/Levy/Shares.antt =====
-- What createLevy makes, and repeated requests for one levy:
-- apps/api/src/reserve/reserve.service.ts.
use koinoxrista.Prelude.{
  ℕ, String, ◌≡◌, refl, sym, ap, ◌∙◌, Bool, true, false, not, ◌&&◌, Option, none, some, List, [],
  ◌∷◌, ◌++◌, map, arith, ◌==◌, if◌then◌else◌, length, total, All, Result, ok, err, ◌>>=◌, ◌>>◌,
  throw_if, throw_if-ok, >>=-eq-ok, ok-injective,
}
use koinoxrista.Prelude.Int.{ℤ, pos, pos_part, leb_ℤ}
use koinoxrista.Prelude.Tables.{
  find, count, update_many, find-holds, find-update_many, find-count_of,
}
use text.Mathlib.Text.{◌==◌ as str_eq}
use koinoxrista.Allocation.Float.{Float}
use koinoxrista.Allocation.Split.{SplitInput, SplitResult, split_by_largest_remainder}
use koinoxrista.Allocation.Weights.{Area, Strategy, AllocatableUnit}
use koinoxrista.Fees.Charges.{is_other_building}
use koinoxrista.Reserve.Store.{
  LevyStatus, draft, issued, closed, LevyShare, Levy, Store, ReserveError, Action, is_issued,
  is_draft, is_closed, is_levy,
}
use koinoxrista.Reserve.Fund.{audited, or_unchanged}
use koinoxrista.Reserve.Levy.{
  CustomWeight, is_allowed, levy_weights, lift_split, plan_levy, new_share, add_shares, insert_levy,
  new_levy, create_levy, with_levies, set_status, can_issue, can_close, claim_issue, issue,
  issue_levy, owed, claim_close, close_levy,
}
use mathlib.Core.Path.{subst}
use koinoxrista.Allocation.Float.{IsAccurate}
use koinoxrista.Allocation.Split.Exact.{Fits, split_conserves}
use koinoxrista.Reserve.Levy.Books.{add_shares-eq, IsUnpaid}

-- A request that did what it was asked passed each of its guards.
passed :
    (b : Bool) (e : ReserveError) (s t : Store) (rest : Result ReserveError (Unit {0}) × Store)
    → (if b then (err e, s) else rest) ≡ (ok tt, t)
    → (b ≡ false) × (rest ≡ (ok tt, t))
passed true e s t rest h = absurd (refused (ap (λ p. p.0) h))
  where
    refused : ◌≡◌ {A = Result ReserveError (Unit {0})} (err e) (ok tt) → ⊥
    refused k = cc
passed false e s t rest h = (refl, h)

committed : (s t : Store) (r : Result ReserveError Store) → or_unchanged s r ≡ (ok tt, t) → r ≡ ok t
committed s t (err e) h = absurd (refused (ap (λ p. p.0) h))
  where
    refused : ◌≡◌ {A = Result ReserveError (Unit {0})} (err e) (ok tt) → ⊥
    refused k = cc
committed s t (ok u) h = ap (λ p. ok p.1) h

total-new_share :
    (levy_id : String) (share_id : String → String) (rs : List SplitResult)
    → (total (λ h. h.amount_cents) (map (new_share levy_id share_id) rs)
        ≡ total (λ r. r.amount_cents) rs)
      × (map (λ h. h.unit_id) (map (new_share levy_id share_id) rs) ≡ map (λ r. r.id) rs)
      × All (λ h. (h.levy_id ≡ levy_id) × IsUnpaid h) (map (new_share levy_id share_id) rs)
total-new_share levy_id share_id [] = (refl, refl, tt)
total-new_share levy_id share_id (r ∷ rs) =
    let (sums, ids, unpaid) = total-new_share levy_id share_id rs in
    (omega (arith, sums), ap (λ is'. r.id ∷ is') ids, ((refl, refl), unpaid))

plan-conserves :
    (area : Area) (f : Float) (trim : String → String) (n : ℕ) (strategy : Strategy)
    (custom : List CustomWeight) (us : List (AllocatableUnit area)) (weights : List SplitInput)
    (splits : List SplitResult)
    → IsAccurate f
    → levy_weights area f trim us strategy custom ≡ ok weights
    → Fits n weights
    → plan_levy area f trim us strategy custom (pos n) ≡ ok splits
    → (total (λ r. r.amount_cents) splits ≡ n) × (map (λ r. r.id) splits ≡ map (λ w. w.id) weights)
unfolding plan_levy
plan-conserves area f trim n strategy custom us weights splits accurate read fits planned =
    let (out, split, sums, ids) = split_conserves f n weights accurate fits in
    let (_, found, rest) = >>=-eq-ok (levy_weights area f trim us strategy custom) _ planned in
    let same_weights = ok-injective (sym found ∙ read) in
    let same : out ≡ splits = ok-injective (
      sym (ap lift_split split)
      ∙ (sym (ap (λ ws. lift_split (split_by_largest_remainder f (pos n) ws)) same_weights)
          ∙ rest)) in
    rw (sym same) (sums, ids)

insert_levy-rows :
    (area : Area) (f : Float) (trim : String → String) (s u : Store) (l : Levy)
    (share_id : String → String) (rs : List SplitResult)
    → insert_levy area f trim s l share_id rs ≡ ok u
    → (u.levies ≡ l ∷ s.levies) × (u.shares ≡ s.shares ++ map (new_share l.id share_id) rs)
unfolding insert_levy
insert_levy-rows area f trim s u l share_id rs e =
    let (shares, inserted, same) =
      >>=-eq-ok
        (throw_if (not (count (λ k. str_eq k.id l.id) s.levies == 0)) ReserveError.not_unique
          >> add_shares s.shares (map (new_share l.id share_id) rs))
        _ e in
    let (_, added) =
      throw_if-ok (not (count (λ k. str_eq k.id l.id) s.levies == 0)) ReserveError.not_unique _
        inserted in
    rw (sym (ok-injective same)) (refl, add_shares-eq s.shares _ shares added)

create_levy-runs :
    (area : Area) (f : Float) (trim : String → String) (s t : Store) (building title : String)
    (amount : ℤ) (strategy : Strategy) (custom : List CustomWeight) (vote_id user : Option String)
    (us : List (AllocatableUnit area)) (new_id : String) (share_id : String → String)
    → create_levy area f trim s building title amount strategy custom vote_id user us new_id
        share_id
      ≡ (ok tt, t)
    → (splits : List SplitResult) × (u : Store) × (plan_levy area f trim us strategy custom amount
        ≡ ok splits)
      × (insert_levy area f trim s
            (new_levy area f trim new_id building title (pos_part amount) strategy vote_id)
            share_id
            splits
          ≡ ok u)
      × (audited Action.levy_created u ≡ t)
unfolding create_levy
create_levy-runs area f trim s t building title amount strategy custom vote_id user us new_id
      share_id run =
    let (_, run₁) = passed (is_other_building user building) _ s t _ run in
    let (_, run₂) = passed (not (is_allowed strategy)) _ s t _ run₁ in
    let (_, run₃) = passed (leb_ℤ amount (pos 0)) _ s t _ run₂ in
    let (_, run₄) = passed (length us == 0) _ s t _ run₃ in
    let (u, inserting, same) =
      >>=-eq-ok
        (plan_levy area f trim us strategy custom amount >>= (λ splits.
          insert_levy area f trim s
            (new_levy area f trim new_id building title (pos_part amount) strategy vote_id) share_id
            splits))
        _ (committed s t _ run₄) in
    let (splits, planned, inserted) =
      >>=-eq-ok (plan_levy area f trim us strategy custom amount) _ inserting in
    (splits, u, planned, inserted, ok-injective same)

-- Where the weights of the units and the amount are in range, createLevy that returns has added one
-- draft levy of the amount, and one unpaid share for each weighted unit in order, and the shares
-- add up to exactly the amount.
pub create_levy_shares :
    (area : Area) (f : Float) (trim : String → String) (s t : Store) (building title : String)
    (n : ℕ) (strategy : Strategy) (custom : List CustomWeight) (vote_id user : Option String)
    (us : List (AllocatableUnit area)) (new_id : String) (share_id : String → String)
    (weights : List SplitInput)
    → IsAccurate f
    → levy_weights area f trim us strategy custom ≡ ok weights
    → Fits n weights
    → create_levy area f trim s building title
        (pos n)
        strategy
        custom
        vote_id
        user
        us
        new_id
        share_id
      ≡ (ok tt, t)
    → (t.levies ≡ new_levy area f trim new_id building title n strategy vote_id ∷ s.levies)
      × (hs : List LevyShare) × (t.shares ≡ s.shares ++ hs)
      × (total (λ h. h.amount_cents) hs ≡ n)
      × (map (λ h. h.unit_id) hs ≡ map (λ w. w.id) weights)
      × All (λ h. (h.levy_id ≡ new_id) × (h.paid_cents ≡ 0)) hs
create_levy_shares area f trim s t building title n strategy custom vote_id user us new_id share_id
      weights accurate read fits run =
    let (splits, u, planned, inserted, same) =
      create_levy-runs area f trim s t building title (pos n) strategy custom vote_id user us new_id
        share_id run in
    let (sums, ids) =
      plan-conserves area f trim n strategy custom us weights splits accurate read fits planned in
    let (levies, shares) = insert_levy-rows area f trim s u _ share_id splits inserted in
    let (total_eq, unit_ids, unpaid) = total-new_share new_id share_id splits in
    rw (sym same) (
      levies,
      map (new_share new_id share_id) splits,
      shares,
      total_eq ∙ sums,
      unit_ids ∙ ids,
      unpaid,
    )

-- One after the other, without other requests in between.
abbrev pub at_once : Store → Store
at_once s = s

-- A levy that was found is found again after a change of its status, with the new one.
found_again :
    (s : Store) (p : Levy → Bool) (building levy_id : String) (status : LevyStatus) (l : Levy)
    → find (is_levy levy_id building) s.levies ≡ some l
    → p l ≡ true
    → find (is_levy levy_id building) (update_many p (set_status status) s.levies)
      ≡ some (set_status status l)
found_again s p building levy_id status l e t =
    find-update_many (is_levy levy_id building) p (set_status status) s.levies l (λ k. refl) e
    ∙ ap (λ b. some (if b then set_status status l else l)) t

both : (a b : Bool) → a ≡ true → b ≡ true → a && b ≡ true
both a b h k = rw (h, k) refl

is_true : (b : Bool) → not b ≡ false → b ≡ true
is_true b h = ground arith

found_ends :
    (P : Type 0) (found : Option Levy) (e : ReserveError) (s t : Store)
    (next : Levy → Result ReserveError (Unit {0}) × Store)
    → ((l : Levy) → found ≡ some l → next l ≡ (ok tt, t) → P)
    → ◌≡◌ {A = Result ReserveError (Unit {0}) × Store}
        (elim found [ none ↦ (err e, s) | some l ↦ next l ])
        (ok tt, t)
    → P
found_ends P none e s t next k h = absurd (refused (ap (λ p. p.0) h))
  where
    refused : ◌≡◌ {A = Result ReserveError (Unit {0})} (err e) (ok tt) → ⊥
    refused k = cc
found_ends P (some l) e s t next k h = k l refl h

abbrev closed_store : String → String → Store → Store
closed_store building levy_id s =
    audited Action.levy_closed
      (with_levies s (update_many (can_close levy_id building) (set_status closed) s.levies))

abbrev issued_store : String → String → Store → Store
issued_store building levy_id s =
    audited Action.levy_issued
      (with_levies s (update_many (can_issue levy_id building) (set_status issued) s.levies))

claim_close-eq :
    (s : Store) (building levy_id : String) (l : Levy)
    → find (is_levy levy_id building) s.levies ≡ some l
    → is_issued l.status ≡ true
    → (can_close levy_id building l ≡ true)
      × (claim_close at_once at_once s building levy_id ≡ (ok tt, closed_store building levy_id s))
unfolding claim_close
claim_close-eq s building levy_id l e o =
    let can =
      both (is_levy levy_id building l) (is_issued l.status)
        (find-holds (is_levy levy_id building) s.levies l e) o in
    (
      can,
      rw
          (
            claim_close,
            find-count_of (is_levy levy_id building) (can_close levy_id building) s.levies l e can,
          )
          refl,
    )

claim_issue-eq :
    (s : Store) (building levy_id : String) (l : Levy)
    → find (is_levy levy_id building) s.levies ≡ some l
    → is_draft l.status ≡ true
    → (can_issue levy_id building l ≡ true)
      × (claim_issue at_once at_once s building levy_id ≡ (ok tt, issued_store building levy_id s))
unfolding claim_issue
claim_issue-eq s building levy_id l e o =
    let can =
      both (is_levy levy_id building l) (is_draft l.status)
        (find-holds (is_levy levy_id building) s.levies l e) o in
    (
      can,
      rw
          (
            claim_issue,
            find-count_of (is_levy levy_id building) (can_issue levy_id building) s.levies l e can,
          )
          refl,
    )

close_closed :
    (s : Store) (building levy_id : String) (user : Option String) (l : Levy)
    → is_other_building user building ≡ false
    → find (is_levy levy_id building) s.levies ≡ some l
    → is_closed l.status ≡ true
    → close_levy at_once at_once s building levy_id user ≡ (ok tt, s)
unfolding close_levy
close_closed s building levy_id user l h e c = rw (close_levy, h, e, c) refl

issue_issued :
    (s : Store) (building levy_id : String) (user : Option String) (l : Levy)
    → is_other_building user building ≡ false
    → find (is_levy levy_id building) s.levies ≡ some l
    → is_draft l.status ≡ false
    → issue_levy at_once at_once s building levy_id user ≡ (err ReserveError.not_draft, s)
unfolding issue_levy
issue_issued s building levy_id user l h e c = rw (issue_levy, h, e, c) refl

-- Closing a levy again does nothing.
pub close_levy_again :
    (s t : Store) (building levy_id : String) (user : Option String)
    → close_levy at_once at_once s building levy_id user ≡ (ok tt, t)
    → close_levy at_once at_once t building levy_id user ≡ (ok tt, t)
unfolding close_levy
close_levy_again s t building levy_id user run =
    let (same_building, run₁) = passed (is_other_building user building) _ s t _ run in
    found_ends (close_levy at_once at_once t building levy_id user ≡ (ok tt, t))
      (find (is_levy levy_id building) s.levies) _ s t _
      (λ l e run₂. closing l same_building e (is_closed l.status) refl _ _ run₂) run₁
  where
    closing :
        (l : Levy)
        → is_other_building user building ≡ false
        → find (is_levy levy_id building) s.levies ≡ some l
        → (b : Bool) → is_closed l.status ≡ b
        → (x y : ReserveError)
        → ◌≡◌ {A = Result ReserveError (Unit {0}) × Store}
            (if b
              then (ok tt, s)
              else if not (is_issued l.status)
              then (err x, s)
              else if not (owed levy_id s.shares == 0)
              then (err y, s)
              else claim_close at_once at_once s building levy_id)
            (ok tt, t)
        → close_levy at_once at_once t building levy_id user ≡ (ok tt, t)
    closing l same_building e true c x y r =
        subst (λ x. close_levy at_once at_once x building levy_id user ≡ (ok tt, x)) (same_store r)
          (close_closed s building levy_id user l same_building e c)
      where
        same_store : ◌≡◌ {A = Result ReserveError (Unit {0}) × Store} (ok tt, s) (ok tt, t) → s ≡ t
        same_store k = ap (λ (p : Result ReserveError (Unit {0}) × Store). p.1) k
    closing l same_building e false c x y r =
        let (is_open, run₃) = passed (not (is_issued l.status)) _ s t _ r in
        let (_, run₄) = passed (not (owed levy_id s.shares == 0)) _ s t _ run₃ in
        let (can, done) = claim_close-eq s building levy_id l e (is_true _ is_open) in
        subst (λ x. close_levy at_once at_once x building levy_id user ≡ (ok tt, x))
          (ap (λ (p : Result ReserveError (Unit {0}) × Store). p.1) (sym done ∙ run₄))
          (close_closed (closed_store building levy_id s) building levy_id user
            (set_status closed l) same_building
            (found_again s (can_close levy_id building) building levy_id closed l e can) refl)

-- Issuing a levy again is refused, and does nothing.
pub issue_levy_again :
    (s t : Store) (building levy_id : String) (user : Option String)
    → issue_levy at_once at_once s building levy_id user ≡ (ok tt, t)
    → issue_levy at_once at_once t building levy_id user ≡ (err ReserveError.not_draft, t)
unfolding issue_levy issue
issue_levy_again s t building levy_id user run =
    let (same_building, run₁) = passed (is_other_building user building) _ s t _ run in
    found_ends
      (issue_levy at_once at_once t building levy_id user ≡ (err ReserveError.not_draft, t))
      (find (is_levy levy_id building) s.levies) _ s t
      (λ l.
        if not (is_draft l.status)
        then (err ReserveError.not_draft, s)
        else issue at_once at_once s building levy_id)
      (λ l e run₂.
        let (is_open, run₃) =
          passed (not (is_draft l.status)) _ s t (issue at_once at_once s building levy_id) run₂ in
        let (can, done) = claim_issue-eq s building levy_id l e (is_true _ is_open) in
        subst
          (λ x.
            issue_levy at_once at_once x building levy_id user ≡ (err ReserveError.not_draft, x))
          (ap (λ (p : Result ReserveError (Unit {0}) × Store). p.1)
            (sym (issuing l e (is_true _ is_open) ∙ done) ∙ run₃))
          (issue_issued (issued_store building levy_id s) building levy_id user
            (set_status issued l) same_building
            (found_again s (can_issue levy_id building) building levy_id issued l e can) refl))
      run₁
  where
    not_issued_yet : (x : LevyStatus) → is_draft x ≡ true → is_issued x ≡ false
    not_issued_yet draft h = refl
    not_issued_yet issued h = cc
    not_issued_yet closed h = cc

    issuing :
        (l : Levy)
        → find (is_levy levy_id building) s.levies ≡ some l
        → is_draft l.status ≡ true
        → issue at_once at_once s building levy_id ≡ claim_issue at_once at_once s building levy_id
    issuing l e d = rw (issue, e, not_issued_yet l.status d, d) refl
