-- ===== src/Reserve/Levy/Kept.antt =====
-- Levies through each request of apps/api/src/reserve/reserve.service.ts, with what others commit
-- beside it.
use koinoxrista.Prelude.{
  ℕ, ◌+◌, ◌≤◌, String, ◌≡◌, refl, sym, ap, ◌∙◌, inl, inr, Bool, true, false, not, Option, none,
  some, List, [], ◌∷◌, ◌++◌, map, arith, ltb, ◌==◌, if◌then◌else◌, Bool-cases, length, total,
  total-append, ok, ◌>>=◌, ◌>>◌, throw_if, throw_if-ok, >>=-eq-ok, ok-injective, if-eq-err,
}
use koinoxrista.Prelude.Int.{ℤ, pos, pos_part, ltb_ℤ, leb_ℤ}
use koinoxrista.Prelude.Tables.{find, count, update_many, count_mono, update_many-All}
use koinoxrista.Prelude.Sums.{count-update_many, count-own_key, find-count}
use text.Mathlib.Text.{◌==◌ as str_eq}
use text.Mathlib.TextEquality.{eq_iff}
use koinoxrista.Allocation.Float.{Float}
use koinoxrista.Allocation.Split.{SplitResult}
use koinoxrista.Allocation.Weights.{Area, Strategy, AllocatableUnit}
use koinoxrista.Fees.Charges.{is_other_building}
use koinoxrista.Reserve.Store.{
  LevyStatus, issued, closed, LevyShare, Levy, Store, ReserveError, Action, is_unset, text_or_empty,
  is_issued, is_draft, is_closed, is_levy,
}
use koinoxrista.Reserve.Fund.Books.{or_unchanged-Ends}
use koinoxrista.Reserve.Sound.{if-Ends}
use koinoxrista.Reserve.Levy.{
  CustomWeight, is_allowed, plan_levy, new_share, add_shares, insert_levy, new_levy, create_levy,
  with_levies, set_status, can_issue, can_close, claim_issue, issue, issue_levy, owed, claim_close,
  close_levy,
}
use koinoxrista.Reserve.Store.{Fund, Source, levy}
use koinoxrista.Reserve.Fund.{
  update_fund, add_contribution, claim_draw, draw, drawdown, open_fund, update_target,
  lacks_expense,
}
use koinoxrista.Reserve.Fund.Books.{fund-Ends, find-Ends}
use koinoxrista.Reserve.Collect.{collect, collect_levy, contribute, shares_of, is_from_levy}
use koinoxrista.Reserve.Collect.Runs.{collect-runs, loop-leads}
use koinoxrista.Reserve.Levy.Books.{add_shares-eq}
use koinoxrista.Reserve.Levy.Settled.{
  levies_with, Settles, Settles-refl, Settles-trans, settled_less, Settles-paid, Settles-same, owes,
  owed-eq, paid-less, fund-Settles, update_fund-Settles, add_contribution-Settles, audit-Settles,
}

claim_draw-Settles :
    (s t : Store) (f : Fund) (building : String) (n : ℕ) (reason : String)
    (expense_id : Option String)
    → claim_draw s f building n reason expense_id ≡ ok t
    → Settles s t
unfolding claim_draw
claim_draw-Settles s t f building n reason expense_id e =
    let (_, same) = if-eq-err (count _ s.funds == 0) _ _ e in
    rw (sym (ok-injective same)) (Settles-same s _ refl refl)

collect-Settles :
    (locale_compare : String → String → ℤ) (before : Store → Store)
    (others : ℕ → List LevyShare → List LevyShare)
    (calm : (n : ℕ) (t : List LevyShare) (id : String) → owed id (others n t) ≤ owed id t)
    (s u : Store) (f : Fund) (building levy_id : String) (n : ℕ) (unit : Option String)
    → collect locale_compare before others s f building levy_id n unit ≡ ok u
    → Settles s u
collect-Settles locale_compare before others calm s u f building levy_id n unit e =
    let (_, table, loop, added) =
      collect-runs locale_compare before others s u f building levy_id n unit e in
    let less =
      loop-leads (λ t v. (id : String) → owed id v ≤ owed id t) (λ t id. omega arith)
        (λ t v w h k id. omega (arith, h id, k id)) paid-less others calm levy_id unit 0
        (shares_of locale_compare before others s levy_id) n s.shares _ loop in
    Settles-trans s (record s { shares = table }) u (Settles-paid s _ refl less)
      (add_contribution-Settles _ u f building n levy (some levy_id) added)

other_owed :
    (levy_id : String) (share_id : String → String) (rs : List SplitResult) (id : String)
    → str_eq levy_id id ≡ false
    → total (owes id) (map (new_share levy_id share_id) rs) ≡ 0
other_owed levy_id share_id [] id e = refl
other_owed levy_id share_id (r ∷ rs) id e =
    rw e (omega (arith, other_owed levy_id share_id rs id e))

insert_levy-Settles :
    (area : Area) (f : Float) (trim : String → String) (s t : Store) (l : Levy)
    (share_id : String → String) (rs : List SplitResult)
    → is_closed l.status ≡ false
    → insert_levy area f trim s l share_id rs ≡ ok t
    → Settles s t
unfolding insert_levy
insert_levy-Settles area f trim s t l share_id rs opened e =
    let (shares, inserted, same) =
      >>=-eq-ok
        (throw_if (not (count (λ k. str_eq k.id l.id) s.levies == 0)) ReserveError.not_unique
          >> add_shares s.shares (map (new_share l.id share_id) rs))
        _ e in
    let (fresh, added) =
      throw_if-ok (not (count (λ k. str_eq k.id l.id) s.levies == 0)) ReserveError.not_unique _
        inserted in
    rw (sym (ok-injective same)) (record {
      kept = λ id h. more (str_eq l.id id) (levies_with id s) h;
      less = λ id h. less shares (add_shares-eq s.shares _ shares added) id (unlike fresh id h);
      closed_paid = λ h. (
        λ c. absurd (not_closed opened c),
        settled_less s.levies s.levies s.shares shares (count-own_key (λ k. k.id) s.levies)
            (λ id k. less shares (add_shares-eq s.shares _ shares added) id (unlike fresh id k)) h,
      );
    })
  where
    not_closed : is_closed l.status ≡ false → is_closed l.status ≡ true → ⊥
    not_closed o c = cc

    more : (b : Bool) (n : ℕ) → (n == 0) ≡ false → ((if b then 1 else 0) + n == 0) ≡ false
    more b n h = ground arith

    unlike :
        not (count (λ k. str_eq k.id l.id) s.levies == 0) ≡ false
        → (id : String) → (levies_with id s == 0) ≡ false
        → str_eq l.id id ≡ false
    unlike new id there = elim (Bool-cases (str_eq l.id id)) [
      | inl same ↦ absurd (clash (rw (sym ((eq_iff l.id id).0 same)) at there))
      | inr e ↦ e
    ]
      where
        clash : (count (λ k. str_eq k.id l.id) s.levies == 0) ≡ false → ⊥
        clash h = cc

    less :
        (shares : List LevyShare)
        → shares ≡ s.shares ++ map (new_share l.id share_id) rs
        → (id : String) → str_eq l.id id ≡ false
        → owed id shares ≤ owed id s.shares
    less shares same id e = omega (
      arith,
      owed-eq id shares,
      owed-eq id s.shares,
      ap (total (owes id)) same,
      total-append (owes id) s.shares (map (new_share l.id share_id) rs),
      other_owed l.id share_id rs id e,
    )

pub create_levy-Settles :
    (area : Area) (f : Float) (trim : String → String) (s : Store) (building title : String)
    (amount : ℤ) (strategy : Strategy) (custom : List CustomWeight) (vote_id user : Option String)
    (us : List (AllocatableUnit area)) (new_id : String) (share_id : String → String)
    → Settles s
        (create_levy area f trim s building title amount strategy custom vote_id user us new_id
          share_id).1
unfolding create_levy
create_levy-Settles area f trim s building title amount strategy custom vote_id user us new_id
      share_id =
    if-Ends (Settles s) (is_other_building user building) _ _ (Settles-refl s) λ _.
      if-Ends (Settles s) (not (is_allowed strategy)) _ _ (Settles-refl s) λ _.
        if-Ends (Settles s) (leb_ℤ amount (pos 0)) _ _ (Settles-refl s) λ _.
          if-Ends (Settles s) (length us == 0) _ _ (Settles-refl s) λ _.
            let l = new_levy area f trim new_id building title (pos_part amount) strategy vote_id in
            or_unchanged-Ends (Settles s) s
              (plan_levy area f trim us strategy custom amount
                >>= (λ splits. insert_levy area f trim s l share_id splits))
              Action.levy_created (λ x. audit-Settles s x Action.levy_created) (Settles-refl s)
              λ t e.
                let (splits, _, more) =
                  >>=-eq-ok (plan_levy area f trim us strategy custom amount) _ e in
                insert_levy-Settles area f trim s t l share_id splits refl more

pub open_fund-Settles :
    (s : Store) (building : String) (user : Option String) (new_id : String)
    → Settles s (open_fund s building user new_id).1
unfolding open_fund
open_fund-Settles s building user new_id =
    if-Ends (Settles s) (is_other_building user building) _ _ (Settles-refl s) λ _.
      fund-Ends (Settles s) s building new_id _ (Settles-refl s)
        (λ p. fund-Settles s building new_id p) λ f t k. k

pub update_target-Settles :
    (s : Store) (building : String) (target : ℤ) (user : Option String) (new_id : String)
    → Settles s (update_target s building target user new_id).1
unfolding update_target
update_target-Settles s building target user new_id =
    if-Ends (Settles s) (is_other_building user building) _ _ (Settles-refl s) λ _.
      if-Ends (Settles s) (ltb_ℤ target (pos 0)) _ _ (Settles-refl s) λ _.
        fund-Ends (Settles s) s building new_id _ (Settles-refl s)
          (λ p. fund-Settles s building new_id p)
          λ f t k.
            or_unchanged-Ends (Settles s) t
              (update_fund t f.id (λ g. record g { target_cents = pos_part target }))
              Action.target_updated (λ x. audit-Settles s x Action.target_updated) k
              (λ u e. Settles-trans s t u k (update_fund-Settles t u f.id _ e))

module _ (before : Store → Store) (calm : (x : Store) → Settles x (before x)) where
  with_before : (s t : Store) → Settles s t → Settles s (before t)
  with_before s t h = Settles-trans s t (before t) h (calm t)

  module _ (during : Store → Store) (during_calm : (x : Store) → Settles x (during x)) where
    draw-Settles :
        (s t : Store) (f : Fund) (building : String) (n : ℕ) (reason : String)
        (expense_id : Option String)
        → Settles s t
        → Settles s (draw during t f building n reason expense_id).1
    unfolding draw
    draw-Settles s t f building n reason expense_id h =
        let later = Settles-trans s t (during t) h (during_calm t) in
        find-Ends (Settles s) (find (λ g. str_eq g.id f.id) t.funds) _ _ h λ g _.
          if-Ends (Settles s) (ltb g.balance_cents n) _ _ h λ _.
            or_unchanged-Ends (Settles s) (during t)
              (claim_draw (during t) f building n reason expense_id) Action.drawdown_created
              (λ x. audit-Settles s x Action.drawdown_created) later
              (λ u e.
                Settles-trans s (during t) u later
                  (claim_draw-Settles (during t) u f building n reason expense_id e))

    pub drawdown-Settles :
        (s : Store) (building : String) (amount : ℤ) (reason : String)
        (expense_id user : Option String) (new_id : String)
        → Settles s (drawdown before during s building amount reason expense_id user new_id).1
    unfolding drawdown
    drawdown-Settles s building amount reason expense_id user new_id =
        if-Ends (Settles s) (is_other_building user building) _ _ (Settles-refl s) λ _.
          if-Ends (Settles s) (leb_ℤ amount (pos 0)) _ _ (Settles-refl s) λ _.
            if-Ends (Settles s) (lacks_expense s building expense_id) _ _ (Settles-refl s) λ _.
              fund-Ends (Settles s) s building new_id _ (Settles-refl s)
                (λ p. fund-Settles s building new_id p)
                λ f t k. if-Ends (Settles s) (ltb f.balance_cents (pos_part amount)) _ _ k λ _.
                  draw-Settles s (before t) f building (pos_part amount) reason expense_id
                    (with_before s t k)

  module _ (locale_compare : String → String → ℤ) (others : ℕ → List LevyShare → List LevyShare)
      (others_calm : (n : ℕ) (t : List LevyShare) (id : String)
        → owed id (others n t) ≤ owed id t) where
    pub collect_levy-Settles :
        (s : Store) (building levy_id : String) (amount : ℤ) (user unit : Option String)
        (new_id : String)
        → Settles s
            (collect_levy locale_compare before others s building levy_id amount user unit new_id).1
    unfolding collect_levy
    collect_levy-Settles s building levy_id amount user unit new_id =
        if-Ends (Settles s) (is_other_building user building) _ _ (Settles-refl s) λ _.
          if-Ends (Settles s) (leb_ℤ amount (pos 0)) _ _ (Settles-refl s) λ _.
            fund-Ends (Settles s) s building new_id _ (Settles-refl s)
              (λ p. fund-Settles s building new_id p)
              λ f t k.
                or_unchanged-Ends (Settles s) (before t)
                  (collect locale_compare before others (before t) f building levy_id
                    (pos_part amount) unit)
                  Action.levy_collected (λ x. audit-Settles s x Action.levy_collected)
                  (with_before s t k)
                  (λ u e. Settles-trans s (before t) u (with_before s t k) (
                    collect-Settles locale_compare before others others_calm (before t) u f building
                      levy_id (pos_part amount) unit e))

    pub contribute-Settles :
        (s : Store) (building : String) (amount : ℤ) (source : Source)
        (levy_id user unit : Option String) (new_id : String)
        → Settles s
            (contribute locale_compare before others s building amount source levy_id user unit
              new_id).1
    unfolding contribute
    contribute-Settles s building amount source levy_id user unit new_id =
        if-Ends (Settles s) (is_other_building user building) _ _ (Settles-refl s) λ _.
          if-Ends (Settles s) (leb_ℤ amount (pos 0)) _ _ (Settles-refl s) λ _.
            elim (Bool-cases (is_from_levy locale_compare before others source)) [
              | inl e ↦
                  rw (contribute, e)
                    (if-Ends (Settles s) (is_unset levy_id) _ _ (Settles-refl s) λ _.
                      collect_levy-Settles s building (text_or_empty levy_id) amount user unit
                        new_id)
              | inr e ↦
                  rw (contribute, e)
                    (if-Ends (Settles s) (not (is_unset levy_id)) _ _ (Settles-refl s) λ _.
                      fund-Ends (Settles s) s building new_id _ (Settles-refl s)
                        (λ p. fund-Settles s building new_id p)
                        λ f t k.
                          or_unchanged-Ends (Settles s) (before t)
                            (add_contribution (before t) f building (pos_part amount) source none)
                            Action.contribution_created
                            (λ x. audit-Settles s x Action.contribution_created) (with_before s t k)
                            (λ u e. Settles-trans s (before t) u (with_before s t k) (
                              add_contribution-Settles (before t) u f building (pos_part amount)
                                source none e)))
            ]

set_status-Settles :
    (s : Store) (p : Levy → Bool) (status : LevyStatus)
    → ((l : Levy) → p l ≡ true → is_closed status ≡ true → owed l.id s.shares ≡ 0)
    → Settles s (with_levies s (update_many p (set_status status) s.levies))
set_status-Settles s p status k = record {
  kept = λ id h.
      rw (count-update_many (λ l. str_eq l.id id) p (set_status status) s.levies (λ l. refl)) h;
  less = λ id h. omega arith;
  closed_paid = λ h. update_many-All _ p (set_status status) s.levies (λ l t _ c. k l t c) h;
}

module _ (before during : Store → Store) (calm : (x : Store) → Settles x (before x))
    (during_calm : (x : Store) → Settles x (during x)) where
  claim_issue-Settles :
      (s t : Store) (building levy_id : String)
      → Settles s t
      → Settles s (claim_issue before during t building levy_id).1
  unfolding claim_issue
  claim_issue-Settles s t building levy_id h =
      elim (Bool-cases (count (can_issue levy_id building) t.levies == 0)) [
        | inl e ↦
            rw (claim_issue, e)
              (find-Ends (Settles s) (find (is_levy levy_id building) t.levies) _ _ h
                λ x _. if-Ends (Settles s) (is_issued x.status) _ _ h λ _. h)
        | inr e ↦
            rw (claim_issue, e)
              (audit-Settles s _ Action.levy_issued (
                Settles-trans s t _ h
                  (set_status-Settles t (can_issue levy_id building) issued (λ l _ c. cc))))
      ]

  pub issue_levy-Settles :
      (s : Store) (building levy_id : String) (user : Option String)
      → Settles s (issue_levy before during s building levy_id user).1
  unfolding issue_levy issue
  issue_levy-Settles s building levy_id user =
      if-Ends (Settles s) (is_other_building user building) _ _ (Settles-refl s) λ _.
        find-Ends (Settles s) (find (is_levy levy_id building) s.levies) _ _ (Settles-refl s) λ l _.
          if-Ends (Settles s) (not (is_draft l.status)) _ _ (Settles-refl s) λ _.
            find-Ends (Settles s) (find (is_levy levy_id building) (before s).levies) _ _ (calm s)
              λ k _. if-Ends (Settles s) (is_issued k.status) _ _ (calm s) λ _.
                if-Ends (Settles s) (not (is_draft k.status)) _ _ (calm s) λ _.
                  claim_issue-Settles s (during (before s)) building levy_id
                    (Settles-trans s (before s) _ (calm s) (during_calm (before s)))

  claim_close-Settles :
      (s t : Store) (building levy_id : String)
      → owed levy_id t.shares ≡ 0
      → Settles s t
      → Settles s (claim_close before during t building levy_id).1
  unfolding claim_close
  claim_close-Settles s t building levy_id none_owed h =
      elim (Bool-cases (count (can_close levy_id building) t.levies == 0)) [
        | inl e ↦
            rw (claim_close, e)
              (find-Ends (Settles s) (find (is_levy levy_id building) t.levies) _ _ h
                λ x _. if-Ends (Settles s) (is_closed x.status) _ _ h λ _. h)
        | inr e ↦
            rw (claim_close, e)
              (audit-Settles s _ Action.levy_closed (
                Settles-trans s t _ h (
                  set_status-Settles t (can_close levy_id building) closed (λ l c _.
                    ap (λ id. owed id t.shares) ((eq_iff l.id levy_id).0 (same_id l c))
                    ∙ none_owed))))
      ]
    where
      same_id : (l : Levy) → can_close levy_id building l ≡ true → str_eq l.id levy_id ≡ true
      same_id l h = ground arith

  pub close_levy-Settles :
      (s : Store) (building levy_id : String) (user : Option String)
      → Settles s (close_levy before during s building levy_id user).1
  unfolding close_levy
  close_levy-Settles s building levy_id user =
      if-Ends (Settles s) (is_other_building user building) _ _ (Settles-refl s) λ _.
        find-Ends (Settles s) (find (is_levy levy_id building) s.levies) _ _ (Settles-refl s) λ l e.
          if-Ends (Settles s) (is_closed l.status) _ _ (Settles-refl s) λ _.
            if-Ends (Settles s) (not (is_issued l.status)) _ _ (Settles-refl s) λ _.
              if-Ends (Settles s) (not (owed levy_id s.shares == 0)) _ _ (Settles-refl s) λ paid_up.
                claim_close-Settles s (during s) building levy_id
                  (still_none (owed levy_id s.shares) (owed levy_id (during s).shares) paid_up (
                    (during_calm s).less levy_id (
                      there (count (is_levy levy_id building) s.levies) (levies_with levy_id s)
                        (find-count (is_levy levy_id building) s.levies l e)
                        (count_mono (is_levy levy_id building) (λ k. str_eq k.id levy_id) s.levies
                          (λ k. levy_id_of k)))))
                  (during_calm s)
    where
      still_none : (n m : ℕ) → not (n == 0) ≡ false → m ≤ n → m ≡ 0
      still_none n m h k = ground arith

      there : (n m : ℕ) → (n == 0) ≡ false → n ≤ m → (m == 0) ≡ false
      there n m h k = ground arith

      levy_id_of : (k : Levy) → is_levy levy_id building k ≡ true → str_eq k.id levy_id ≡ true
      levy_id_of k h = ground arith
