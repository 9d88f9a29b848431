-- ===== src/Reserve/Requests.antt =====
-- The requests of apps/api/src/reserve/reserve.controller.ts, one after the other and beside each
-- other. Whole runs of other requests may be committed at two places: `before` the transaction of a
-- contribution, a collection, a drawdown or an issue, and `during` a drawdown, an issue or a
-- closing, between its check and its update. All other statements of a request stand together here;
-- Collect/Within.antt has what others do between the statements of a collection's loop.
use koinoxrista.Prelude.{◌≤◌, String, ◌≡◌, false, Option, List, arith, ◌==◌}
use koinoxrista.Prelude.Int.{ℤ}
use koinoxrista.Allocation.Float.{Float}
use koinoxrista.Allocation.Weights.{Area, Strategy, AllocatableUnit}
use koinoxrista.Reserve.Store.{Source, Store}
use koinoxrista.Reserve.Sound.{IsSound}
use koinoxrista.Reserve.Fund.{open_fund, update_target, drawdown}
use koinoxrista.Reserve.Fund.Books.{open_fund-IsSound, update_target-IsSound, drawdown-IsSound}
use koinoxrista.Reserve.Collect.{collect_levy, contribute}
use koinoxrista.Reserve.Collect.Books.{alone, collect_levy-IsSound, contribute-IsSound}
use koinoxrista.Reserve.Levy.{CustomWeight, create_levy, issue_levy, close_levy, owed}
use koinoxrista.Reserve.Levy.Books.{create_levy-IsSound, issue_levy-IsSound, close_levy-IsSound}
use koinoxrista.Reserve.Levy.Settled.{IsSettled, Settles, Settles-refl, Settles-trans, levies_with}
use koinoxrista.Reserve.Levy.Kept.{
  open_fund-Settles, create_levy-Settles, update_target-Settles, drawdown-Settles,
  collect_levy-Settles, contribute-Settles, issue_levy-Settles, close_levy-Settles,
}

module _ (area : Area) where
  -- The calls that change something.
  pub data Request : Type 0 where
    opening : (building : String) (user : Option String) (new_id : String) → Request
    target : (building : String) (cents : ℤ) (user : Option String) (new_id : String) → Request
    contribution :
        (building : String) (amount : ℤ) (source : Source) (levy_id user unit : Option String)
        (new_id : String)
        → Request
    collection :
        (building levy_id : String) (amount : ℤ) (user unit : Option String) (new_id : String)
        → Request
    draw_down :
        (building : String) (amount : ℤ) (reason : String) (expense_id user : Option String)
        (new_id : String)
        → Request
    creation :
        (building title : String) (amount : ℤ) (strategy : Strategy) (custom : List CustomWeight)
        (vote_id user : Option String) (us : List (AllocatableUnit area)) (new_id : String)
        (share_id : String → String)
        → Request
    issuing closing : (building levy_id : String) (user : Option String) → Request

  module _ (f : Float) (trim : String → String) (locale_compare : String → String → ℤ) where
    -- The tables after a request.
    unfoldable pub serve : (before during : Store → Store) → Request → Store → Store
    serve before during (opening building user new_id) s = (open_fund s building user new_id).1
    serve before during (target building cents user new_id) s =
        (update_target s building cents user new_id).1
    serve before during (contribution building amount source levy_id user unit new_id) s =
        (contribute locale_compare before alone s building amount source levy_id user unit new_id).1
    serve before during (collection building levy_id amount user unit new_id) s =
        (collect_levy locale_compare before alone s building levy_id amount user unit new_id).1
    serve before during (draw_down building amount reason expense_id user new_id) s =
        (drawdown before during s building amount reason expense_id user new_id).1
    serve before during
          (creation building title amount strategy custom vote_id user us new_id share_id) s =
        (create_levy area f trim s building title amount strategy custom vote_id user us new_id
          share_id).1
    serve before during (issuing building levy_id user) s =
        (issue_levy before during s building levy_id user).1
    serve before during (closing building levy_id user) s =
        (close_levy before during s building levy_id user).1

    -- The tables that requests lead to from given ones.
    pub data Reaches : Store → Store → Type 0 where
      stay : {s : Store} → Reaches s s
      after :
          {s t : Store} (run : Reaches s t) (request : Request) (before during : Store → Store)
          (first : (x : Store) → Reaches x (before x)) (then_ : (x : Store) → Reaches x (during x))
          → Reaches s (serve before during request t)

    serve-IsSound :
        (before during : Store → Store) (r : Request) (s : Store)
        → ((x : Store) → IsSound x → IsSound (before x))
        → ((x : Store) → IsSound x → IsSound (during x))
        → IsSound s
        → IsSound (serve before during r s)
    unfolding serve
    serve-IsSound before during (opening building user new_id) s b d h =
        open_fund-IsSound s building user new_id h
    serve-IsSound before during (target building cents user new_id) s b d h =
        update_target-IsSound s building cents user new_id h
    serve-IsSound before during (contribution building amount source levy_id user unit new_id) s b d
          h =
        contribute-IsSound locale_compare before b s building amount source levy_id user unit new_id
          h
    serve-IsSound before during (collection building levy_id amount user unit new_id) s b d h =
        collect_levy-IsSound locale_compare before b s building levy_id amount user unit new_id h
    serve-IsSound before during (draw_down building amount reason expense_id user new_id) s b d h =
        drawdown-IsSound before during b d s building amount reason expense_id user new_id h
    serve-IsSound before during
          (creation building title amount strategy custom vote_id user us new_id share_id) s b d h =
        create_levy-IsSound area f trim s building title amount strategy custom vote_id user us
          new_id share_id h
    serve-IsSound before during (issuing building levy_id user) s b d h =
        issue_levy-IsSound before during b d s building levy_id user h
    serve-IsSound before during (closing building levy_id user) s b d h =
        close_levy-IsSound before during b d s building levy_id user h

    -- Requests run one after the other, and whole runs of other requests may be committed before
    -- the transaction of a contribution, a collection, a drawdown or an issue, and between the check
    -- and the update of a drawdown, an issue or a closing; all other statements of a request stand
    -- together, those of a collection's loop among them. However they run, sound tables stay
    -- sound: the funds hold what was contributed and not drawn, the contributions for levies are
    -- what the shares record as paid, no share is paid beyond its amount, and ids stay unique.
    pub Reaches-IsSound : (s t : Store) → Reaches s t → IsSound s → IsSound t
    Reaches-IsSound s _ stay h = h
    Reaches-IsSound s _ (after {t} run request before during first then_) h =
        serve-IsSound before during request t (λ x. Reaches-IsSound x (before x) (first x))
          (λ x. Reaches-IsSound x (during x) (then_ x)) (Reaches-IsSound s t run h)

    serve-Settles :
        (before during : Store → Store) (r : Request) (s : Store)
        → ((x : Store) → Settles x (before x))
        → ((x : Store) → Settles x (during x))
        → Settles s (serve before during r s)
    unfolding serve
    serve-Settles before during (opening building user new_id) s b d =
        open_fund-Settles s building user new_id
    serve-Settles before during (target building cents user new_id) s b d =
        update_target-Settles s building cents user new_id
    serve-Settles before during (contribution building amount source levy_id user unit new_id) s b
          d =
        contribute-Settles before b locale_compare alone (λ n t id. omega arith) s building amount
          source levy_id user unit new_id
    serve-Settles before during (collection building levy_id amount user unit new_id) s b d =
        collect_levy-Settles before b locale_compare alone (λ n t id. omega arith) s building
          levy_id amount user unit new_id
    serve-Settles before during (draw_down building amount reason expense_id user new_id) s b d =
        drawdown-Settles before b during d s building amount reason expense_id user new_id
    serve-Settles before during
          (creation building title amount strategy custom vote_id user us new_id share_id) s b d =
        create_levy-Settles area f trim s building title amount strategy custom vote_id user us
          new_id share_id
    serve-Settles before during (issuing building levy_id user) s b d =
        issue_levy-Settles before during b d s building levy_id user
    serve-Settles before during (closing building levy_id user) s b d =
        close_levy-Settles before during b d s building levy_id user

    Reaches-Settles : (s t : Store) → Reaches s t → Settles s t
    Reaches-Settles s _ stay = Settles-refl s
    Reaches-Settles s _ (after {t} run request before during first then_) =
        Settles-trans s t _ (Reaches-Settles s t run) (
          serve-Settles before during request t (λ x. Reaches-Settles x (before x) (first x))
            (λ x. Reaches-Settles x (during x) (then_ x)))

    -- Requests run one after the other, and whole runs of other requests may be committed before
    -- the transaction of a contribution, a collection, a drawdown or an issue, and between the check
    -- and the update of a drawdown, an issue or a closing; all other statements of a request stand
    -- together, those of a collection's loop among them. However they run, what an existing
    -- levy is still owed does not grow, and where every closed levy was paid in full, every closed
    -- levy still is.
    pub Reaches-IsSettled :
        (s t : Store) (id : String)
        → Reaches s t
        → IsSettled s
        → (levies_with id s == 0) ≡ false
        → (owed id t.shares ≤ owed id s.shares) × IsSettled t
    Reaches-IsSettled s t id run h there =
        let k = Reaches-Settles s t run in (k.less id there, k.closed_paid h)
