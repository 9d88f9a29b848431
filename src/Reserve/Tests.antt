-- ===== src/Reserve/Tests.antt =====
-- Runs of the reserve fund and of its levies, with exact fractions for the doubles.
use koinoxrista.Prelude.{
  ℕ, ◌≤◌, String, ◌≡◌, refl, ap, true, false, none, some, List, [], ◌∷◌, ◌++◌, map, arith, ltb,
  total, All, ok, err,
}
use koinoxrista.Prelude.Int.{ℤ, pos, negsuc}
use koinoxrista.Prelude.Sort.{sort}
use koinoxrista.Prelude.Tables.{update_many, update_many-All}
use text.Mathlib.Text.{◌==◌ as str_eq}
use mathlib.Core.Path.{subst}
use koinoxrista.Allocation.Float.{exact, exact-IsAccurate}
use koinoxrista.Allocation.Weights.{Area, Strategy, AllocatableUnit}
use koinoxrista.Allocation.Split.{SplitInput, split_by_largest_remainder}
use koinoxrista.Allocation.Split.Exact.{Fits}
use koinoxrista.Reserve.Store.{
  LevyStatus, draft, issued, closed, LevyShare, Levy, Store, ReserveError, Action, levy,
}
use koinoxrista.Reserve.Sound.{IsSound}
use koinoxrista.Fees.Charges.{is_other_building}
use koinoxrista.Reserve.Fund.{
  drawdown, claim_draw, draw, get_or_create_fund, update_fund, add_contribution,
}
use koinoxrista.Reserve.Collect.{
  collect_levy, contribute, collect, collect_shares, collect_from, round, take_share, retry_share,
  pay_share,
}
use koinoxrista.Reserve.Collect.Within.{IsLimited, collect_within}
use koinoxrista.Reserve.Levy.{
  levy_weights, new_levy, plan_levy, insert_levy, claim_close, claim_issue, issue, create_levy,
  issue_levy, close_levy, owed,
}
use koinoxrista.Reserve.Levy.Settled.{IsSettled}
use koinoxrista.Reserve.Levy.Shares.{
  create_levy_shares, issue_levy_again, close_levy_again, at_once,
}
use koinoxrista.Reserve.Requests.{Request, serve, Reaches, Reaches-IsSound, Reaches-IsSettled}

abbrev whole : Area
whole = record { Meters = ℕ; hundredths = λ n. pos n; is_positive = λ n. ltb 0 n }

abbrev flat : String → ℕ → AllocatableUnit whole
flat i m = record {
  id = i;
  millimes = pos m;
  floor = none;
  radiator_count = none;
  square_meters = none;
  share_fraction = none;
}

abbrev flats : List (AllocatableUnit whole)
flats = flat "a" 600 ∷ flat "b" 400 ∷ []

abbrev empty : Store
empty = record {
  funds = [];
  contributions = [];
  drawdowns = [];
  levies = [];
  shares = [];
  expenses = [];
  audits = [];
}

abbrev roof : LevyStatus → Levy
roof status = record {
  id = "l";
  building_id = "B";
  title = "roof";
  total_cents = 101;
  strategy = Strategy.units;
  status = status;
  vote_id = none;
}

abbrev share : String → String → ℕ → ℕ → LevyShare
share id unit n paid_cents = record {
  id = id;
  levy_id = "l";
  unit_id = unit;
  amount_cents = n;
  paid_cents = paid_cents;
}

abbrev created : Store
created = record {
  funds = [];
  contributions = [];
  drawdowns = [];
  levies = roof draft ∷ [];
  shares = share "a1" "a" 51 0 ∷ share "b1" "b" 50 0 ∷ [];
  expenses = [];
  audits = Action.levy_created ∷ [];
}

abbrev share_ids : String → String
share_ids u = elim (str_eq u "a") [ true ↦ "a1" | false ↦ "b1" ]

abbrev same_text : String → String
same_text t = t

-- The order of two one-letter names.
abbrev compare_names : String → String → ℤ
compare_names x y = elim (str_eq x y) [
  | true ↦ pos 0
  | false ↦ elim (str_eq x "a") [ true ↦ negsuc 0 | false ↦ pos 1 ]
]

run_creation :
    create_levy whole exact same_text empty "B" "roof"
      (pos 101)
      Strategy.units
      []
      none
      (some "B")
      flats
      "l"
      share_ids
    ≡ (ok tt, created)
unfolding create_levy is_other_building plan_levy levy_weights split_by_largest_remainder
    insert_levy
run_creation = refl

abbrev ones : List SplitInput
ones = record { id = "a"; weight = 1 } ∷ record { id = "b"; weight = 1 } ∷ []

run_weights : levy_weights whole exact same_text flats Strategy.units [] ≡ ok ones
unfolding levy_weights
run_weights = refl

abbrev fits : Fits 101 ones
fits = omega arith

create_levy_shares_example :
    (created.levies ≡ new_levy whole exact same_text "l" "B" "roof" 101 Strategy.units none ∷ [])
    × (hs : List LevyShare) × (created.shares ≡ [] ++ hs)
    × (total (λ h. h.amount_cents) hs ≡ 101)
    × (map (λ h. h.unit_id) hs ≡ map (λ w. w.id) ones)
    × All (λ h. (h.levy_id ≡ "l") × (h.paid_cents ≡ 0)) hs
create_levy_shares_example =
    create_levy_shares whole exact same_text empty created "B" "roof" 101 Strategy.units [] none
      (some "B") flats "l" share_ids ones exact-IsAccurate run_weights fits run_creation

abbrev Requests : Type 0
Requests = Request whole

abbrev make : Requests
make = Request.creation "B" "roof" (pos 101) Strategy.units [] none (some "B") flats "l" share_ids

abbrev issue_it : Requests
issue_it = Request.issuing "B" "l" (some "B")

abbrev pay_all : Requests
pay_all = Request.contribution "B" (pos 101) levy (some "l") (some "B") none "f"

abbrev spend : Requests
spend = Request.draw_down "B" (pos 40) "paint" none (some "B") "g"

abbrev close_it : Requests
close_it = Request.closing "B" "l" (some "B")

abbrev handle : Requests → Store → Store
handle = serve whole exact same_text compare_names at_once at_once

abbrev finished : Store
finished = record {
  funds = record { id = "f"; building_id = "B"; target_cents = 0; balance_cents = 61 } ∷ [];
  contributions =
      record {
        fund_id = "f";
        building_id = "B";
        amount_cents = 101;
        source = levy;
        levy_id = some "l";
      }
      ∷ [];
  drawdowns =
      record {
        fund_id = "f";
        building_id = "B";
        amount_cents = 40;
        reason = "paint";
        expense_id = none;
      }
      ∷ [];
  levies = roof closed ∷ [];
  shares = share "a1" "a" 51 51 ∷ share "b1" "b" 50 50 ∷ [];
  expenses = [];
  audits =
      Action.levy_closed ∷ Action.drawdown_created ∷ Action.levy_collected ∷ Action.levy_issued
      ∷ Action.levy_created ∷ [];
}

run_all : handle close_it (handle spend (handle pay_all (handle issue_it created))) ≡ finished
unfolding serve close_levy is_other_building drawdown get_or_create_fund contribute collect_levy
    issue_levy create_levy plan_levy levy_weights split_by_largest_remainder insert_levy issue
    claim_issue collect collect_shares collect_from pay_share round take_share add_contribution
    claim_draw draw update_fund claim_close
run_all = refl

empty-IsSound : IsSound empty
empty-IsSound = record {
  books = refl;
  receivables = refl;
  within = tt;
  unique_funds = λ k. omega arith;
  unique_shares = λ k. omega arith;
}

abbrev Runs : Store → Store → Type 0
Runs = Reaches whole exact same_text compare_names

-- A reserve target that another request sets while one runs.
abbrev aside : Store → Store
aside = handle (Request.target "B" (pos 500) (some "B") "f")

aside-Runs : (x : Store) → Runs x (aside x)
aside-Runs x =
    Reaches.after Reaches.stay (Request.target "B" (pos 500) (some "B") "f") at_once at_once
      (λ y. Reaches.stay) (λ y. Reaches.stay)

alone-Runs : (x : Store) → Runs x (at_once x)
alone-Runs x = Reaches.stay

then-Runs : (s t : Store) (r : Requests) → Runs s t → Runs s (handle r t)
then-Runs s t r run = Reaches.after run r at_once at_once alone-Runs alone-Runs

crowded-Runs : Runs empty (serve whole exact same_text compare_names aside aside issue_it created)
unfolding create_levy serve
crowded-Runs =
    Reaches.after
      (subst (Runs empty) (ap (λ p. p.1) run_creation) (then-Runs empty empty make Reaches.stay))
      issue_it aside aside aside-Runs aside-Runs

all-Runs : Runs created finished
all-Runs = subst (Runs created) run_all (
    then-Runs created _ close_it (
      then-Runs created _ spend
        (then-Runs created _ pay_all (then-Runs created created issue_it Reaches.stay))))

Reaches-IsSound_example :
    IsSound (serve whole exact same_text compare_names aside aside issue_it created)
Reaches-IsSound_example =
    Reaches-IsSound whole exact same_text compare_names empty
      (serve whole exact same_text compare_names aside aside issue_it created) crowded-Runs
      empty-IsSound

created-IsSettled : IsSettled created
created-IsSettled = ((λ c. cc), tt)

Reaches-IsSettled_example :
    (owed "l" finished.shares ≤ owed "l" created.shares) × IsSettled finished
Reaches-IsSettled_example =
    Reaches-IsSettled whole exact same_text compare_names created finished "l" all-Runs
      created-IsSettled refl

abbrev limits : String → ℕ
limits id = elim (str_eq id "a1") [ true ↦ 51 | false ↦ 50 ]

-- Another request pays the first share before each statement.
abbrev pay_first : ℕ → List LevyShare → List LevyShare
pay_first n t =
    update_many (λ h. str_eq h.id "a1") (λ h. record h { paid_cents = h.amount_cents }) t

pay_first-IsLimited :
    (n : ℕ) (t : List LevyShare) → All (IsLimited limits) t → All (IsLimited limits) (pay_first n t)
pay_first-IsLimited n t h =
    update_many-All (IsLimited limits) (λ x. str_eq x.id "a1")
      (λ x. record x { paid_cents = x.amount_cents }) t (λ x _ w. (omega arith, w.1)) h

abbrev issued_roof : Store
issued_roof = record created { levies = roof issued ∷ [] }

collect_within_example :
    All
      (IsLimited limits)
      (collect_levy compare_names at_once pay_first issued_roof "B" "l"
        (pos 50)
        (some "B")
        none
        "f").1.shares
collect_within_example =
    collect_within limits compare_names at_once pay_first issued_roof "B" "l" (pos 50) (some "B")
      none "f" (λ x h. h) pay_first-IsLimited ((omega arith, refl), ((omega arith, refl), tt))

run_collect_beside :
    map
      (λ h. h.paid_cents)
      (collect_levy compare_names at_once pay_first issued_roof "B" "l"
        (pos 50)
        (some "B")
        none
        "f").1.shares
    ≡ 51 ∷ 50 ∷ []
unfolding collect_levy is_other_building get_or_create_fund collect collect_shares collect_from
    pay_share retry_share round take_share add_contribution update_fund sort
run_collect_beside = refl

abbrev closed_roof : Store
closed_roof = record finished { audits = Action.levy_closed ∷ [] }

abbrev paid_roof : Store
paid_roof = record finished { levies = roof issued ∷ []; audits = [] }

run_closing : close_levy at_once at_once paid_roof "B" "l" (some "B") ≡ (ok tt, closed_roof)
unfolding close_levy is_other_building claim_close
run_closing = refl

close_levy_again_example :
    close_levy at_once at_once closed_roof "B" "l" (some "B") ≡ (ok tt, closed_roof)
close_levy_again_example = close_levy_again paid_roof closed_roof "B" "l" (some "B") run_closing

run_issuing :
    issue_levy at_once at_once created "B" "l" (some "B")
    ≡ (ok tt, record issued_roof { audits = Action.levy_issued ∷ Action.levy_created ∷ [] })
unfolding issue_levy issue is_other_building claim_issue
run_issuing = refl

issue_levy_again_example :
    issue_levy at_once at_once
      (record issued_roof { audits = Action.levy_issued ∷ Action.levy_created ∷ [] })
      "B"
      "l"
      (some "B")
    ≡ (
      err ReserveError.not_draft,
      record issued_roof { audits = Action.levy_issued ∷ Action.levy_created ∷ [] },
    )
issue_levy_again_example =
    issue_levy_again created
      (record issued_roof { audits = Action.levy_issued ∷ Action.levy_created ∷ [] }) "B" "l"
      (some "B") run_issuing
