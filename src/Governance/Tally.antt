-- ===== src/Governance/Tally.antt =====
-- Votes: apps/api/src/votes/tally-vote.ts.
pub mod Decisions
use koinoxrista.Prelude.{
  ℕ, zero, suc, ◌+◌, ◌-◌, ◌*◌, ◌/◌, ◌%◌, ◌^◌, ◌≤◌, ◌<◌, min, max, String, ◌≡◌, refl, sym, ap, ◌∙◌,
  ◌≢◌, ◌↔◌, ◌⊎◌, inl, inr, Bool, true, false, not, ◌&&◌, ◌||◌, Option, none, some, List, [], ◌∷◌,
  ◌++◌, map, arith, ltb, leb, ◌==◌, if◌then◌else◌, ltb→lt, lt→ltb, leb→le, ==_iff, ==_refl,
  Bool-cases, Option-cases, length, get_elem?, take, get_or, length-append, length-map, total,
  total-append, total_scale, All, filter, All-append, total_mono, any, all, any-false, all-true,
  sum, sum-map, Result, ok, err, ◌>>=◌, ◌>>◌, throw_if, throw_if-ok, >>=-eq-ok, ok-injective,
}
use koinoxrista.Prelude.Int.{
  ℤ, pos, negsuc, pos_part, neg_part, sub_ℕ, ◌+ℤ◌, ◌-ℤ◌, ◌≤ℤ◌, ltb_ℤ, leb_ℤ, min_ℤ, max_ℤ, int_laws,
  pos_part-eq, +ℤ_parts, -ℤ_parts, eq_of_parts,
}
use koinoxrista.Prelude.Sort.{insert, sort, total-sort, sort-All, IsSorted, sort-IsSorted}
use koinoxrista.Prelude.Tables.{
  find, count, update_many, update_many-none, count_mono, update_many-All, find-holds, find-only,
}
use text.Mathlib.Text.{◌==◌ as str_eq}
use text.Mathlib.TextEquality.{eq_iff}
use text.Mathlib.TextPositions.{eq_refl}

pub data Choice : Type 0 where
  yes no abstain : Choice

pub data Threshold : Type 0 where
  simple_majority millimes_majority headcount : Threshold

pub data Outcome : Type 0 where
  passed rejected : Outcome

pub record Ballot : Type 0 where
  pub choice : Choice
  pub millimes : ℕ

pub record Tally : Type 0 where
  pub yes_count : ℕ
  pub no_count : ℕ
  pub abstain_count : ℕ
  pub yes_millimes : ℕ
  pub no_millimes : ℕ
  pub total_millimes : ℕ
  pub quorum_met : Bool
  pub outcome : Outcome

-- The variables of the loop.
pub record Counts : Type 0 where
  pub yes_count : ℕ
  pub no_count : ℕ
  pub abstain_count : ℕ
  pub yes_millimes : ℕ
  pub no_millimes : ℕ

-- One round of the loop.
unfoldable pub count_ballot : Counts → Choice → ℕ → Counts
count_ballot c yes m = record c { yes_count = c.yes_count + 1; yes_millimes = c.yes_millimes + m }
count_ballot c no m = record c { no_count = c.no_count + 1; no_millimes = c.no_millimes + m }
count_ballot c abstain m = record c { abstain_count = c.abstain_count + 1 }

unfoldable pub count_ballots : Counts → List Ballot → Counts
count_ballots c [] = c
count_ballots c (b ∷ bs) = count_ballots (count_ballot c b.choice b.millimes) bs

abbrev pub is_abstain : Choice → Bool
is_abstain yes = false
is_abstain no = false
is_abstain abstain = true

-- The millimes of the abstentions.
unfoldable pub abstain_millimes : List Ballot → ℕ
abstain_millimes bs = total (λ b. b.millimes) (filter (λ b. is_abstain b.choice) bs)

unfoldable pub outcome_of : Threshold → Counts → ℕ → Outcome
outcome_of millimes_majority c all_millimes =
    if ltb all_millimes (c.yes_millimes * 2) then passed else rejected
outcome_of simple_majority c all_millimes =
    if ltb c.no_count c.yes_count && ltb 0 (c.yes_count + c.no_count) then passed else rejected
outcome_of headcount c all_millimes =
    if ltb c.no_count c.yes_count && ltb 0 (c.yes_count + c.no_count) then passed else rejected

abbrev pub no_ballots : Counts
no_ballots = record {
  yes_count = 0;
  no_count = 0;
  abstain_count = 0;
  yes_millimes = 0;
  no_millimes = 0;
}

-- `tallyVote`; it does not read the number of eligible units.
unfoldable pub tally_vote : Threshold → List Ballot → ℕ → ℕ → Tally
tally_vote threshold ballots eligible_units all_millimes =
    let c = count_ballots no_ballots ballots in
    let participation = c.yes_millimes + c.no_millimes + abstain_millimes ballots in
    record {
      yes_count = c.yes_count;
      no_count = c.no_count;
      abstain_count = c.abstain_count;
      yes_millimes = c.yes_millimes;
      no_millimes = c.no_millimes;
      total_millimes = all_millimes;
      quorum_met = leb all_millimes (participation * 2);
      outcome = outcome_of threshold c all_millimes;
    }
