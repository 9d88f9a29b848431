-- ===== src/Governance/Tests.antt =====
-- Votes and a quorum, run.
use koinoxrista.Prelude.{ℕ, ◌+◌, ◌≤◌, ◌<◌, ◌≡◌, refl, ◌↔◌, true, List, [], ◌∷◌, arith}
use koinoxrista.Prelude.Int.{pos}
use koinoxrista.Governance.Tally.{
  Choice, Threshold, Outcome, Ballot, count_ballot, count_ballots, abstain_millimes, outcome_of,
  tally_vote,
}
use koinoxrista.Governance.Tally.Decisions.{tally_counts, tally_passes}
use koinoxrista.Governance.Quorum.{quorum_of}
use koinoxrista.Governance.Quorum.Agreement.{quorum_agrees, quorum_shown}

abbrev ballot : Choice → ℕ → Ballot
ballot c m = record { choice = c; millimes = m }

abbrev ballots : List Ballot
ballots =
    ballot Choice.yes 400
    ∷ ballot Choice.no 150
    ∷ ballot Choice.abstain 100
    ∷ ballot Choice.yes 120
    ∷ []

run_tally :
    let t = tally_vote Threshold.millimes_majority ballots 5 1000 in
    (t.outcome ≡ Outcome.passed)
    × (t.quorum_met ≡ true)
    × (t.yes_millimes ≡ 520)
    × (t.abstain_count ≡ 1)
unfolding tally_vote outcome_of count_ballots count_ballot abstain_millimes
run_tally = (refl, refl, refl, refl)

run_quorum :
    quorum_of (pos 1000) (pos 770) Threshold.headcount
    ≡ record { quorum_met = true; present_permille = 770 }
unfolding quorum_of
run_quorum = refl

tally_counts_example :
    let t = tally_vote Threshold.headcount ballots 5 1000 in
    (t.yes_count + t.no_count + t.abstain_count ≡ 4) × ((t.quorum_met ≡ true) ↔ (1000 ≤ 1540))
tally_counts_example = tally_counts Threshold.headcount ballots 5 1000

tally_passes_example :
    ((tally_vote Threshold.millimes_majority ballots 5 1000).outcome ≡ Outcome.passed)
    ↔ (1000 < 1040)
tally_passes_example = tally_passes Threshold.millimes_majority ballots 5 1000

quorum_agrees_example :
    (quorum_of (pos 1000) (pos 770) Threshold.headcount).quorum_met
    ≡ (tally_vote Threshold.millimes_majority ballots 5 1000).quorum_met
quorum_agrees_example = quorum_agrees Threshold.millimes_majority Threshold.headcount ballots 5 1000

quorum_shown_example :
    let q = quorum_of (pos 1000) (pos 770) Threshold.headcount in
    (q.present_permille ≤ 1000) × ((q.quorum_met ≡ true) ↔ (500 ≤ q.present_permille))
quorum_shown_example = quorum_shown (pos 1000) (pos 770) Threshold.headcount (omega arith)
