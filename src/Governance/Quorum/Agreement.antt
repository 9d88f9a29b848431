-- ===== src/Governance/Quorum/Agreement.antt =====
-- quorumOf of apps/api/src/assembly/quorum.ts beside tallyVote of apps/api/src/votes/tally-vote.ts.
use koinoxrista.Prelude.{ℕ, ◌*◌, ◌/◌, ◌≤◌, ◌<◌, min, ◌≡◌, ◌↔◌, true, List, arith, total}
use koinoxrista.Prelude.Int.{ℤ, pos, pos_part, ◌≤ℤ◌}
use koinoxrista.Governance.Tally.{Ballot, Threshold, tally_vote}
use koinoxrista.Governance.Tally.Decisions.{weight, tally_counts}
use koinoxrista.Governance.Quorum.{quorum_of}

-- Over the millimes of the ballots as attendance, the live meter reports a quorum exactly when the
-- final tally does, whatever the threshold of either.
pub quorum_agrees :
    (threshold meter : Threshold) (bs : List Ballot) (eligible all_millimes : ℕ)
    → (quorum_of (pos all_millimes) (pos (total weight bs)) meter).quorum_met
      ≡ (tally_vote threshold bs eligible all_millimes).quorum_met
unfolding quorum_of
quorum_agrees threshold meter bs eligible all_millimes =
    ground (arith, (tally_counts threshold bs eligible all_millimes).1)

permille_below : (p t : ℕ) → 0 < t → p ≤ t → p * 1000 / t ≤ 1000
permille_below p t h k = grind arith

permille_half : (p t : ℕ) → 0 < t → (t ≤ p * 2) ↔ (500 ≤ p * 1000 / t)
permille_half p t h = (λ k. grind arith, λ k. grind arith)

-- The share that is shown lies between 0 and 1000, and for a building with millimes the quorum is
-- met exactly when at least 500 is shown.
pub quorum_shown :
    (all_millimes present : ℤ) (threshold : Threshold)
    → pos 1 ≤ℤ all_millimes
    → let q = quorum_of all_millimes present threshold in
      (q.present_permille ≤ 1000) × ((q.quorum_met ≡ true) ↔ (500 ≤ q.present_permille))
unfolding quorum_of
quorum_shown all_millimes present threshold h = ground (
  arith,
  permille_below (min (pos_part present) (pos_part all_millimes)) (pos_part all_millimes),
  permille_half (min (pos_part present) (pos_part all_millimes)) (pos_part all_millimes),
)
