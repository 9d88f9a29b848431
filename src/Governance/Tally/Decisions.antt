-- ===== src/Governance/Tally/Decisions.antt =====
-- The counts and the outcome of tallyVote, apps/api/src/votes/tally-vote.ts.
use koinoxrista.Prelude.{
  ℕ, ◌+◌, ◌*◌, ◌≤◌, ◌<◌, ◌≡◌, refl, ◌↔◌, ◌⊎◌, inl, inr, true, List, [], ◌∷◌, map, arith, length,
  total,
}
use koinoxrista.Governance.Tally.{
  Choice, yes, no, abstain, Threshold, simple_majority, millimes_majority, headcount, Outcome,
  passed, rejected, Ballot, Counts, count_ballot, count_ballots, abstain_millimes, outcome_of,
  no_ballots, tally_vote,
}

-- The weight that a ballot adds to one side.
abbrev pub yes_weight : Ballot → ℕ
yes_weight b = elim b.choice [ yes ↦ b.millimes | no ↦ 0 | abstain ↦ 0 ]

abbrev pub no_weight : Ballot → ℕ
no_weight b = elim b.choice [ yes ↦ 0 | no ↦ b.millimes | abstain ↦ 0 ]

abbrev pub one_if_yes : Ballot → ℕ
one_if_yes b = elim b.choice [ yes ↦ 1 | no ↦ 0 | abstain ↦ 0 ]

abbrev pub one_if_no : Ballot → ℕ
one_if_no b = elim b.choice [ yes ↦ 0 | no ↦ 1 | abstain ↦ 0 ]

abbrev pub one_if_abstain : Ballot → ℕ
one_if_abstain b = elim b.choice [ yes ↦ 0 | no ↦ 0 | abstain ↦ 1 ]

-- The counts after the loop, each with its own sum.
abbrev pub Adds : Counts → Counts → List Ballot → Type 0
Adds c d bs =
    (d.yes_count ≡ c.yes_count + total one_if_yes bs)
    × (d.no_count ≡ c.no_count + total one_if_no bs)
    × (d.abstain_count ≡ c.abstain_count + total one_if_abstain bs)
    × (d.yes_millimes ≡ c.yes_millimes + total yes_weight bs)
    × (d.no_millimes ≡ c.no_millimes + total no_weight bs)

count_ballot-Adds :
    (c d : Counts) (x : Choice) (m : ℕ) (bs : List Ballot)
    → Adds (count_ballot c x m) d bs
    → Adds c d (record { choice = x; millimes = m } ∷ bs)
unfolding count_ballot
count_ballot-Adds c d yes m bs h =
    (omega (arith, h), omega (arith, h), omega (arith, h), omega (arith, h), omega (arith, h))
count_ballot-Adds c d no m bs h =
    (omega (arith, h), omega (arith, h), omega (arith, h), omega (arith, h), omega (arith, h))
count_ballot-Adds c d abstain m bs h =
    (omega (arith, h), omega (arith, h), omega (arith, h), omega (arith, h), omega (arith, h))

pub count_ballots-Adds : (c : Counts) (bs : List Ballot) → Adds c (count_ballots c bs) bs
unfolding count_ballots
count_ballots-Adds c [] = (omega arith, omega arith, omega arith, omega arith, omega arith)
count_ballots-Adds c (b ∷ bs) =
    count_ballot-Adds c (count_ballots (count_ballot c b.choice b.millimes) bs) b.choice b.millimes
      bs (count_ballots-Adds (count_ballot c b.choice b.millimes) bs)

abbrev pub weight : Ballot → ℕ
weight b = b.millimes

-- The sides and the abstentions share the millimes of the ballots, and the ballots.
sides_weigh :
    (bs : List Ballot)
    → total yes_weight bs + total no_weight bs + abstain_millimes bs ≡ total weight bs
unfolding abstain_millimes
sides_weigh [] = refl
sides_weigh (b ∷ bs) = ground (arith, sides_weigh bs)

sides_count :
    (bs : List Ballot)
    → total one_if_yes bs + total one_if_no bs + total one_if_abstain bs ≡ length bs
sides_count [] = refl
sides_count (b ∷ bs) = ground (arith, sides_count bs)

-- Every ballot is counted on one side: the three counts add up to the number of ballots, and the
-- quorum is met exactly when the millimes of all ballots, abstentions included, are at least half
-- of the building's.
pub tally_counts :
    (threshold : Threshold) (bs : List Ballot) (eligible all_millimes : ℕ)
    → let t = tally_vote threshold bs eligible all_millimes in
      (t.yes_count + t.no_count + t.abstain_count ≡ length bs)
      × ((t.quorum_met ≡ true) ↔ (all_millimes ≤ total weight bs * 2))
unfolding tally_vote
tally_counts threshold bs eligible all_millimes = (
  omega (arith, count_ballots-Adds no_ballots bs, sides_count bs),
  ground (arith, count_ballots-Adds no_ballots bs, sides_weigh bs),
)

-- What a motion needs.
abbrev pub Wins : Threshold → List Ballot → ℕ → Type 0
Wins millimes_majority bs all_millimes = all_millimes < total yes_weight bs * 2
Wins simple_majority bs all_millimes = total one_if_no bs < total one_if_yes bs
Wins headcount bs all_millimes = total one_if_no bs < total one_if_yes bs

-- A vote by millimes passes exactly when YES holds more than half of the building's millimes, any
-- other when there are more YES than NO ballots.
pub tally_passes :
    (threshold : Threshold) (bs : List Ballot) (eligible all_millimes : ℕ)
    → ((tally_vote threshold bs eligible all_millimes).outcome ≡ passed)
      ↔ Wins threshold bs all_millimes
unfolding tally_vote outcome_of
tally_passes millimes_majority bs eligible all_millimes =
    ground (arith, count_ballots-Adds no_ballots bs)
tally_passes simple_majority bs eligible all_millimes =
    ground (arith, count_ballots-Adds no_ballots bs)
tally_passes headcount bs eligible all_millimes = ground (arith, count_ballots-Adds no_ballots bs)

-- The ballot of an owner who wants the opposite.
abbrev pub opposite : Ballot → Ballot
opposite b = record b { choice = elim b.choice [ yes ↦ no | no ↦ yes | abstain ↦ abstain ] }

opposite-yes_weight : (bs : List Ballot) → total yes_weight (map opposite bs) ≡ total no_weight bs
opposite-yes_weight [] = refl
opposite-yes_weight (b ∷ bs) = ground (arith, opposite-yes_weight bs)

opposite_yes : (bs : List Ballot) → total one_if_yes (map opposite bs) ≡ total one_if_no bs
opposite_yes [] = refl
opposite_yes (b ∷ bs) = ground (arith, opposite_yes bs)

opposite_no : (bs : List Ballot) → total one_if_no (map opposite bs) ≡ total one_if_yes bs
opposite_no [] = refl
opposite_no (b ∷ bs) = ground (arith, opposite_no bs)

opposite-Wins :
    (threshold : Threshold) (bs : List Ballot) (all_millimes : ℕ)
    → total weight bs ≤ all_millimes
    → Wins threshold bs all_millimes
    → Wins threshold (map opposite bs) all_millimes
    → ⊥
opposite-Wins millimes_majority bs all_millimes h w w' =
    omega (arith, sides_weigh bs, opposite-yes_weight bs)
opposite-Wins simple_majority bs all_millimes h w w' =
    omega (arith, opposite_yes bs, opposite_no bs)
opposite-Wins headcount bs all_millimes h w w' = omega (arith, opposite_yes bs, opposite_no bs)

-- Where the ballots hold no more millimes than the building, a motion and its opposite, on which
-- every owner votes the other way, do not both pass.
pub tally_exclusive :
    (threshold : Threshold) (bs : List Ballot) (eligible all_millimes : ℕ)
    → total weight bs ≤ all_millimes
    → (tally_vote threshold bs eligible all_millimes).outcome ≡ passed
    → (tally_vote threshold (map opposite bs) eligible all_millimes).outcome ≡ rejected
tally_exclusive threshold bs eligible all_millimes h won =
    elim (decided (tally_vote threshold (map opposite bs) eligible all_millimes).outcome) [
      | inl e ↦ absurd (
          opposite-Wins threshold bs all_millimes h
            ((tally_passes threshold bs eligible all_millimes).0 won)
            ((tally_passes threshold (map opposite bs) eligible all_millimes).0 e))
      | inr e ↦ e
    ]
  where
    decided : (o : Outcome) → (o ≡ passed) ⊎ (o ≡ rejected)
    decided passed = inl refl
    decided rejected = inr refl
