-- ===== src/Bank/Matching/Greedy.antt =====
-- The greedy choice of suggestMatches, apps/api/src/bank-import/match-bank-payments.ts.
use koinoxrista.Prelude.{
  ℕ, ◌+◌, ◌≤◌, ◌≡◌, refl, sym, ap, inl, inr, Bool, true, false, ◌&&◌, ◌||◌, some, List, [], ◌∷◌,
  ◌++◌, map, arith, ◌==◌, if◌then◌else◌, Bool-cases, length, get_elem?, length-append, total, All,
  All-append, any,
}
use koinoxrista.Prelude.Int.{ℤ, pos, ◌≤ℤ◌, leb_ℤ, eq_of_parts}
use koinoxrista.Prelude.Sort.{sort, sort-All}
use mathlib.Core.Path.{subst}
use koinoxrista.Bank.Matching.{
  PendingPayment, BankRow, Candidate, TextOps, candidates, row_candidates, before, choose,
  suggestion, row_before, suggest_matches, eq_ℤ, currencies_match,
}

abbrev one_if : Bool → ℕ
one_if b = if b then 1 else 0

-- How many candidates have a row, and how many a payment.
abbrev pub on_row : ℕ → Candidate → ℕ
on_row i c = one_if (c.row_index == i)

abbrev pub on_payment : ℕ → Candidate → ℕ
on_payment j c = one_if (c.payment_index == j)

any_same : (a i : ℕ) (ks : List ℕ) → a ≡ i → any (λ k. k == a) ks ≡ any (λ k. k == i) ks
any_same a i ks h = rw h refl

-- A row that is taken gets no candidate, any other at most one; so for the payments.
choose_once :
    (rows payments : List ℕ) (cs : List Candidate) (i : ℕ)
    → total (on_row i) (choose rows payments cs) + one_if (any (λ k. k == i) rows) ≤ 1
unfolding choose
choose_once rows payments [] i = ground arith
choose_once rows payments (c ∷ cs) i = ground (
  arith,
  any_same c.row_index i rows,
  choose_once rows payments cs i,
  choose_once (c.row_index ∷ rows) (c.payment_index ∷ payments) cs i,
)

choose_once_payment :
    (rows payments : List ℕ) (cs : List Candidate) (j : ℕ)
    → total (on_payment j) (choose rows payments cs) + one_if (any (λ k. k == j) payments) ≤ 1
unfolding choose
choose_once_payment rows payments [] j = ground arith
choose_once_payment rows payments (c ∷ cs) j = ground (
  arith,
  any_same c.payment_index j payments,
  choose_once_payment rows payments cs j,
  choose_once_payment (c.row_index ∷ rows) (c.payment_index ∷ payments) cs j,
)

-- A row with money on it, and a payment at an index.
abbrev pub IsMatch : List BankRow → List PendingPayment → Candidate → Type 0
IsMatch rows payments c =
    (r : BankRow) × (p : PendingPayment) × (get_elem? rows c.row_index ≡ some r)
    × (get_elem? payments c.payment_index ≡ some p)
    × (r.amount_cents ≡ p.amount_cents)
    × (pos 1 ≤ℤ r.amount_cents)
    × (p.payment_id ≡ c.payment_id)

choose-All :
    (P : Candidate → Type 0) (rows payments : List ℕ) (cs : List Candidate)
    → All P cs
    → All P (choose rows payments cs)
unfolding choose
choose-All P rows payments [] h = tt
choose-All P rows payments (c ∷ cs) h =
    elim (any (λ i. i == c.row_index) rows || any (λ j. j == c.payment_index) payments)
      as (λ b. All P (
        if b
        then choose rows payments cs
        else c ∷ choose (c.row_index ∷ rows) (c.payment_index ∷ payments) cs)) [
          | true ↦ choose-All P rows payments cs h.1
          | false ↦ (h.0, choose-All P (c.row_index ∷ rows) (c.payment_index ∷ payments) cs h.1)
        ]

get_elem?-append :
    {A : Type 0} (front : List A) (x : A) (back : List A)
    → get_elem? (front ++ (x ∷ back)) (length front) ≡ some x
get_elem?-append [] x back = refl
get_elem?-append (y ∷ front) x back = get_elem?-append front x back

append_one :
    {A : Type 0} (front : List A) (x : A) (back : List A)
    → (front ++ (x ∷ [])) ++ back ≡ front ++ (x ∷ back)
append_one [] x back = refl
append_one (y ∷ front) x back = ap (λ l. y ∷ l) (append_one front x back)

-- The element in front of the rest belongs to what has been passed.
moved :
    {A : Type 0} (P : List A → Candidate → Type 0) (g : ℕ → List Candidate) (front : List A) (x : A)
    (back : List A)
    → All (P ((front ++ (x ∷ [])) ++ back)) (g (length (front ++ (x ∷ []))))
    → All (P (front ++ (x ∷ back))) (g (length front + 1))
moved P g front x back h =
    subst (λ l. All (P l) (g (length front + 1))) (append_one front x back)
      (subst (λ n. All (P ((front ++ (x ∷ [])) ++ back)) (g n)) (length-append front (x ∷ [])) h)

eq_ℤ_sound : (ops : TextOps) (a b : ℤ) → eq_ℤ ops a b ≡ true → a ≡ b
eq_ℤ_sound ops a b h = ground (arith, eq_of_parts a b)

row_candidates-All :
    (ops : TextOps) (rows : List BankRow) (i : ℕ) (r : BankRow) (front ps : List PendingPayment)
    → get_elem? rows i ≡ some r
    → pos 1 ≤ℤ r.amount_cents
    → All (IsMatch rows (front ++ ps)) (row_candidates ops i r (length front) ps)
unfolding row_candidates
row_candidates-All ops rows i r front [] e h = tt
row_candidates-All ops rows i r front (p ∷ ps) e h =
    let rest : All (IsMatch rows (front ++ (p ∷ ps)))
        (row_candidates ops i r (length front + 1) ps) =
      moved (IsMatch rows) (λ n. row_candidates ops i r n ps) front p ps
        (row_candidates-All ops rows i r (front ++ (p ∷ [])) ps e h) in
    elim (Bool-cases (eq_ℤ ops p.amount_cents r.amount_cents && currencies_match ops r p)) [
      | inl t ↦ rw t (
        (
          r,
          p,
          e,
          get_elem?-append front p ps,
          sym (eq_ℤ_sound ops p.amount_cents r.amount_cents (ground arith)),
          h,
          refl,
        ),
        rest,
      )
      | inr f ↦ rw f rest
    ]

candidates-All :
    (ops : TextOps) (front rows : List BankRow) (ps : List PendingPayment)
    → All (IsMatch (front ++ rows) ps) (candidates ops (length front) rows ps)
unfolding candidates
candidates-All ops front [] ps = tt
candidates-All ops front (r ∷ rs) ps =
    let later : All (IsMatch (front ++ (r ∷ rs)) ps) (candidates ops (length front + 1) rs ps) =
      moved (λ l. IsMatch l ps) (λ n. candidates ops n rs ps) front r rs
        (candidates-All ops (front ++ (r ∷ [])) rs ps) in
    elim (Bool-cases (leb_ℤ r.amount_cents (pos 0))) [
      | inl t ↦ rw t later
      | inr f ↦ rw f (
          All-append (IsMatch (front ++ (r ∷ rs)) ps) (row_candidates ops (length front) r 0 ps)
            (candidates ops (length front + 1) rs ps)
            (row_candidates-All ops (front ++ (r ∷ rs)) (length front) r [] ps
              (get_elem?-append front r rs) (ground arith))
            later)
    ]

-- The suggestions are those of a list of matches, each between a row and an order of the same
-- positive amount, in which no row and no order occurs twice.
pub suggest_once :
    (ops : TextOps) (rows : List BankRow) (payments : List PendingPayment)
    → (cs : List Candidate) × (suggest_matches ops rows payments
        ≡ sort row_before (map suggestion cs))
      × All (IsMatch rows payments) cs
      × ((i : ℕ) → total (on_row i) cs ≤ 1)
      × ((j : ℕ) → total (on_payment j) cs ≤ 1)
unfolding suggest_matches
suggest_once ops rows payments =
    let sorted = sort before (candidates ops 0 rows payments) in
    (
      choose [] [] sorted,
      refl,
      choose-All (IsMatch rows payments) [] [] sorted (
          sort-All before (IsMatch rows payments) (candidates ops 0 rows payments)
            (candidates-All ops [] rows payments)),
      λ i. omega (arith, choose_once [] [] sorted i),
      λ j. omega (arith, choose_once_payment [] [] sorted j),
    )
