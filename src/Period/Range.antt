-- ===== src/Period/Range.antt =====
-- periodRange of libs/shared/src/lib/period.ts.
use koinoxrista.Prelude.{
  ℕ, zero, suc, ◌+◌, ◌-◌, ◌*◌, ◌^◌, ◌≤◌, ◌<◌, ◌≡◌, refl, sym, ap, ◌∙◌, inl, inr, Bool, true, false,
  not, ◌||◌, Option, none, some, List, [], ◌∷◌, arith, ltb, ◌==◌, if◌then◌else◌, ==_iff, Bool-cases,
  length, Result, ok, err, ok-injective,
}
use koinoxrista.Prelude.Int.{ℤ, pos, pos_part, ltb_ℤ}
use koinoxrista.Period.{
  Text, Month, PeriodError, Order, less, same, more, parse_period, compare_periods, next_period,
  index, is_safe, text_eq, is_more, push_front, range_from, period_range,
}
use koinoxrista.Period.Months.{
  print_roundtrip, next_period_lem, compare_periods_lem, Follows, month-bounds,
}

abbrev Ends : Option (Result PeriodError (List Text)) → Type 0
Ends o = (r : Result PeriodError (List Text)) × (o ≡ some r)

push_front-Ends :
    (t : Text) (o : Option (Result PeriodError (List Text))) → Ends o → Ends (push_front t o)
push_front-Ends t none e = absurd (nothing e.1)
  where
    nothing : {r : Result PeriodError (List Text)} → none ≡ some r → ⊥
    nothing h = cc
push_front-Ends t (some (err x)) e = (err x, refl)
push_front-Ends t (some (ok ts)) e = (ok (t ∷ ts), refl)

Ends-test :
    (b : Bool) (x y : Option (Result PeriodError (List Text)))
    → Ends x
    → (b ≡ false → Ends y)
    → Ends (elim b [ true ↦ x | false ↦ y ])
Ends-test true x y h k = h
Ends-test false x y h k = k refl

Ends-call :
    {A : Type 0} (call : Result PeriodError A) (next : A → Option (Result PeriodError (List Text)))
    → ((x : A) → Ends (next x))
    → Ends (elim call [ err e ↦ some (err e) | ok x ↦ next x ])
Ends-call (err e) next k = (err e, refl)
Ends-call (ok x) next k = k x

range_from-Ends :
    (fuel : ℕ) (cursor last : Text) (limit n : ℕ)
    → n ≤ limit
    → limit + 1 ≤ fuel + n
    → Ends (range_from fuel cursor last limit n)
unfolding range_from
range_from-Ends zero cursor last limit n small enough = absurd (omega arith)
range_from-Ends (suc fuel) cursor last limit n small enough =
    Ends-call (compare_periods cursor last) _ λ o.
      Ends-test (is_more o) _ _ (ok [], refl)
        λ _.
          Ends-test (ltb limit (n + 1)) _ _ (err PeriodError.too_many, refl)
            λ within.
              Ends-test (text_eq cursor last) _ _ (ok (cursor ∷ []), refl)
                λ _. Ends-call (next_period cursor) _ λ next.
                  push_front-Ends cursor (range_from fuel next last limit (n + 1))
                    (range_from-Ends fuel next last limit (n + 1) (ground arith) (omega arith))

-- periodRange ends on any two texts and any bound: the fuel, one more than the bound on the
-- results, is enough.
pub period_range_ends :
    (start last : Text) (limit : ℤ)
    → (r : Result PeriodError (List Text)) × (period_range start last limit ≡ some r)
unfolding period_range
period_range_ends start last limit =
    either (not (is_safe limit) || ltb_ℤ limit (pos 1)) _ _ (err PeriodError.bad_max, refl)
      (Ends-call (compare_periods start last) _ λ o.
        either (is_more o) _ _ (err PeriodError.reversed, refl)
          (range_from-Ends (pos_part limit + 1) start last (pos_part limit) 0 (omega arith)
            (omega arith)))
  where
    either :
        (b : Bool) (x y : Option (Result PeriodError (List Text)))
        → Ends x
        → Ends y
        → Ends (if b then x else y)
    either true x y h k = h
    either false x y h k = k

-- Texts of consecutive months, from the month with the number on.
abbrev pub AreConsecutive : ℕ → List Text → Type 0
AreConsecutive n [] = Unit
AreConsecutive n (t ∷ ts) =
    ((p : Month) × (parse_period t ≡ ok p) × (index p ≡ n)) × AreConsecutive (n + 1) ts

text_eq_refl : (t : Text) → text_eq t t ≡ true
unfolding text_eq
text_eq_refl [] = refl
text_eq_refl (a ∷ as') = ground (arith, text_eq_refl as')

text_eq-eq : (t u : Text) → text_eq t u ≡ true → t ≡ u
unfolding text_eq
text_eq-eq [] [] h = refl
text_eq-eq [] (b ∷ bs) h = cc
text_eq-eq (a ∷ as') [] h = cc
text_eq-eq (a ∷ as') (b ∷ bs) h =
    let first : a ≡ b = ground arith in
    rw first (ap (λ cs. b ∷ cs) (text_eq-eq as' bs (ground arith)))

-- Texts of one month are one text.
same_month :
    (t u : Text) {p q : Month}
    → parse_period t ≡ ok p
    → parse_period u ≡ ok q
    → index p ≡ index q
    → t ≡ u
same_month t u {p} {q} hp hq e =
    let (y₁, y₂, m₁, m₂) = month-bounds t hp in
    let (z₁, z₂, k₁, k₂) = month-bounds u hq in
    let (year, month) = parts p.year p.month q.year q.month m₁ m₂ k₁ k₂ e in
    (print_roundtrip t p.year p.month y₁ (omega arith) m₁ m₂).1.1 hp
    ∙ (rw (year, month) refl
        ∙ sym ((print_roundtrip u q.year q.month z₁ (omega arith) k₁ k₂).1.1 hq))
  where
    parts :
        (y m z k : ℕ)
        → 1 ≤ m
        → m ≤ 12
        → 1 ≤ k
        → k ≤ 12
        → y * 12 + (m - 1) ≡ z * 12 + (k - 1)
        → (y ≡ z) × (m ≡ k)
    parts y m z k h1 h2 h3 h4 e = (omega arith, omega arith)

reached : (o : Order) (a b : ℕ) → Follows o a b → a ≤ b → is_more o ≡ false
reached less a b f h = refl
reached same a b f h = refl
reached more a b f h = absurd (omega arith)

less_than : (a b : ℕ) → (a == b) ≡ false → a ≤ b → a < b
less_than a b d h = ground arith

range_from-AreConsecutive :
    (fuel : ℕ) (cursor last : Text) (limit n : ℕ) {p q : Month}
    → parse_period cursor ≡ ok p
    → parse_period last ≡ ok q
    → 12_000 ≤ index p
    → index p ≤ index q
    → n + (index q - index p) < limit
    → limit + 1 ≤ fuel + n
    → (ts : List Text) × (range_from fuel cursor last limit n ≡ some (ok ts))
      × AreConsecutive (index p) ts
      × (length ts ≡ index q - index p + 1)
unfolding range_from
range_from-AreConsecutive zero cursor last limit n hp hq y h few enough = absurd (omega arith)
range_from-AreConsecutive (suc fuel) cursor last limit n {p} {q} hp hq y h few enough =
    let (o, compared, follows) = compare_periods_lem cursor last hp hq in
    let go_on = reached o (index p) (index q) follows h in
    let within : ltb limit (n + 1) ≡ false = below limit n (index q - index p) few in
    elim (Bool-cases (text_eq cursor last)) [
      | inl e ↦
          let same_index : index p ≡ index q =
            ap index (ok-injective (sym hp ∙ (ap parse_period (text_eq-eq cursor last e) ∙ hq))) in
          (
            cursor ∷ [],
            rw (range_from, compared, go_on, within, e) refl,
            ((p, hp, refl), tt),
            omega (arith, same_index),
          )
      | inr e ↦
          let before : index p < index q = earlier e hp hq h in
          let (u, m, next, hu, one_more) =
            next_period_lem cursor hp (late hp y) (omega (arith, before, index_bound hq)) in
          let (ts, run, consecutive, counted) =
            range_from-AreConsecutive fuel u last limit (n + 1) hu hq (omega (arith, one_more))
              (omega arith) (omega arith) (omega arith) in
          (
            cursor ∷ ts,
            rw (range_from, compared, go_on, within, e, next, run) refl,
            ((p, hp, refl), rw (sym one_more) consecutive),
            omega arith,
          )
    ]
  where
    below : (limit n k : ℕ) → n + k < limit → ltb limit (n + 1) ≡ false
    below limit n k h = ground arith

    index_bound : {q : Month} → parse_period last ≡ ok q → index q < 120_000
    index_bound {q} hq = let (a, b, c, d) = month-bounds last hq in omega (arith, a, b, c, d)

    earlier :
        text_eq cursor last ≡ false
        → {p q : Month} → parse_period cursor ≡ ok p
        → parse_period last ≡ ok q
        → index p ≤ index q
        → index p < index q
    earlier e {p} {q} hp hq h = elim (Bool-cases (index p == index q)) [
      | inl t ↦ absurd (
          clash
            (ap (text_eq cursor) (same_month cursor last hp hq ((==_iff (index p) (index q)).0 t))))
      | inr d ↦ less_than (index p) (index q) d h
    ]
      where
        clash : text_eq cursor cursor ≡ text_eq cursor last → ⊥
        clash k = let refl_cursor = text_eq_refl cursor in cc

    late : {p : Month} → parse_period cursor ≡ ok p → 12_000 ≤ index p → 1000 ≤ p.year
    late {p} hp y = let (_, _, m₁, m₂) = month-bounds cursor hp in omega (arith, m₁, m₂)

-- Between two periods from the year 1000 on, in order and no further apart than the bound allows,
-- periodRange returns the texts of the months from the first to the last, each once and in order.
pub period_range-AreConsecutive :
    (start last : Text) (n : ℕ) {p q : Month}
    → parse_period start ≡ ok p
    → parse_period last ≡ ok q
    → 12_000 ≤ index p
    → index p ≤ index q
    → index q < index p + n
    → n < 2 ^ 53
    → (ts : List Text) × (period_range start last (pos n) ≡ some (ok ts))
      × AreConsecutive (index p) ts
      × (length ts ≡ index q - index p + 1)
unfolding period_range
period_range-AreConsecutive start last n {p} {q} hp hq y h few safe =
    let (o, compared, follows) = compare_periods_lem start last hp hq in
    let (ts, run, consecutive, counted) =
      range_from-AreConsecutive (n + 1) start last n 0 hp hq y h (omega arith) (omega arith) in
    (
      ts,
      rw
          (
            period_range,
            allowed n safe (omega arith),
            compared,
            reached o (index p) (index q) follows h,
          )
          run,
      consecutive,
      counted,
    )
  where
    allowed :
        (n : ℕ) → n < 2 ^ 53 → 1 ≤ n → (not (is_safe (pos n)) || ltb_ℤ (pos n) (pos 1)) ≡ false
    allowed n safe positive = ground arith
