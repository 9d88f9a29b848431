-- ===== src/Prelude/Tables.antt =====
-- Rows of a database table as a list: a `where` clause is a Boolean test of a row.
use koinoxrista.Prelude.{
  ap, ◌==◌, false, ℕ, ◌+◌, ◌≤◌, ◌≡◌, refl, sym, Bool, true, Option, none, some, List, [], ◌∷◌,
  arith, if◌then◌else◌, All, Bool-cases, inl, inr,
}

module _ {ℓ} {A : Type ℓ} where
  -- `findFirst`
  abbrev pub find : (A → Bool) → List A → Option A
  find p [] = none
  find p (x ∷ xs) = if p x then some x else find p xs

  -- The `count` of `updateMany`.
  abbrev pub count : (A → Bool) → List A → ℕ
  count p [] = 0
  count p (x ∷ xs) = (if p x then 1 else 0) + count p xs

  -- The rows after `updateMany`.
  abbrev pub update_many : (A → Bool) → (A → A) → List A → List A
  update_many p f [] = []
  update_many p f (x ∷ xs) = (if p x then f x else x) ∷ update_many p f xs

  pub update_many-none :
      (p : A → Bool) (f : A → A) (xs : List A) → count p xs ≡ 0 → update_many p f xs ≡ xs
  update_many-none p f [] h = refl
  update_many-none p f (x ∷ xs) h = ground (arith, update_many-none p f xs)

  pub count_mono :
      (p q : A → Bool) (xs : List A) → ((x : A) → p x ≡ true → q x ≡ true) → count p xs ≤ count q xs
  count_mono p q [] h = omega arith
  count_mono p q (x ∷ xs) h = ground (arith, h x, count_mono p q xs h)

  pub update_many-All {κ} :
      (P : A → Type κ) (p : A → Bool) (f : A → A) (xs : List A)
      → ((x : A) → p x ≡ true → P x → P (f x))
      → All P xs
      → All P (update_many p f xs)
  update_many-All P p f [] k h = tt
  update_many-All P p f (x ∷ xs) k h = elim (Bool-cases (p x)) [
    | inl e ↦ rw e (k x e h.0, update_many-All P p f xs k h.1)
    | inr e ↦ rw e (h.0, update_many-All P p f xs k h.1)
  ]

  pub find-holds : (p : A → Bool) (xs : List A) (x : A) → find p xs ≡ some x → p x ≡ true
  find-holds p [] x h = cc
  find-holds p (y ∷ ys) x h = ground (arith, find-holds p ys x)

  -- Where at most one row passes the test, every row that does is the one that is found.
  pub find-only :
      (p : A → Bool) (xs : List A) (v : A)
      → count p xs ≤ 1
      → find p xs ≡ some v
      → All (λ w. p w ≡ true → w ≡ v) xs
  find-only p [] v h e = tt
  find-only p (x ∷ xs) v h e = elim (Bool-cases (p x)) [
    | inl t ↦ (λ _. ground arith, none_left xs (ground arith))
    | inr f ↦ (λ t. cc, find-only p xs v (ground arith) (ground arith))
  ]
    where
      none_left : (ys : List A) → count p ys ≡ 0 → All (λ w. p w ≡ true → w ≡ v) ys
      none_left [] h = tt
      none_left (y ∷ ys) h = (λ t. ground arith, none_left ys (ground arith))

  pub find-All {κ} :
      (P : A → Type κ) (p : A → Bool) (xs : List A) (x : A) → All P xs → find p xs ≡ some x → P x
  find-All P p [] x h e = cc
  find-All P p (y ∷ ys) x h e = elim (Bool-cases (p y)) [
    | inl t ↦ rw (sym (first_found t e)) h.0
    | inr f ↦ find-All P p ys x h.1 (ground (arith, f))
  ]
    where
      first_found : p y ≡ true → find p (y ∷ ys) ≡ some x → y ≡ x
      first_found t e = ground (arith, t)

  -- A row that is found is found again after an update that keeps the test.
  pub find-update_many :
      (p q : A → Bool) (g : A → A) (xs : List A) (x : A)
      → ((y : A) → p (g y) ≡ p y)
      → find p xs ≡ some x
      → find p (update_many q g xs) ≡ some (if q x then g x else x)
  find-update_many p q g [] x same e = cc
  find-update_many p q g (y ∷ ys) x same e = elim (Bool-cases (p y)) [
    | inl t ↦ rw (changed y (q y), t) (ap (λ z. some (if q z then g z else z)) (first_found t e))
    | inr f ↦ rw (changed y (q y), f) (find-update_many p q g ys x same (ground (arith, f)))
  ]
    where
      changed : (z : A) (b : Bool) → p (if b then g z else z) ≡ p z
      changed z true = same z
      changed z false = refl

      first_found : p y ≡ true → find p (y ∷ ys) ≡ some x → y ≡ x
      first_found t e = ground (arith, t)

  -- A row that is found is counted by a test that it passes.
  pub find-count_of :
      (p q : A → Bool) (xs : List A) (x : A)
      → find p xs ≡ some x
      → q x ≡ true
      → (count q xs == 0) ≡ false
  find-count_of p q [] x e t = cc
  find-count_of p q (y ∷ ys) x e t = elim (Bool-cases (p y)) [
    | inl h ↦ here (rw (sym (first_found h e)) at t)
    | inr f ↦ more (find-count_of p q ys x (ground (arith, f)) t)
  ]
    where
      first_found : p y ≡ true → find p (y ∷ ys) ≡ some x → y ≡ x
      first_found h e = ground (arith, h)

      here : q y ≡ true → (count q (y ∷ ys) == 0) ≡ false
      here h = ground (arith, h)

      more : (count q ys == 0) ≡ false → (count q (y ∷ ys) == 0) ≡ false
      more h = ground (arith, h)
