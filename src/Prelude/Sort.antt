-- ===== src/Prelude/Sort.antt =====
-- `Array.prototype.sort`, which ECMAScript requires to be stable: insertion from the right, where
-- `before y x` says that the comparator puts y strictly in front of x.
use koinoxrista.Prelude.{
  ℕ, ◌+◌, ◌≡◌, refl, inl, inr, Bool, true, false, List, [], ◌∷◌, arith, if◌then◌else◌, total, All,
  Bool-cases,
}

module _ {ℓ} {A : Type ℓ} (before : A → A → Bool) where
  unfoldable pub insert : A → List A → List A
  insert x [] = x ∷ []
  insert x (y ∷ ys) = if before y x then y ∷ insert x ys else x ∷ y ∷ ys

  unfoldable pub sort : List A → List A
  unfolding insert
  sort [] = []
  sort (x ∷ xs) = insert x (sort xs)

  total-insert : (f : A → ℕ) (x : A) (ys : List A) → total f (insert x ys) ≡ f x + total f ys
  unfolding insert
  total-insert f x [] = refl
  total-insert f x (y ∷ ys) = ground (arith, total-insert f x ys)

  -- Sorting keeps every sum over the elements, so also how often each one occurs.
  pub total-sort : (f : A → ℕ) (xs : List A) → total f (sort xs) ≡ total f xs
  unfolding sort
  total-sort f [] = refl
  total-sort f (x ∷ xs) = omega (arith, total-insert f x (sort xs), total-sort f xs)

  insert-All {κ} : (P : A → Type κ) (x : A) (ys : List A) → P x → All P ys → All P (insert x ys)
  unfolding insert
  insert-All P x [] p ps = (p, tt)
  insert-All P x (y ∷ ys) p ps =
      elim (before y x) as (λ b. All P (if b then y ∷ insert x ys else x ∷ y ∷ ys)) [
        | true ↦ (ps.0, insert-All P x ys p ps.1)
        | false ↦ (p, ps)
      ]

  pub sort-All {κ} : (P : A → Type κ) (xs : List A) → All P xs → All P (sort xs)
  unfolding sort
  sort-All P [] ps = tt
  sort-All P (x ∷ xs) ps = insert-All P x (sort xs) ps.0 (sort-All P xs ps.1)

  -- No element has one behind it that must stand before it.
  abbrev pub IsSorted : List A → Type 0
  IsSorted [] = Unit
  IsSorted (x ∷ xs) = All (λ y. before y x ≡ false) xs × IsSorted xs

  module _ (asym : (x y : A) → before x y ≡ true → before y x ≡ false)
      (cotrans : (x y z : A) → before y x ≡ false → before z y ≡ false → before z x ≡ false) where
    All-after :
        (x y : A) (ys : List A)
        → before y x ≡ false
        → All (λ z. before z y ≡ false) ys
        → All (λ z. before z x ≡ false) ys
    All-after x y [] h ps = tt
    All-after x y (z ∷ zs) h ps = (cotrans x y z h ps.0, All-after x y zs h ps.1)

    insert-IsSorted : (x : A) (ys : List A) → IsSorted ys → IsSorted (insert x ys)
    unfolding insert
    insert-IsSorted x [] s = (tt, tt)
    insert-IsSorted x (y ∷ ys) s = elim (Bool-cases (before y x)) [
      | inl e ↦
          rw e
            (insert-All (λ z. before z y ≡ false) x ys (asym y x e) s.0, insert-IsSorted x ys s.1)
      | inr e ↦ rw e ((e, All-after x y ys e s.0), s)
    ]

    pub sort-IsSorted : (xs : List A) → IsSorted (sort xs)
    unfolding sort
    sort-IsSorted [] = tt
    sort-IsSorted (x ∷ xs) = insert-IsSorted x (sort xs) (sort-IsSorted xs)
