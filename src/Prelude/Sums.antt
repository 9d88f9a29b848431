-- ===== src/Prelude/Sums.antt =====
-- What an update of rows does to a sum over the table, and rows with different keys.
use text.Mathlib.Text.{◌==◌ as str_eq}
use text.Mathlib.TextEquality.{eq_iff}
use text.Mathlib.TextPositions.{eq_refl}
use koinoxrista.Prelude.{
  ℕ, ◌+◌, ◌*◌, ◌≤◌, ◌≡◌, refl, Bool, true, false, String, List, [], ◌∷◌, ◌++◌, arith, if◌then◌else◌,
  total, Bool-cases, sym, ap, ◌∙◌, ◌==◌, All, some, inl, inr,
}
use koinoxrista.Prelude.Tables.{count, update_many, find, count_mono}

unequal : true ≡ false → ⊥
unequal e = cc

first_counts : (b : Bool) (n : ℕ) → b ≡ true → (if b then 1 else 0) + n ≤ 1 → n ≡ 0
first_counts b n e c = ground (arith, e)

module _ {ℓ} {A : Type ℓ} where
  -- Every row that is updated gains `n`.
  total-update_many :
      (f : A → ℕ) (p : A → Bool) (g : A → A) (n : ℕ) (xs : List A)
      → ((x : A) → p x ≡ true → f (g x) ≡ f x + n)
      → total f (update_many p g xs) ≡ total f xs + count p xs * n
  total-update_many f p g n [] h = omega arith
  total-update_many f p g n (x ∷ xs) h = elim (Bool-cases (p x)) [
    | inl e ↦ rw e (omega (arith, h x e, total-update_many f p g n xs h))
    | inr e ↦ rw e (omega (arith, total-update_many f p g n xs h))
  ]

  -- Every row that is updated loses `n`.
  total-update_many_less :
      (f : A → ℕ) (p : A → Bool) (g : A → A) (n : ℕ) (xs : List A)
      → ((x : A) → p x ≡ true → f (g x) + n ≡ f x)
      → total f (update_many p g xs) + count p xs * n ≡ total f xs
  total-update_many_less f p g n [] h = omega arith
  total-update_many_less f p g n (x ∷ xs) h = elim (Bool-cases (p x)) [
    | inl e ↦ rw e (omega (arith, h x e, total-update_many_less f p g n xs h))
    | inr e ↦ rw e (omega (arith, total-update_many_less f p g n xs h))
  ]

  pub total-update_one :
      (f : A → ℕ) (p : A → Bool) (g : A → A) (n : ℕ) (xs : List A)
      → count p xs ≡ 1
      → ((x : A) → p x ≡ true → f (g x) ≡ f x + n)
      → total f (update_many p g xs) ≡ total f xs + n
  total-update_one f p g n xs one h = total-update_many f p g n xs h ∙ rw one (omega arith)

  pub total-update_one_less :
      (f : A → ℕ) (p : A → Bool) (g : A → A) (n : ℕ) (xs : List A)
      → count p xs ≡ 1
      → ((x : A) → p x ≡ true → f (g x) + n ≡ f x)
      → total f (update_many p g xs) + n ≡ total f xs
  total-update_one_less f p g n xs one h =
      one_less (total f (update_many p g xs)) (count p xs) n one
      ∙ total-update_many_less f p g n xs h
    where
      one_less : (a c n : ℕ) → c ≡ 1 → a + n ≡ a + c * n
      one_less a c n e = rw e (omega arith)

  pub count-update_many :
      (q p : A → Bool) (g : A → A) (xs : List A)
      → ((x : A) → q (g x) ≡ q x)
      → count q (update_many p g xs) ≡ count q xs
  count-update_many q p g [] h = refl
  count-update_many q p g (x ∷ xs) h = elim (Bool-cases (p x)) [
    | inl e ↦ rw (e, h x) (omega (arith, count-update_many q p g xs h))
    | inr e ↦ rw e (omega (arith, count-update_many q p g xs h))
  ]

  pub count-append : (q : A → Bool) (xs ys : List A) → count q (xs ++ ys) ≡ count q xs + count q ys
  count-append q [] ys = omega arith
  count-append q (x ∷ xs) ys = omega (arith, count-append q xs ys)

  -- No two rows have one key.
  abbrev pub HasUniqueKeys : (A → String) → List A → Type 0
  HasUniqueKeys key xs = (k : String) → count (λ x. str_eq (key x) k) xs ≤ 1

  -- A row whose key no other has can be added.
  pub HasUniqueKeys-cons :
      (key : A → String) (x : A) (xs : List A)
      → count (λ y. str_eq (key y) (key x)) xs ≡ 0
      → HasUniqueKeys key xs
      → HasUniqueKeys key (x ∷ xs)
  HasUniqueKeys-cons key x xs fresh h k = elim (Bool-cases (str_eq (key x) k)) [
    | inl t ↦ rw t (omega (arith, same_key k t))
    | inr f ↦ rw f (omega (arith, h k))
  ]
    where
      same_key : (k : String) → str_eq (key x) k ≡ true → count (λ y. str_eq (key y) k) xs ≡ 0
      same_key k t = rw (sym ((eq_iff (key x) k).0 t)) fresh

  pub HasUniqueKeys-update_many :
      (key : A → String) (p : A → Bool) (g : A → A) (xs : List A)
      → ((x : A) → key (g x) ≡ key x)
      → HasUniqueKeys key xs
      → HasUniqueKeys key (update_many p g xs)
  HasUniqueKeys-update_many key p g xs same h k = omega (
    arith,
    h k,
    count-update_many (λ y. str_eq (key y) k) p g xs (λ x. ap (λ l. str_eq l k) (same x)),
  )

  -- A row at the end whose key is new.
  pub HasUniqueKeys-snoc :
      (key : A → String) (x : A) (xs : List A)
      → count (λ y. str_eq (key y) (key x)) xs ≡ 0
      → HasUniqueKeys key xs
      → HasUniqueKeys key (xs ++ (x ∷ []))
  HasUniqueKeys-snoc key x xs fresh h k = omega (
    arith,
    HasUniqueKeys-cons key x xs fresh h k,
    count-append (λ y. str_eq (key y) k) xs (x ∷ []),
  )

  -- The row with a key that is there is one.
  pub count-one :
      (key : A → String) (xs : List A) (k : String)
      → HasUniqueKeys key xs
      → (count (λ y. str_eq (key y) k) xs == 0) ≡ false
      → count (λ y. str_eq (key y) k) xs ≡ 1
  count-one key xs k h e = ground (arith, h k)

  apart_keys :
      (key : A → String) (k : String) (xs : List A)
      → count (λ y. str_eq (key y) k) xs ≡ 0
      → All (λ z. str_eq k (key z) ≡ false) xs
  apart_keys key k [] h = tt
  apart_keys key k (x ∷ xs) h =
      (flipped (key x) k (ground arith), apart_keys key k xs (ground arith))
    where
      flipped : (i j : String) → str_eq i j ≡ false → str_eq j i ≡ false
      flipped i j f = elim (Bool-cases (str_eq j i)) [
        | inl t ↦ absurd (unequal (sym (rw (sym ((eq_iff j i).0 t)) (eq_refl j)) ∙ f))
        | inr e ↦ e
      ]

  -- Every row is found by its own key.
  pub find-own_key :
      (key : A → String) (xs : List A)
      → HasUniqueKeys key xs
      → All (λ x. find (λ y. str_eq (key y) (key x)) xs ≡ some x) xs
  find-own_key key [] h = tt
  find-own_key key (x ∷ xs) h = (
    rw (eq_refl (key x)) refl,
    behind xs (apart_keys key (key x) xs (own (h (key x))))
        (find-own_key key xs (λ k. omega (arith, h k))),
  )
    where
      own :
          count (λ y. str_eq (key y) (key x)) (x ∷ xs) ≤ 1
          → count (λ y. str_eq (key y) (key x)) xs ≡ 0
      own c =
          first_counts (str_eq (key x) (key x)) (count (λ y. str_eq (key y) (key x)) xs)
            (eq_refl (key x)) c

      behind :
          (zs : List A)
          → All (λ z. str_eq (key x) (key z) ≡ false) zs
          → All (λ z. find (λ y. str_eq (key y) (key z)) xs ≡ some z) zs
          → All (λ z. find (λ y. str_eq (key y) (key z)) (x ∷ xs) ≡ some z) zs
      behind [] p q = tt
      behind (z ∷ zs) p q = (rw p.0 q.0, behind zs p.1 q.1)

  -- Every row is counted under its own key.
  pub count-own_key :
      (key : A → String) (xs : List A)
      → All (λ x. (count (λ y. str_eq (key y) (key x)) xs == 0) ≡ false) xs
  count-own_key key [] = tt
  count-own_key key (x ∷ xs) = (first (eq_refl (key x)), behind xs (count-own_key key xs))
    where
      first :
          str_eq (key x) (key x) ≡ true
          → (count (λ y. str_eq (key y) (key x)) (x ∷ xs) == 0) ≡ false
      first e = ground (arith, e)

      behind :
          (zs : List A)
          → All (λ z. (count (λ y. str_eq (key y) (key z)) xs == 0) ≡ false) zs
          → All (λ z. (count (λ y. str_eq (key y) (key z)) (x ∷ xs) == 0) ≡ false) zs
      behind [] h = tt
      behind (z ∷ zs) h = (ground (arith, h.0), behind zs h.1)

  -- What is found is counted.
  pub find-count :
      (p : A → Bool) (xs : List A) (x : A) → find p xs ≡ some x → (count p xs == 0) ≡ false
  find-count p [] x e = cc
  find-count p (y ∷ ys) x e = elim (Bool-cases (p y)) [
    | inl t ↦ ground (arith, t)
    | inr f ↦ more (find-count p ys x (ground (arith, f)))
  ]
    where
      more : (count p ys == 0) ≡ false → (count p (y ∷ ys) == 0) ≡ false
      more h = ground (arith, h)

  -- An update that raises no row's measure does not raise the sum.
  pub total-update_many_mono :
      (w : A → ℕ) (p : A → Bool) (g : A → A) (xs : List A)
      → ((x : A) → w (g x) ≤ w x)
      → total w (update_many p g xs) ≤ total w xs
  total-update_many_mono w p g [] h = omega arith
  total-update_many_mono w p g (x ∷ xs) h = ground (arith, h x, total-update_many_mono w p g xs h)

  -- Where the only row of a key passes a narrower test, every row of the key does.
  pub count-only :
      (p q : A → Bool) (xs : List A)
      → ((x : A) → p x ≡ true → q x ≡ true)
      → count q xs ≤ 1
      → (count p xs == 0) ≡ false
      → All (λ x. q x ≡ true → p x ≡ true) xs
  count-only p q [] k one some_ = tt
  count-only p q (x ∷ xs) k one some_ = elim (Bool-cases (p x)) [
    | inl t ↦ ((λ _. t), none_left xs (rest_zero t))
    | inr f ↦ ((λ h. absurd (two f h)), count-only p q xs k (ground (arith, f)) (ground (arith, f)))
  ]
    where
      rest_zero : p x ≡ true → count q xs ≡ 0
      rest_zero t = let h = k x t in ground (arith, h)

      none_left : (ys : List A) → count q ys ≡ 0 → All (λ y. q y ≡ true → p y ≡ true) ys
      none_left [] h = tt
      none_left (y ∷ ys) h = ((λ t. absurd (ground (arith, t))), none_left ys (ground arith))

      two : p x ≡ false → q x ≡ true → ⊥
      two f h = let m = count_mono p q xs k in ground (arith, f, h, m)

pub str_eq_comm : (i j : String) → str_eq i j ≡ str_eq j i
str_eq_comm i j = elim (Bool-cases (str_eq i j)) [
  | inl t ↦ ap (λ k. str_eq k j) ((eq_iff i j).0 t) ∙ ap (str_eq j) (sym ((eq_iff i j).0 t))
  | inr f ↦ elim (Bool-cases (str_eq j i)) [
    | inl t ↦ ap (λ k. str_eq k j) (sym ((eq_iff j i).0 t)) ∙ ap (str_eq j) ((eq_iff j i).0 t)
    | inr g ↦ f ∙ sym g
  ]
]
