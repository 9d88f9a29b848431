-- ===== src/Security/Lockout/Entries.antt =====
-- The entries of the lockout as a map.
use koinoxrista.Prelude.{
  ◌≤◌, String, ◌≡◌, refl, sym, inl, inr, true, false, some, List, [], ◌∷◌, arith, leb,
  if◌then◌else◌, Bool-cases, length, All,
}
use text.Mathlib.Text.{◌==◌ as str_eq}
use text.Mathlib.TextEquality.{eq_iff}
use text.Mathlib.TextPositions.{eq_refl}
use koinoxrista.Security.Lockout.{max_keys, LockoutState, Entry, get, set, trim}

-- What has been set is found.
pub get-set : (es : List Entry) (k : String) (s : LockoutState) → get (set es k s) k ≡ some s
unfolding get set
get-set [] k s = rw (eq_refl k) refl
get-set (e ∷ es) k s = elim (Bool-cases (str_eq e.key k)) [
  | inl t ↦ rw (t, t) refl
  | inr f ↦ rw (f, f) (get-set es k s)
]

other_key : (i k j : String) → i ≡ k → str_eq k j ≡ false → str_eq i j ≡ false
other_key i k j e h = rw e h

-- Another key is found as before.
pub get-set_other :
    (es : List Entry) (k j : String) (s : LockoutState)
    → str_eq k j ≡ false
    → get (set es k s) j ≡ get es j
unfolding get set
get-set_other [] k j s h = rw h refl
get-set_other (e ∷ es) k j s h = elim (Bool-cases (str_eq e.key k)) [
  | inl t ↦ rw (t, other_key e.key k j ((eq_iff e.key k).0 t) h) refl
  | inr f ↦ rw (f, get-set_other es k j s h) refl
]

-- With no more entries than allowed, none leaves.
pub trim-small : (es : List Entry) → length es ≤ max_keys → trim es ≡ es
unfolding trim
trim-small [] h = refl
trim-small (e ∷ es) h = ground arith

pub trim-bounded : (es : List Entry) → length (trim es) ≤ max_keys
unfolding trim
trim-bounded [] = omega arith
trim-bounded (e ∷ es) = ground (arith, trim-bounded es)

-- A property of every state in the map.
abbrev pub AllStates : (LockoutState → Type 0) → List Entry → Type 0
AllStates P es = All (λ e. P e.state) es

pub set-All :
    (P : LockoutState → Type 0) (es : List Entry) (k : String) (s : LockoutState)
    → P s
    → AllStates P es
    → AllStates P (set es k s)
unfolding set
set-All P [] k s p h = (p, tt)
set-All P (e ∷ es) k s p h = elim (Bool-cases (str_eq e.key k)) [
  | inl t ↦ rw t (p, h.1)
  | inr f ↦ rw f (h.0, set-All P es k s p h.1)
]

pub trim-All :
    (P : LockoutState → Type 0) (es : List Entry) → AllStates P es → AllStates P (trim es)
unfolding trim
trim-All P [] h = tt
trim-All P (e ∷ es) h = elim (Bool-cases (leb (length (e ∷ es)) max_keys)) [
  | inl t ↦ rw t h
  | inr f ↦ rw f (trim-All P es h.1)
]

pub get-All :
    (P : LockoutState → Type 0) (es : List Entry) (k : String) (s : LockoutState)
    → AllStates P es
    → get es k ≡ some s
    → P s
unfolding get
get-All P [] k s h e = cc
get-All P (x ∷ es) k s h e = elim (Bool-cases (str_eq x.key k)) [
  | inl t ↦ rw (sym (found t e)) h.0
  | inr f ↦ get-All P es k s h.1 (ground arith)
]
  where
    found :
        str_eq x.key k ≡ true
        → (if str_eq x.key k then some x.state else get es k) ≡ some s
        → x.state ≡ s
    found t e = ground arith
