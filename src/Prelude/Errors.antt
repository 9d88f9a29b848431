-- ===== src/Prelude/Errors.antt =====
-- A call that returns or throws, with `do` blocks.
use mathlib.Core.Path.{◌≡◌, refl}
use mathlib.Core.Bool.{Bool, true, false}
use koinoxrista.Prelude.Tests.{if◌then◌else◌}

pub data Result {ℓ} (E : Type 0) (A : Type ℓ) : Type ℓ where
  err : (thrown : E) → Result E A
  ok : (returned : A) → Result E A

module _ {E : Type 0} where
  infixl 5 ◌>>=◌ ◌>>◌
  abbrev pub ◌>>=◌ {ℓ κ} :
      {A : Type ℓ} {B : Type κ} (first : Result E A) (rest : A → Result E B) → Result E B
  err thrown >>= rest = err thrown
  ok returned >>= rest = rest returned

  abbrev pub ◌>>◌ {κ} : {B : Type κ} (check : Result E (Unit {0})) (rest : Result E B) → Result E B
  check >> rest = check >>= (λ passed. rest)

-- `if (test) throw e`
abbrev pub throw_if : {E : Type 0} → Bool → E → Result E (Unit {0})
throw_if true e = err e
throw_if false e = ok tt

-- A chain that returned: its first call did, and the rest did from there.
pub >>=-eq-ok {κ ℓ} :
    {E : Type 0} {B : Type κ} {A : Type ℓ} (first : Result E A) (rest : A → Result E B) {y : B}
    → (first >>= rest) ≡ ok y
    → (x : A) × (first ≡ ok x) × (rest x ≡ ok y)
>>=-eq-ok (err thrown) rest e = cc
>>=-eq-ok (ok x) rest e = (x, refl, e)

-- A check that did not throw was false, and what follows it ran.
pub throw_if-ok {ℓ} :
    {E : Type 0} {B : Type ℓ} (b : Bool) (e : E) (k : Result E B) {x : B}
    → (throw_if b e >> k) ≡ ok x
    → (b ≡ false) × (k ≡ ok x)
throw_if-ok true e k h = cc
throw_if-ok false e k h = (refl, h)

pub ok-injective {ℓ} :
    {E : Type 0} {A : Type ℓ} {a b : A} → ◌≡◌ {A = Result E A} (ok a) (ok b) → a ≡ b
ok-injective h = cc

-- A test in front of what is returned has passed.
pub if-eq-ok {ℓ} :
    {E : Type 0} {A : Type ℓ} (b : Bool) (x : A) (e : E) {y : A}
    → (if b then ok x else err e) ≡ ok y
    → (b ≡ true) × (x ≡ y)
if-eq-ok true x e h = (refl, ok-injective h)
if-eq-ok false x e h = cc

-- A test that throws has not.
pub if-eq-err {ℓ} :
    {E : Type 0} {A : Type ℓ} (b : Bool) (e : E) (rest : Result E A) {y : A}
    → (if b then err e else rest) ≡ ok y
    → (b ≡ false) × (rest ≡ ok y)
if-eq-err true e rest h = cc
if-eq-err false e rest h = (refl, h)
