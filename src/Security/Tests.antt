-- ===== src/Security/Tests.antt =====
-- Five failed logins.
use koinoxrista.Prelude.{ℕ, ◌<◌, String, ◌≡◌, refl, ◌↔◌, true, false, List, [], ◌∷◌, arith, length}
use koinoxrista.Security.Lockout.{Entry, get, set, recent, record_failure, reset}
use koinoxrista.Security.Lockout.Threshold.{fails, fifth_locks, keys_apart}

abbrev as_is : String → String
as_is s = s

abbrev times : List ℕ
times = 10 ∷ 20 ∷ 30 ∷ 40 ∷ []

abbrev four : List Entry
four = fails as_is [] "a" (10 ∷ 20 ∷ 30 ∷ 40 ∷ [])

run_fifth : (record_failure as_is four "a" 50).0.locked ≡ true
unfolding record_failure recent get set
run_fifth = refl

run_fourth : (record_failure as_is (fails as_is [] "a" (10 ∷ 20 ∷ 30 ∷ [])) "a" 50).0.locked ≡ false
unfolding record_failure recent get set
run_fourth = refl

few : length four < 10_000
unfolding record_failure recent get set
few = omega arith

fifth_locks_example : ((record_failure as_is four "a" 50).0.locked ≡ true) ↔ (length times ≡ 4)
unfolding get
fifth_locks_example =
    fifth_locks as_is [] "a" 0 50 (10 ∷ 20 ∷ 30 ∷ 40 ∷ []) refl
      (
        (omega arith, omega arith),
        (
          (omega arith, omega arith),
          ((omega arith, omega arith), ((omega arith, omega arith), tt)),
        ),
      )
      (omega arith, omega arith) (omega arith)

keys_apart_example :
    (get (record_failure as_is four "a" 50).1 "b" ≡ get four "b")
    × (get (reset as_is four "a") "b" ≡ get four "b")
keys_apart_example = keys_apart as_is four "a" "b" 50 refl few
