-- ===== src/Security/Lockout.antt =====
-- The lockout after failed logins: apps/api/src/security/login-lockout.service.ts, with the numbers
-- of apps/api/src/security/throttle.config.ts. The Map is the list of its entries in insertion
-- order.
pub mod Entries
pub mod Threshold
use koinoxrista.Prelude.{
  ℕ, zero, suc, ◌+◌, ◌-◌, ◌*◌, ◌/◌, ◌%◌, ◌^◌, ◌≤◌, ◌<◌, min, max, String, ◌≡◌, refl, sym, ap, ◌∙◌,
  ◌≢◌, ◌↔◌, ◌⊎◌, inl, inr, Bool, true, false, not, ◌&&◌, ◌||◌, Option, none, some, List, [], ◌∷◌,
  ◌++◌, map, arith, ltb, leb, ◌==◌, if◌then◌else◌, ltb→lt, lt→ltb, leb→le, ==_iff, ==_refl,
  Bool-cases, Option-cases, length, get_elem?, take, get_or, length-append, length-map, total,
  total-append, total_scale, All, filter, All-append, total_mono, any, all, any-false, all-true,
  sum, sum-map, Result, ok, err, ◌>>=◌, ◌>>◌, throw_if, throw_if-ok, >>=-eq-ok, ok-injective,
}
use koinoxrista.Prelude.Int.{
  ℤ, pos, negsuc, pos_part, neg_part, sub_ℕ, ◌+ℤ◌, ◌-ℤ◌, ◌≤ℤ◌, ltb_ℤ, leb_ℤ, min_ℤ, max_ℤ, int_laws,
  pos_part-eq, +ℤ_parts, -ℤ_parts, eq_of_parts,
}
use koinoxrista.Prelude.Sort.{insert, sort, total-sort, sort-All, IsSorted, sort-IsSorted}
use koinoxrista.Prelude.Tables.{
  find, count, update_many, update_many-none, count_mono, update_many-All, find-holds, find-only,
}
use text.Mathlib.Text.{◌==◌ as str_eq}
use text.Mathlib.TextEquality.{eq_iff}
use text.Mathlib.TextPositions.{eq_refl}

abbrev pub lockout_threshold : ℕ
lockout_threshold = 5

abbrev pub lockout_ttl_ms : ℕ
lockout_ttl_ms = 15 * 60 * 1000

abbrev pub max_keys : ℕ
max_keys = 10_000

-- Times are milliseconds.
pub record LockoutState : Type 0 where
  pub failures : List ℕ
  pub locked_until : Option ℕ

pub record Entry : Type 0 where
  pub key : String
  pub state : LockoutState

-- `states.get`
unfoldable pub get : List Entry → String → Option LockoutState
get [] k = none
get (e ∷ es) k = if str_eq e.key k then some e.state else get es k

-- The entries after `states.set`, or after the state object of a key has been changed.
unfoldable pub set : List Entry → String → LockoutState → List Entry
set [] k s = record { key = k; state = s } ∷ []
set (e ∷ es) k s = if str_eq e.key k then record e { state = s } ∷ es else e ∷ set es k s

-- `trim`: entries leave from the front while there are too many.
unfoldable pub trim : List Entry → List Entry
trim [] = []
trim (e ∷ es) = let rest = trim es in if leb (length (e ∷ es)) max_keys then e ∷ es else rest

abbrev pub clear : LockoutState
clear = record { failures = []; locked_until = none }

-- `!state.lockedUntil`
abbrev pub is_unset : Option ℕ → Bool
is_unset none = true
is_unset (some n) = n == 0

abbrev pub is_after : Option ℕ → ℕ → Bool
is_after none now = false
is_after (some until) now = ltb now until

-- `Math.ceil(ms / 1000)`
abbrev pub seconds : ℕ → ℕ
seconds ms = (ms + 999) / 1000

-- The error of a locked key: the seconds to wait.
pub record Locked : Type 0 where
  pub retry_after : ℕ

pub record Failure : Type 0 where
  pub locked : Bool
  pub retry_after_ms : ℕ

-- `state.failures` with the old ones filtered out and the new one at the end.
unfoldable pub recent : ℕ → List ℕ → List ℕ
recent now failures = filter (λ t. ltb now (t + lockout_ttl_ms)) failures ++ (now ∷ [])

abbrev pub state_or : Option LockoutState → LockoutState
state_or none = clear
state_or (some s) = s

module _ (normalize : String → String) where
  -- `assertOpen`
  unfoldable pub assert_open : List Entry → String → ℕ → Result Locked (List Entry)
  assert_open states key now = elim (get states (normalize key)) [
    | none ↦ ok states
    | some s ↦ elim s.locked_until [
      | none ↦ ok states
      | some until ↦
          if ltb now until
          then err (record { retry_after = seconds (until - now) })
          else ok (set states (normalize key) clear)
    ]
  ]

  -- `recordFailure`
  unfoldable pub record_failure : List Entry → String → ℕ → Failure × List Entry
  record_failure states key now =
      let s = state_or (get states (normalize key)) in
      let failures = recent now s.failures in
      if is_unset s.locked_until && leb lockout_threshold (length failures)
      then (
        record { locked = true; retry_after_ms = lockout_ttl_ms },
        trim (
            set states (normalize key)
              (record { failures = []; locked_until = some (now + lockout_ttl_ms) })),
      )
      else (
        record { locked = false; retry_after_ms = 0 },
        set states (normalize key) (record { failures = failures; locked_until = s.locked_until }),
      )

  -- `reset`
  unfoldable pub reset : List Entry → String → List Entry
  reset states key = elim (get states (normalize key)) [
    | none ↦ states
    | some s ↦ set states (normalize key) clear
  ]

  -- `isLocked`
  unfoldable pub is_locked : List Entry → String → ℕ → Bool
  is_locked states key now = elim (get states (normalize key)) [
    | none ↦ false
    | some s ↦ is_after s.locked_until now
  ]
