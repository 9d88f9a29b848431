-- ===== src/Security/Lockout/Threshold.antt =====
-- When LoginLockoutService of apps/api/src/security/login-lockout.service.ts locks, and for how
-- long.
use koinoxrista.Prelude.{
  ℕ, ◌+◌, ◌-◌, ◌≤◌, ◌<◌, String, ◌≡◌, refl, ap, ◌↔◌, inl, inr, Bool, true, false, ◌&&◌, none, some,
  List, [], ◌∷◌, ◌++◌, arith, ltb, leb, if◌then◌else◌, Bool-cases, Option-cases, length,
  length-append, All, filter, All-append, ok, err,
}
use text.Mathlib.Text.{◌==◌ as str_eq}
use koinoxrista.Security.Lockout.{
  lockout_threshold, lockout_ttl_ms, max_keys, LockoutState, Entry, get, set, clear, is_unset,
  seconds, Failure, recent, state_or, assert_open, record_failure, reset, is_locked,
}
use koinoxrista.Security.Lockout.Entries.{get-set, get-set_other, trim-small}

length-set : (es : List Entry) (k : String) (s : LockoutState) → length (set es k s) ≤ length es + 1
unfolding set
length-set [] k s = omega arith
length-set (e ∷ es) k s = ground (arith, length-set es k s)

-- A time inside the window that opens at `a`.
abbrev pub InWindow : ℕ → ℕ → Type 0
InWindow a t = (a ≤ t) × (t < a + lockout_ttl_ms)

abbrev locked_of : Failure × List Entry → Bool
locked_of p = p.0.locked

kept-All :
    (a now : ℕ) (ts : List ℕ)
    → InWindow a now
    → All (InWindow a) ts
    → filter (λ t. ltb now (t + lockout_ttl_ms)) ts ≡ ts
kept-All a now [] w h = refl
kept-All a now (t ∷ ts) w h = ground (arith, h.0, w, kept-All a now ts w h.1)

-- In one window no failure is too old.
recent-All :
    (a now : ℕ) (ts : List ℕ)
    → InWindow a now
    → All (InWindow a) ts
    → recent now ts ≡ ts ++ (now ∷ [])
unfolding recent
recent-All a now ts w h = ap (λ xs. xs ++ (now ∷ [])) (kept-All a now ts w h)

module _ (normalize : String → String) where
  -- The map after failed logins at these times, each let through before.
  abbrev pub fails : List Entry → String → List ℕ → List Entry
  fails states key [] = states
  fails states key (t ∷ ts) = fails (record_failure normalize states key t).1 key ts

  locked_state :
      (states : List Entry) (key : String) (now : ℕ)
      → length states < max_keys
      → (record_failure normalize states key now).0.locked ≡ true
      → get (record_failure normalize states key now).1 (normalize key)
        ≡ some (record { failures = []; locked_until = some (now + lockout_ttl_ms) })
  unfolding record_failure
  locked_state states key now small h =
      let s = state_or (get states (normalize key)) in
      let locked : LockoutState = record {
        failures = [];
        locked_until = some (now + lockout_ttl_ms);
      } in
      elim (Bool-cases
        (is_unset s.locked_until && leb lockout_threshold (length (recent now s.failures)))) [
          | inl b ↦ rw b (
              rw
                (trim-small (set states (normalize key) locked)
                  (omega (arith, length-set states (normalize key) locked, small)))
                (get-set states (normalize key) locked))
          | inr b ↦ absurd (never _ _ b refl h)
        ]
    where
      never :
          {b : Bool} (x y : Failure × List Entry)
          → b ≡ false
          → locked_of y ≡ false
          → locked_of (if b then x else y) ≡ true
          → ⊥
      never {b} x y e q h = ground (arith, e)

  -- A lock that has just been set is reported until it ends, with the seconds that are left, and
  -- not from its end on.
  pub lock_holds :
      (states : List Entry) (key : String) (now t : ℕ)
      → length states < max_keys
      → (record_failure normalize states key now).0.locked ≡ true
      → let after = (record_failure normalize states key now).1 in
        (is_locked normalize after key t ≡ ltb t (now + lockout_ttl_ms))
        × (assert_open normalize after key t ≡ (
            if ltb t (now + lockout_ttl_ms)
            then err (record { retry_after = seconds (now + lockout_ttl_ms - t) })
            else ok (set after (normalize key) clear)))
  unfolding record_failure is_locked assert_open
  lock_holds states key now t small h =
      rw (is_locked, assert_open, locked_state states key now small h) (refl, refl)

  -- A failed login that does not lock adds its time.
  record-counts :
      (states : List Entry) (key : String) (a now : ℕ) (fs : List ℕ)
      → state_or (get states (normalize key)) ≡ record { failures = fs; locked_until = none }
      → All (InWindow a) fs
      → InWindow a now
      → ((record_failure normalize states key now).0.locked ≡ leb 4 (length fs))
        × ((leb 4 (length fs) ≡ false)
            → get (record_failure normalize states key now).1 (normalize key)
              ≡ some (record { failures = fs ++ (now ∷ []); locked_until = none }))
  unfolding record_failure
  record-counts states key a now fs e h w =
      rw (e, recent-All a now fs w h) ground
        (
          arith,
          length-append fs (now ∷ []),
          get-set states (normalize key)
              (record { failures = fs ++ (now ∷ []); locked_until = none }),
        )

  -- Failed logins that did not lock, all in one window, are all counted.
  fails-counts :
      (states : List Entry) (key : String) (a : ℕ) (fs ts : List ℕ)
      → state_or (get states (normalize key)) ≡ record { failures = fs; locked_until = none }
      → All (InWindow a) fs
      → All (InWindow a) ts
      → length fs + length ts ≤ 4
      → (gs : List ℕ) × (state_or (get (fails states key ts) (normalize key))
          ≡ record { failures = gs; locked_until = none })
        × All (InWindow a) gs
        × (length gs ≡ length fs + length ts)
  fails-counts states key a fs [] e h w short = (fs, e, h, omega arith)
  fails-counts states key a fs (t ∷ ts) e h w short =
      let counted = record-counts states key a t fs e h w.0 in
      let (gs, found, inside, sum_is) =
        fails-counts (record_failure normalize states key t).1 key a (fs ++ (t ∷ [])) ts
          (ap state_or (counted.1 (ground arith))) (All-append (InWindow a) fs (t ∷ []) h (w.0, tt))
          w.1 (omega (arith, short, length-append fs (t ∷ []))) in
      (gs, found, inside, omega (arith, sum_is, length-append fs (t ∷ [])))

  -- Where the key has no failures on record, a failed login after at most four others, all in a
  -- window of 15 minutes in any order, locks exactly when it is the fifth.
  pub fifth_locks :
      (states : List Entry) (key : String) (a t : ℕ) (ts : List ℕ)
      → state_or (get states (normalize key)) ≡ clear
      → All (InWindow a) ts
      → InWindow a t
      → length ts ≤ 4
      → ((record_failure normalize (fails states key ts) key t).0.locked ≡ true) ↔ (length ts ≡ 4)
  fifth_locks states key a t ts e h w short =
      let (gs, found, inside, many) =
        fails-counts states key a [] ts e tt h (omega (arith, short)) in
      ground (arith, many, (record-counts (fails states key ts) key a t gs found inside w).0)

  -- A failed login or a reset of one key leaves the state of another as it was, as long as the map
  -- has room.
  pub keys_apart :
      (states : List Entry) (key other : String) (now : ℕ)
      → str_eq (normalize key) (normalize other) ≡ false
      → length states < max_keys
      → (get (record_failure normalize states key now).1 (normalize other)
          ≡ get states (normalize other))
        × (get (reset normalize states key) (normalize other) ≡ get states (normalize other))
  unfolding record_failure reset
  keys_apart states key other now apart small =
      let s = state_or (get states (normalize key)) in
      let locked : LockoutState = record {
        failures = [];
        locked_until = some (now + lockout_ttl_ms);
      } in
      let counted : LockoutState = record {
        failures = recent now s.failures;
        locked_until = s.locked_until;
      } in
      (
        ground (
          arith,
          trim-small (set states (normalize key) locked),
          length-set states (normalize key) locked,
          get-set_other states (normalize key) (normalize other) locked apart,
          get-set_other states (normalize key) (normalize other) counted apart,
        ),
        elim (Option-cases (get states (normalize key))) [
          | inl e ↦ rw (reset, e) refl
          | inr (x, e) ↦
              rw (reset, e) (get-set_other states (normalize key) (normalize other) clear apart)
        ],
      )
