-- ===== src/Auth/Lockout/Counter.antt =====
-- The counter of failed sign-ins: how it grows, when it ends, and whom it locks out.
use social_badge_api.Common.{
  ℕ, suc, ◌+◌, ◌*◌, ◌<◌, ◌≡◌, ◌∙◌, Option, none, some, Text, List, [], ◌∷◌, All, length,
  text_eq_refl, leb, ltb, ◌&&◌, if◌then◌else◌, arith, refl, ◌/◌,
}
use social_badge_api.Platform.Redis.{
  Redis, Entry, second, live, read, Ttl, missing, persistent, seconds,
}
use social_badge_api.Settings.{Settings, failed_login, render}
use social_badge_api.Auth.State.{account_locked}
use social_badge_api.Auth.Lockout.{
  check_lockout, increment_failed_attempts, reset_attempts, lock_minutes,
}

-- The whole minutes of what is left, and one where that is less.
abbrev pub minutes_left : Ttl → ℕ
minutes_left missing = 1
minutes_left persistent = 1
minutes_left (seconds n) = if ltb n 60 then 1 else n / 60

lock_minutes-left : (t : Ttl) → lock_minutes t ≡ minutes_left t
unfolding lock_minutes
lock_minutes-left missing = refl
lock_minutes-left persistent = refl
lock_minutes-left (seconds n) = ground arith

module _ (cfg : Settings) (r : Redis) where
  open r use {
    State, entry, decimal, int-decimal, decimal-truthy, incr-none, incr-number, entry-incr,
    entry-expire, entry-delete, get-entry,
  }

  -- What Redis holds under the identifier's key.
  abbrev pub slot : Text → State → Option Entry
  slot i s = entry s (render (failed_login i))

  -- A count, and the time at which it is forgotten.
  abbrev pub counter : ℕ → ℕ → Option Entry
  counter n d = some (record { value = decimal n; deadline = some d })

  -- The first failure opens the window.
  pub first_failure :
      (i : Text) (now : ℕ) (s : State)
      → live now (slot i s) ≡ none
      → let (count, s') = increment_failed_attempts cfg r i now s in
        (count ≡ 1) × (slot i s' ≡ counter 1 (now + cfg.lockout_window * second))
  unfolding increment_failed_attempts
  first_failure i now s gone =
      let k = render (failed_login i) in
      let found : read now (slot i s) ≡ none = ground (arith, gone) in
      let count = incr-none k now s found in
      let s1 = (r.incr k now s).1 in
      (
        count,
        ground (
          arith,
          count,
          gone,
          entry-incr k now s k,
          entry-expire k cfg.lockout_window now s1 k,
          text_eq_refl k,
        ),
      )

  -- A later one adds one, and leaves the end of the window alone.
  pub later_failure :
      (i : Text) (now n d : ℕ) (s : State)
      → now < d
      → 0 < n
      → slot i s ≡ counter n d
      → let (count, s') = increment_failed_attempts cfg r i now s in
        (count ≡ suc n) × (slot i s' ≡ counter (suc n) d)
  unfolding increment_failed_attempts
  later_failure i now n d s le pos e =
      let k = render (failed_login i) in
      let found : read now (slot i s) ≡ some (decimal n) = rw e (ground arith) in
      let count = incr-number k now n (decimal n) s found (int-decimal n) in
      (count, ground (arith, count, e, entry-incr k now s k, text_eq_refl k))

  -- Failed attempts at the given times.
  abbrev pub fail_at : Text → List ℕ → State → State
  fail_at i [] s = s
  fail_at i (t ∷ ts) s = fail_at i ts (increment_failed_attempts cfg r i t s).1

  more_failures :
      (i : Text) (ts : List ℕ) (n d : ℕ) (s : State)
      → 0 < n
      → All (λ t. t < d) ts
      → slot i s ≡ counter n d
      → slot i (fail_at i ts s) ≡ counter (n + length ts) d
  more_failures i [] n d s pos h e = rw e (ground arith)
  more_failures i (t ∷ ts) n d s pos h e =
      more_failures i ts (suc n) d _ (omega arith) h.1 (later_failure i t n d s h.0 pos e).1
      ∙ ground arith

  -- What `check_lockout` finds in a live counter, and after its end.
  pub check-counter :
      (i : Text) (now n d : ℕ) (s : State)
      → slot i s ≡ counter n d
      → check_lockout cfg r i now s ≡ (
          if ltb now d && leb cfg.max_login_attempts n
          then some (account_locked (some (lock_minutes (r.ttl (render (failed_login i)) now s))))
          else none)
  unfolding check_lockout
  check-counter i now n d s e =
      let k = render (failed_login i) in
      ground (arith, get-entry k now s, e, int-decimal n, decimal-truthy n)

  -- If no failure is counted at the time `first`, then after failures at `first` and at the times
  -- `ts`, all before the end of the window that the first one opened, `check_lockout` at the time
  -- `now` refuses exactly if `now` is before that end and at least `max_login_attempts` failures
  -- were counted; it names the whole minutes left, and one where less is left.
  pub lockout_after :
      (i : Text) (first : ℕ) (ts : List ℕ) (now : ℕ) (s : State)
      → live first (slot i s) ≡ none
      → All (λ t. t < first + cfg.lockout_window * second) ts
      → let s' = fail_at i (first ∷ ts) s in
        let left = r.ttl (render (failed_login i)) now s' in
        check_lockout cfg r i now s' ≡ (
          if ltb now (first + cfg.lockout_window * second)
            && leb cfg.max_login_attempts (suc (length ts))
          then some (account_locked (some (minutes_left left)))
          else none)
  lockout_after i first ts now s gone h =
      let d = first + cfg.lockout_window * second in
      let start = (first_failure i first s gone).1 in
      let s' = fail_at i (first ∷ ts) s in
      let left = r.ttl (render (failed_login i)) now s' in
      check-counter i now (suc (length ts)) d s'
        (more_failures i ts 1 d _ (omega arith) h start ∙ ground arith)
      ∙ rw (lock_minutes-left left) refl

  -- A successful sign-in forgets the failures.
  pub check-reset :
      (i : Text) (now : ℕ) (s : State) → check_lockout cfg r i now (reset_attempts cfg r i s) ≡ none
  unfolding check_lockout reset_attempts
  check-reset i now s =
      let k = render (failed_login i) in
      ground (arith, get-entry k now (r.delete k s), entry-delete k s k, text_eq_refl k)
