-- ===== src/Auth/Lockout.antt =====
-- `check_lockout`, `increment_failed_attempts` and `reset_attempts` of app/services/auth.py.
pub mod Counter
use social_badge_api.Common.{
  ℕ, ◌/◌, Option, none, some, Text, truthy, ltb, leb, ◌==◌, if◌then◌else◌,
}
use Prim.Native.Nat.{max}
use social_badge_api.Platform.Redis.{Redis, Ttl, missing, persistent, seconds}
use social_badge_api.Settings.{Settings, failed_login, render}
use social_badge_api.Auth.State.{AuthError, account_locked, value_error}

-- max(1, ttl // 60) if ttl and ttl > 0 else 1
unfoldable pub lock_minutes : Ttl → ℕ
lock_minutes missing = 1
lock_minutes persistent = 1
lock_minutes (seconds n) = if ltb 0 n then max 1 (n / 60) else 1

module _ (cfg : Settings) (r : Redis) where
  open r use {State, get, ttl, incr, expire, delete, int}

  -- The test on the text that Redis returned; `int` may raise ValueError.
  judge : Option ℕ → Ttl → Option AuthError
  judge none left = some value_error
  judge (some n) left =
      if leb cfg.max_login_attempts n
      then some (account_locked (some (lock_minutes left)))
      else none

  -- What `check_lockout` raises, if anything.
  unfoldable pub check_lockout : Text → ℕ → State → Option AuthError
  unfolding judge
  check_lockout identifier now s =
      let key = render (failed_login identifier) in
      elim (get key now s) [
        | none ↦ none
        | some attempts ↦ if truthy attempts then judge (int attempts) (ttl key now s) else none
      ]

  unfoldable pub increment_failed_attempts : Text → ℕ → State → ℕ × State
  increment_failed_attempts identifier now s =
      let key = render (failed_login identifier) in
      let (count, s') = incr key now s in
      (count, if count == 1 then expire key cfg.lockout_window now s' else s')

  unfoldable pub reset_attempts : Text → State → State
  reset_attempts identifier s = delete (render (failed_login identifier)) s
