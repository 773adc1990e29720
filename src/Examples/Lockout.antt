-- ===== src/Examples/Lockout.antt =====
-- Two failures within a minute.
use social_badge_api.Common.{
  ℕ, suc, ◌+◌, ◌*◌, ◌≡◌, none, some, List, [], ◌∷◌, length, leb, ltb, ◌&&◌, if◌then◌else◌, arith,
  refl, codes,
}
use social_badge_api.Platform.Redis.{second}
use social_badge_api.Settings.{failed_login, render, defaults}
use social_badge_api.Auth.State.{account_locked}
use social_badge_api.Auth.Lockout.{check_lockout}
use social_badge_api.Auth.Lockout.Counter.{lockout_after, minutes_left, fail_at}
use social_badge_api.Platform.Samples.{key_redis}

abbrev later_failures : List ℕ
later_failures = 2000000 ∷ []

lockout_after_example :
    let s' = fail_at defaults key_redis (codes "jane") (1000000 ∷ later_failures) (λ j. none) in
    let left = key_redis.ttl (render (failed_login (codes "jane"))) 3000000 s' in
    check_lockout defaults key_redis (codes "jane") 3000000 s' ≡ (
      if ltb 3000000 (1000000 + defaults.lockout_window * second)
        && leb defaults.max_login_attempts (suc (length later_failures))
      then some (account_locked (some (minutes_left left)))
      else none)
lockout_after_example =
    lockout_after defaults key_redis (codes "jane") 1000000 later_failures 3000000 (λ j. none) refl
      (omega arith, tt)
