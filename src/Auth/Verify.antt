-- ===== src/Auth/Verify.antt =====
-- `verify_email` of app/routers/v1/auth.py.
pub mod Link
use social_badge_api.Common.{
  ℕ, Bool, true, Option, none, some, Text, truthy, if◌then◌else◌, not, ◌||◌,
}
use social_badge_api.Common.Exec.{ok, pure, raise, raise_if, or_raise, gets, ◌>>=◌, ◌>>◌}
use social_badge_api.Settings.{token, render}
use social_badge_api.Token.{hash_token}
use social_badge_api.Ip.{Request}
use social_badge_api.Auth.State.{
  Env, User, AuthError, link_expired, user_already_verified, database_failed, onboarding_email,
  Auth, commit, rollback, on_redis, on_users, by_id, send, fits_token,
}
use social_badge_api.Auth.Signin.{open_session}

abbrev pub mark_verified : User → User
mark_verified u = record u { is_email_verified = true }

-- The user that a text from Redis names: `session.get(User, user_id)`.
abbrev pub user_named : (e : Env) → Option Text → e.users.State → Option User
user_named e none s = none
user_named e (some name) s = elim (e.crypto.parse_uuid name) [
  | none ↦ none
  | some id ↦ e.users.first (by_id e id) s
]

abbrev pub nonempty : Option Text → Option Text
nonempty none = none
nonempty (some t) = if truthy t then some t else none

module _ (e : Env) where
  -- redis.getdel(f"verify:{token_hash}"): the index by user is left as it is.
  take_link : Text → Auth e (Option Text)
  take_link token_hash w =
      let (found, redis) = e.redis.getdel (render (token token_hash)) w.clock w.redis in
      (ok found, record w { redis = redis })

  -- The try around the commit; `fails` says whether the database raises, which it does also where an
  -- address does not fit its column.
  commit_or_fail : Bool → Auth e (Unit {0})
  commit_or_fail fails = if fails then (do rollback e; raise database_failed) else commit e

  -- The access token and the raw refresh token that the cookies carry.
  unfoldable pub verify_email : Bool → Text → Request → Auth e (Text × Text)
  unfolding take_link commit_or_fail open_session
  verify_email fails raw request = do
    found ← take_link (hash_token e.crypto raw)
    user_id ← or_raise (nonempty found) link_expired
    known ← gets (λ w. user_named e (some user_id) w.db.users)
    user ← or_raise known link_expired
    raise_if user.is_email_verified user_already_verified
    on_users e (e.users.update (by_id e user.id) mark_verified)
    issued ← open_session e user.id (some request)
    commit_or_fail (fails || not (fits_token issued.row))
    sent ← send e (onboarding_email user.email)
    pure (issued.access_token, issued.raw_refresh_token)
