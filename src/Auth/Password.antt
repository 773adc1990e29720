-- ===== src/Auth/Password.antt =====
-- `request_password_reset` and `reset_password` of app/services/auth.py.
pub mod Reset
use social_badge_api.Common.{ℕ, Bool, not, Option, none, some, Text, ◌==◌, if◌then◌else◌}
use social_badge_api.Common.Exec.{ok, pure, raise_if, or_raise, gets, ◌>>=◌, ◌>>◌}
use social_badge_api.Token.{
  generate_token, hash_token, store_password_reset_token, get_password_reset_user_id,
}
use social_badge_api.Auth.State.{
  Env, User, RefreshToken, AuthError, email_delivery, invalid_password_reset_token,
  password_reset_email, Auth, commit, draw, on_redis, on_users, on_tokens, by_email, by_id, send,
}

-- RefreshToken.user_id == user_id
abbrev pub owned_by : ℕ → RefreshToken → Bool
owned_by user_id t = t.user_id == user_id

abbrev pub set_password : Text → User → User
set_password hash u = record u { password_hash = some hash }

module _ (e : Env) where
  send_reset : Option User → Text → Auth e (Unit {0})
  send_reset none email = pure tt
  send_reset (some user) email = do
    d ← draw e
    let (raw_token, token_hash) = generate_token e.crypto d
    now ← gets (λ w. w.clock)
    on_redis e
        (store_password_reset_token e.cfg e.redis token_hash (e.crypto.uuid_text user.id) now)
    sent ← send e (password_reset_email email raw_token)
    raise_if (not sent) email_delivery

  unfoldable pub request_password_reset : Text → Auth e (Unit {0})
  unfolding send_reset
  request_password_reset email = do
    user ← gets (λ w. e.users.first (by_email e email) w.db.users)
    send_reset user email

  -- get_password_reset_user_id on the request's time
  take_reset_token : Text → Auth e (Option Text)
  take_reset_token token_hash w =
      let (found, redis) = get_password_reset_user_id e.cfg e.redis token_hash w.clock w.redis in
      (ok found, record w { redis = redis })

  unfoldable pub reset_password : Text → Text → Auth e (Unit {0})
  unfolding take_reset_token
  reset_password token new_password = do
    stored ← take_reset_token (hash_token e.crypto token)
    user_id ← or_raise stored invalid_password_reset_token
    parsed_user_id ← or_raise (e.crypto.parse_uuid user_id) invalid_password_reset_token
    found ← gets (λ w. e.users.first (by_id e parsed_user_id) w.db.users)
    user ← or_raise found invalid_password_reset_token
    salt ← draw e
    on_users e (e.users.update (by_id e user.id) (set_password (e.crypto.hashpw salt new_password)))
    on_tokens e (e.tokens.delete (owned_by parsed_user_id))
    commit e
