-- ===== src/Token.antt =====
-- app/core/token.py: the tokens that Redis keeps.
pub mod Entries
pub mod Index
pub mod OneTime
use social_badge_api.Common.{
  ℕ, ◌+◌, ◌*◌, ◌/◌, Bool, true, false, Option, none, some, Text, codes, ltb, truthy, if◌then◌else◌,
}
use social_badge_api.Platform.Redis.{Redis, second}
use social_badge_api.Platform.Crypto.{Crypto, Claims}
use social_badge_api.Settings.{
  Settings, token, token_user, password_reset, google_state, blacklist, render,
}

-- The raw token of a draw, and its hash.
unfoldable pub hash_token : Crypto → Text → Text
hash_token c raw = c.sha256 raw

unfoldable pub generate_token : Crypto → ℕ → Text × Text
unfolding hash_token
generate_token c draw = let raw = c.token_urlsafe draw in (raw, hash_token c raw)

-- The claims hold the user, the end of the token and a random identifier. `now` is in microseconds
-- and `exp` in seconds.
unfoldable pub access_claims : Settings → Crypto → ℕ → ℕ → ℕ → Claims
access_claims cfg c user_id now draw = record {
  sub = some (c.uuid_text user_id);
  exp = some ((now + cfg.access_token_expire_minutes * 60 * second) / second);
  iat = some (now / second);
  kind = none;
  jti = some (c.token_hex draw);
}

unfoldable pub create_access_token : Settings → Crypto → ℕ → ℕ → ℕ → Text
unfolding access_claims
create_access_token cfg c user_id now draw = c.jwt_encode (access_claims cfg c user_id now draw)

unfoldable pub create_refresh_token : Settings → Crypto → ℕ → ℕ → ℕ → Text × ℕ
create_refresh_token cfg c user_id now draw =
    let expire = now + cfg.refresh_token_expire_days * 86400 * second in
    let payload : Claims = record {
      sub = some (c.uuid_text user_id);
      exp = some (expire / second);
      iat = some (now / second);
      kind = some (codes "refresh");
      jti = some (c.token_hex draw);
    } in
    (c.jwt_encode payload, expire)

module _ (cfg : Settings) (r : Redis) where
  open r use {State, get, set, delete, getdel, exists}

  unfoldable pub blacklist_token : Text → ℕ → ℕ → State → State
  blacklist_token jti remaining now s =
      if ltb 0 remaining then set (render (blacklist jti)) (codes "1") remaining now s else s

  unfoldable pub is_token_blacklisted : Text → ℕ → State → Bool
  is_token_blacklisted jti now s = exists (render (blacklist jti)) now s

  unfoldable pub store_verification_token : Text → Text → ℕ → State → State
  store_verification_token token_hash user_id now s =
      let ttl_seconds = cfg.verification_token_ttl_minutes * 60 in
      set (render (token_user user_id)) token_hash ttl_seconds now
        (set (render (token token_hash)) user_id ttl_seconds now s)

  unfoldable pub get_verified_user_id : Text → ℕ → State → Option Text × State
  get_verified_user_id token_hash now s =
      let (found, s') = getdel (render (token token_hash)) now s in
      elim found [
        | none ↦ (none, s')
        | some user_id ↦
            if truthy user_id
            then (some user_id, delete (render (token_user user_id)) s')
            else (none, s')
      ]

  unfoldable pub store_password_reset_token : Text → Text → ℕ → State → State
  store_password_reset_token token_hash user_id now s =
      set (render (password_reset token_hash)) user_id (cfg.password_reset_token_ttl_minutes * 60)
        now s

  unfoldable pub get_password_reset_user_id : Text → ℕ → State → Option Text × State
  get_password_reset_user_id token_hash now s = getdel (render (password_reset token_hash)) now s

  unfoldable pub store_google_oauth_state : Text → ℕ → State → State
  store_google_oauth_state state now s =
      set (render (google_state state)) (codes "1") (cfg.google_oauth_state_ttl_minutes * 60) now s

  unfoldable pub get_google_oauth_state : Text → ℕ → State → Bool × State
  get_google_oauth_state state now s =
      let (stored, s') = getdel (render (google_state state)) now s in
      (elim stored [ none ↦ false | some v ↦ true ], s')

  unfoldable pub revoke_previous_verification_token : Text → ℕ → State → State
  revoke_previous_verification_token user_id now s =
      elim (get (render (token_user user_id)) now s) [
        | none ↦ s
        | some old_hash ↦
            if truthy old_hash
            then delete (render (token_user user_id)) (delete (render (token old_hash)) s)
            else s
      ]
