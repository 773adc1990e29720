-- ===== src/Auth/Logout.antt =====
-- `logout_session`, `revoke_all_user_sessions`, `_resolve_current_family_id` and the blacklisting of
-- access tokens, of app/services/auth.py.
pub mod Effects
use social_badge_api.Common.{
  ℕ, ◌-◌, ◌/◌, Bool, true, not, Option, none, some, Text, ◌&&◌, truthy, ltb, ◌==◌, text_eq,
  if◌then◌else◌,
}
use social_badge_api.Common.Exec.{ok, pure, gets, ◌>>=◌, ◌>>◌}
use social_badge_api.Platform.Redis.{second}
use social_badge_api.Platform.Crypto.{Claims}
use social_badge_api.Token.{blacklist_token, hash_token}
use social_badge_api.Auth.State.{Env, RefreshToken, Auth, commit, on_redis, on_tokens}

abbrev pub revoke : RefreshToken → RefreshToken
revoke t = record t { is_revoked = true }

abbrev pub by_hash : Text → RefreshToken → Bool
by_hash h t = text_eq t.token_hash h

abbrev pub by_token_id : ℕ → RefreshToken → Bool
by_token_id id t = t.id == id

-- RefreshToken.user_id == user_id, is_revoked.is_(False), expires_at > now
abbrev pub is_active_of : ℕ → ℕ → RefreshToken → Bool
is_active_of user_id now t = (t.user_id == user_id) && (not t.is_revoked && ltb now t.expires_at)

-- `if not raw_refresh_token` and `if not access_token`
abbrev pub given : Option Text → Option Text
given none = none
given (some t) = if truthy t then some t else none

-- `jti` and `exp` where both are true in Python.
abbrev pub revocable : Claims → Option (Text × ℕ)
revocable c = elim (given c.jti) [
  | none ↦ none
  | some jti ↦ elim c.exp [ none ↦ none | some exp ↦ if exp == 0 then none else some (jti, exp) ]
]

-- `row.family_id if row else None`
abbrev pub family_of : Option RefreshToken → Option ℕ
family_of none = none
family_of (some t) = some t.family_id

module _ (e : Env) where
  blacklist_claims : Option (Text × ℕ) → ℕ → e.redis.State → e.redis.State
  blacklist_claims none now s = s
  blacklist_claims (some (jti, exp)) now s =
      let remaining = exp - now / second in
      if ltb 0 remaining then blacklist_token e.cfg e.redis jti remaining now s else s

  blacklist_decoded : Option Claims → ℕ → e.redis.State → e.redis.State
  unfolding blacklist_claims
  blacklist_decoded none now s = s
  blacklist_decoded (some c) now s = blacklist_claims (revocable c) now s

  -- _blacklist_access_token_if_valid
  unfoldable pub blacklist_access_token : Option Text → ℕ → e.redis.State → e.redis.State
  unfolding blacklist_decoded
  blacklist_access_token none now s = s
  blacklist_access_token (some t) now s =
      if truthy t then blacklist_decoded (e.crypto.jwt_decode_any t) now s else s

  revoke_found : Option RefreshToken → Auth e (Unit {0})
  revoke_found none = pure tt
  revoke_found (some t) =
      if t.is_revoked
      then pure tt
      else (do on_tokens e (e.tokens.update (by_token_id t.id) revoke); commit e)

  revoke_given : Option Text → Auth e (Unit {0})
  unfolding revoke_found
  revoke_given none = pure tt
  revoke_given (some raw) = do
    found ← gets (λ w. e.tokens.first (by_hash (hash_token e.crypto raw)) w.db.tokens)
    revoke_found found

  unfoldable pub logout_session : Option Text → Option Text → Auth e (Unit {0})
  unfolding revoke_given
  logout_session raw_refresh_token access_token = do
    revoke_given (given raw_refresh_token)
    now ← gets (λ w. w.clock)
    on_redis e (blacklist_access_token access_token now)

  -- The number of sessions that were revoked.
  unfoldable pub revoke_all_user_sessions : ℕ → Option Text → Auth e ℕ
  revoke_all_user_sessions user_id access_token = do
    now ← gets (λ w. w.clock)
    count ← gets (λ w. e.tokens.count (is_active_of user_id now) w.db.tokens)
    on_tokens e (e.tokens.update (is_active_of user_id now) revoke)
    commit e
    on_redis e (blacklist_access_token access_token now)
    pure count

  -- The family of an active session, or none.
  unfoldable pub resolve_current_family_id : Option Text → Auth e (Option ℕ)
  resolve_current_family_id raw_refresh_token w = elim (given raw_refresh_token) [
    | none ↦ (ok none, w)
    | some raw ↦
        let active = λ (t : RefreshToken).
          by_hash (hash_token e.crypto raw) t && (not t.is_revoked && ltb w.clock t.expires_at) in
        (ok (family_of (e.tokens.first active w.db.tokens)), w)
  ]
