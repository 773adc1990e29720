-- ===== src/Auth/Refresh.antt =====
-- `refresh_session` of app/services/auth.py: rotation of refresh tokens, and detection of reuse.
pub mod Outcomes
pub mod Families
pub mod Rotation
pub mod Chain
use social_badge_api.Common.{
  ℕ, ◌+◌, ◌*◌, Bool, true, false, not, Option, none, some, Text, [], ◌&&◌, take, ltb, leb, ◌==◌,
  if◌then◌else◌,
}
use social_badge_api.Common.Exec.{pure, raise, raise_if, or_raise, gets, ◌>>=◌, ◌>>◌}
use social_badge_api.Platform.Redis.{second}
use social_badge_api.Settings.{Settings}
use social_badge_api.Token.{create_access_token, create_refresh_token, hash_token}
use social_badge_api.Ip.{Request, get_client_ip}
use social_badge_api.Auth.State.{
  Env, User, RefreshToken, invalid_refresh_token, security_alert_email, Auth, commit, draw,
  on_redis, on_tokens, by_id, send, flush, fits_token,
}
use social_badge_api.Auth.Logout.{revoke, by_hash, by_token_id, blacklist_access_token}

-- RefreshToken.family_id == family_id, is_revoked.is_(False)
abbrev pub is_live_in : ℕ → RefreshToken → Bool
is_live_in family_id t = (t.family_id == family_id) && not t.is_revoked

-- (now - last_used_at).total_seconds() <= settings.REFRESH_REUSE_GRACE_SECONDS
unfoldable pub in_grace : Settings → ℕ → RefreshToken → Bool
in_grace cfg now t = elim t.last_used_at [
  | none ↦ false
  | some last_used ↦ leb now (last_used + cfg.refresh_reuse_grace_seconds * second)
]

-- The token that a rotation retires.
abbrev pub retire : ℕ → RefreshToken → RefreshToken
retire now t = record t { is_revoked = true; last_used_at = some now }

-- Without a request the old row's client stands; without the header the agent is empty.
abbrev pub agent_after : Option Request → RefreshToken → Option Text
agent_after none t = t.user_agent
agent_after (some q) t = elim q.user_agent [ none ↦ some [] | some a ↦ some (take 1000 a) ]

abbrev pub client_after : Option Request → RefreshToken → Option Text
client_after none t = t.ip_address
client_after (some q) t = get_client_ip q

module _ (e : Env) where
  -- The row that a rotation adds, in the family of the old one.
  unfoldable pub successor : RefreshToken → ℕ → Option Request → ℕ → ℕ → ℕ → RefreshToken
  successor t user_id request now d1 d2 =
      let (raw, expire) = create_refresh_token e.cfg e.crypto user_id now d1 in
      record {
        id = e.crypto.uuid d2;
        user_id = user_id;
        token_hash = hash_token e.crypto raw;
        created_at = now;
        expires_at = expire;
        is_revoked = false;
        family_id = t.family_id;
        user_agent = agent_after request t;
        ip_address = client_after request t;
        last_used_at = some now;
      }

  alert : Option User → ℕ → Auth e (Unit {0})
  alert none now = pure tt
  alert (some user) now = do sent ← send e (security_alert_email user.email now); pure tt

  -- A revoked token came back.
  reused : RefreshToken → ℕ → Auth e (Text × Text)
  unfolding alert
  reused t now = if in_grace e.cfg now t then raise invalid_refresh_token else (do
    rowcount ← gets (λ w. e.tokens.count (is_live_in t.family_id) w.db.tokens)
    on_tokens e (e.tokens.update (is_live_in t.family_id) revoke)
    commit e
    user ← gets (λ w. e.users.first (by_id e t.user_id) w.db.users)
    if ltb 0 rowcount then alert user now else pure tt
    raise invalid_refresh_token)

  rotate : RefreshToken → ℕ → Option Text → Option Request → Auth e (Text × Text)
  rotate t now access_token request = do
    raise_if (ltb t.expires_at now) invalid_refresh_token
    found ← gets (λ w. e.users.first (by_id e t.user_id) w.db.users)
    user ← or_raise found invalid_refresh_token
    on_redis e (blacklist_access_token e access_token now)
    on_tokens e (e.tokens.update (by_token_id t.id) (retire now))
    d1 ← draw e
    d2 ← draw e
    on_tokens e (e.tokens.insert (successor t user.id request now d1 d2))
    d3 ← draw e
    flush e (fits_token (successor t user.id request now d1 d2))
    commit e
    let (new_raw_refresh, new_expire) = create_refresh_token e.cfg e.crypto user.id now d1
    pure (create_access_token e.cfg e.crypto user.id now d3, new_raw_refresh)

  unfoldable pub refresh_session : Text → Option Text → Option Request → Auth e (Text × Text)
  unfolding reused rotate
  refresh_session raw_refresh_token access_token request = do
    let token_hash = hash_token e.crypto raw_refresh_token
    found ← gets (λ w. e.tokens.first (by_hash token_hash) w.db.tokens)
    t ← or_raise found invalid_refresh_token
    now ← gets (λ w. w.clock)
    if t.is_revoked then reused t now else rotate t now access_token request
