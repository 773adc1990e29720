-- ===== src/Auth/Refresh/Outcomes.antt =====
-- What `refresh_session` does on each branch.
use social_badge_api.Common.{
  suc, ◌≡◌, refl, inl, inr, ◌⊎◌, true, false, Option, Option-cases, none, some, Text, ltb, arith,
  ◌≤◌,
}
use social_badge_api.Common.Exec.{ok, err}
use social_badge_api.Token.{create_access_token, create_refresh_token, hash_token}
use social_badge_api.Ip.{Request}
use social_badge_api.Auth.State.{
  Env, User, RefreshToken, AuthError, invalid_refresh_token, World, by_id, database_failed,
  fits_within,
}
use social_badge_api.Auth.Logout.{revoke, by_hash, by_token_id, blacklist_access_token}
use social_badge_api.Auth.Refresh.{
  is_live_in, in_grace, retire, successor, refresh_session, client_after,
}

module _ (e : Env) where
  -- The row that the presented token selects.
  abbrev pub presented : Text → World e → Option RefreshToken
  presented raw w = e.tokens.first (by_hash (e.crypto.sha256 raw)) w.db.tokens

  -- What a rotation rests on and does.
  pub record Rotated (access_token : Option Text) (request : Option Request) (t : RefreshToken)
      (user : User) (w w' : World e) (access raw' : Text) : Type 0 where
    pub live : t.is_revoked ≡ false
    pub unexpired : ltb t.expires_at w.clock ≡ false
    pub access_issued :
        access ≡ create_access_token e.cfg e.crypto user.id w.clock (suc (suc w.draws))
    pub refresh_issued : raw' ≡ (create_refresh_token e.cfg e.crypto user.id w.clock w.draws).0
    pub stored : w'.db ≡ record w.db {
      tokens =
          e.tokens.insert
            (successor e t user.id request w.clock w.draws (suc w.draws))
            (e.tokens.update (by_token_id t.id) (retire w.clock) w.db.tokens);
    }
    pub committed : w'.durable ≡ w'.db
    pub drawn : w'.draws ≡ suc (suc (suc w.draws))
    pub old_access_blacklisted : w'.redis ≡ blacklist_access_token e access_token w.clock w.redis

  -- A success has found the token and its user.
  pub refresh_owner :
      (raw : Text) (access_token : Option Text) (request : Option Request) (w w' : World e)
      (t : RefreshToken) (tokens : Text × Text)
      → presented raw w ≡ some t
      → refresh_session e raw access_token request w ≡ (ok tokens, w')
      → (user : User) × (e.users.first (by_id e t.user_id) w.db.users ≡ some user)
  unfolding refresh_session hash_token
  refresh_owner raw access_token request w w' t tokens found h =
      elim (Option-cases (e.users.first (by_id e t.user_id) w.db.users)) [
        | inl gone ↦ absurd (ground arith)
        | inr owner ↦ owner
      ]

  -- A token that no row holds is refused, and nothing changes.
  pub refresh_unknown :
      (raw : Text) (access_token : Option Text) (request : Option Request) (w : World e)
      → presented raw w ≡ none
      → refresh_session e raw access_token request w ≡ (err invalid_refresh_token, w)
  unfolding refresh_session hash_token
  refresh_unknown raw access_token request w h = rw (h, refresh_session) refl

  -- A refresh token that has a row, live and not expired, of an existing user, is accepted from an
  -- address that fits its column.
  pub refresh_rotates :
      (raw : Text) (access_token : Option Text) (request : Option Request) (w : World e)
      (t : RefreshToken) (user : User)
      → presented raw w ≡ some t
      → t.is_revoked ≡ false
      → ltb t.expires_at w.clock ≡ false
      → e.users.first (by_id e t.user_id) w.db.users ≡ some user
      → fits_within 45 (client_after request t) ≡ true
      → (refresh_session e raw access_token request w).0
        ≡ ok (
          create_access_token e.cfg e.crypto user.id w.clock (suc (suc w.draws)),
          (create_refresh_token e.cfg e.crypto user.id w.clock w.draws).0,
        )
  unfolding refresh_session hash_token successor
  refresh_rotates raw access_token request w t user found live unexpired owner fits = ground arith

  -- What a refresh that succeeds found and did, in the terms of the code.
  pub refresh-Rotated :
      (raw : Text) (access_token : Option Text) (request : Option Request) (w w' : World e)
      (t : RefreshToken) (user : User) (access raw' : Text)
      → presented raw w ≡ some t
      → e.users.first (by_id e t.user_id) w.db.users ≡ some user
      → refresh_session e raw access_token request w ≡ (ok (access, raw'), w')
      → Rotated access_token request t user w w' access raw'
  unfolding refresh_session hash_token
  refresh-Rotated raw access_token request w w' t user access raw' found owner h = ground arith

  -- The branch that a presented token takes.
  pub refresh_refused :
      (raw : Text) (access_token : Option Text) (request : Option Request) (w w' : World e)
      (t : RefreshToken) (x : AuthError)
      → presented raw w ≡ some t
      → refresh_session e raw access_token request w ≡ (err x, w')
      → ((x ≡ invalid_refresh_token) ⊎ (x ≡ database_failed))
        × (w.draws ≤ w'.draws)
        × ((((w'.db ≡ w.db) ⊎ (w'.db ≡ w.durable)) × (w'.durable ≡ w.durable))
            ⊎ ((t.is_revoked ≡ true)
                × (in_grace e.cfg w.clock t ≡ false)
                × (w'.db ≡ record w.db {
                  tokens = e.tokens.update (is_live_in t.family_id) revoke w.db.tokens;
                })
                × (w'.durable ≡ w'.db)))
  unfolding refresh_session hash_token
  refresh_refused raw access_token request w w' t x found h = ground arith
