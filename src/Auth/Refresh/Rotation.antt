-- ===== src/Auth/Refresh/Rotation.antt =====
-- The rows that `refresh_session` leaves, and what a later call does with the tokens.
use social_badge_api.Common.{
  ℕ, suc, ◌+◌, ◌*◌, ◌-◌, ◌/◌, ◌<◌, ◌≡◌, ◌∙◌, ap, refl, Bool, true, false, not, ◌&&◌, Option, some,
  List, [], ◌∷◌, map, Text, countb, truthy, ltb, ◌==◌, if◌then◌else◌, arith,
}
use social_badge_api.Common.Exec.{ok, err}
use social_badge_api.Platform.Redis.{second}
use social_badge_api.Platform.Crypto.{Claims}
use social_badge_api.Token.{create_refresh_token, hash_token}
use social_badge_api.Ip.{Request}
use social_badge_api.Auth.State.{
  Env, User, RefreshToken, invalid_refresh_token, token_revoked, World, by_id, fits_within,
}
use social_badge_api.Auth.Logout.{revoke, revocable}
use social_badge_api.Auth.Gate.{get_current_user}
use social_badge_api.Auth.Gate.Access.{blacklisted_after, still, jti_of}
use social_badge_api.Auth.Refresh.{is_live_in, in_grace, client_after, successor, refresh_session}
use social_badge_api.Auth.Refresh.Outcomes.{presented, refresh-Rotated, refresh_rotates}

none_live :
    (f : ℕ) (rows : List RefreshToken)
    → countb
        (λ r. (r.family_id == f) && not r.is_revoked)
        (map
          (λ r.
            if (r.family_id == f) && not r.is_revoked then record r { is_revoked = true } else r)
          rows)
      ≡ 0
none_live f [] = refl
none_live f (r ∷ rows) = ground (arith, none_live f rows)

module _ (e : Env) where
  -- Presenting a refresh token that is revoked and out of its grace period is refused; every live
  -- token of its family is then revoked, so that none is left, no other token and nothing else of a
  -- token changes, and this is committed although the call raises.
  pub refresh_reused :
      (raw : Text) (access_token : Option Text) (request : Option Request) (w : World e)
      (t : RefreshToken)
      → presented e raw w ≡ some t
      → t.is_revoked ≡ true
      → in_grace e.cfg w.clock t ≡ false
      → let (result, w') = refresh_session e raw access_token request w in
        let live : RefreshToken → Bool = λ r. (r.family_id == t.family_id) && not r.is_revoked in
        (result ≡ err invalid_refresh_token)
        × (e.tokens.rows w'.db.tokens
            ≡ map
                (λ r. if live r then record r { is_revoked = true } else r)
                (e.tokens.rows w.db.tokens))
        × (countb live (e.tokens.rows w'.db.tokens) ≡ 0)
        × (w'.durable ≡ w'.db)
  unfolding refresh_session hash_token
  refresh_reused raw access_token request w t found rev late =
      let rows = e.tokens.rows w.db.tokens in
      let after = (refresh_session e raw access_token request w).1 in
      let updated : after.db.tokens ≡ e.tokens.update (is_live_in t.family_id) revoke w.db.tokens =
        ground (arith, found, rev, late) in
      let stored : e.tokens.rows after.db.tokens
          ≡ map
              (λ r.
                if (r.family_id == t.family_id) && not r.is_revoked
                then record r { is_revoked = true }
                else r)
              rows =
        ap e.tokens.rows updated
        ∙ e.tokens.rows-update (is_live_in t.family_id) revoke w.db.tokens in
      (
        ground (arith, found, rev, late),
        stored,
        rw stored (none_live t.family_id rows),
        ground (arith, found, rev, late),
      )

  -- A refresh token that has a row, live and not expired, of an existing user, is accepted from an
  -- address that fits its column: the call returns a refresh token, whose hash is in a new row that
  -- is committed, live, of the same user and family, and lasts the days that are set from now on;
  -- the presented row is revoked and used now, and no other row changes.
  pub refresh_replaces :
      (raw : Text) (access_token : Option Text) (request : Option Request) (w : World e)
      (t : RefreshToken) (user : User)
      → presented e raw w ≡ some t
      → t.is_revoked ≡ false
      → ltb t.expires_at w.clock ≡ false
      → e.users.first (by_id e t.user_id) w.db.users ≡ some user
      → fits_within 45 (client_after request t) ≡ true
      → let (result, w') = refresh_session e raw access_token request w in
        (access raw' : Text) × (new : RefreshToken) × (result ≡ ok (access, raw'))
        × (e.tokens.rows w'.durable.tokens
            ≡ new
              ∷ map
                  (λ r.
                    if r.id == t.id
                    then record r { is_revoked = true; last_used_at = some w.clock }
                    else r)
                  (e.tokens.rows w.db.tokens))
        × (new.token_hash ≡ e.crypto.sha256 raw')
        × (new.family_id ≡ t.family_id)
        × (new.user_id ≡ user.id)
        × (new.is_revoked ≡ false)
        × (new.expires_at ≡ w.clock + e.cfg.refresh_token_expire_days * 86400 * second)
  unfolding successor hash_token create_refresh_token
  refresh_replaces raw access_token request w t user found live unexpired owner fits =
      let taken =
        refresh_rotates e raw access_token request w t user found live unexpired owner fits in
      let w' = (refresh_session e raw access_token request w).1 in
      let whole = ap (λ r. (r, w')) taken in
      let d = refresh-Rotated e raw access_token request w w' t user _ _ found owner whole in
      (
        _,
        _,
        successor e t user.id request w.clock w.draws (suc w.draws),
        taken,
        rw (d.committed, d.stored, e.tokens.rows-insert, e.tokens.rows-update) refl,
        refl,
        refl,
        refl,
        refl,
        refl,
      )

  -- After a refresh that succeeds, from an address that fits its column, with a nonempty access
  -- token that decodes to claims with an identifier and an end that is not reached, that access
  -- token lets nobody in as long as it lasts and decodes to these claims.
  pub refresh_shuts_out :
      (raw token jti : Text) (request : Option Request) (exp later : ℕ) (c : Claims) (w : World e)
      (t : RefreshToken) (user : User)
      → presented e raw w ≡ some t
      → t.is_revoked ≡ false
      → ltb t.expires_at w.clock ≡ false
      → e.users.first (by_id e t.user_id) w.db.users ≡ some user
      → fits_within 45 (client_after request t) ≡ true
      → truthy token ≡ true
      → e.crypto.jwt_decode_any token ≡ some c
      → e.crypto.jwt_decode later token ≡ some c
      → revocable c ≡ some (jti, exp)
      → later < exp * second
      → w.clock / second < exp
      → let w' = (refresh_session e raw (some token) request w).1 in
        (get_current_user e (some token) (record w' { clock = later })).0 ≡ err token_revoked
  unfolding get_current_user
  refresh_shuts_out raw token jti request exp later c w t user found live unexpired owner fits full
        any decoded valid in_time left =
      let taken =
        refresh_rotates e raw (some token) request w t user found live unexpired owner fits in
      let w' = (refresh_session e raw (some token) request w).1 in
      let d =
        refresh-Rotated e raw (some token) request w w' t user _ _ found owner
          (ap (λ r. (r, w')) taken) in
      let some_left : ltb 0 (exp - w.clock / second) ≡ true = ground (arith, left) in
      let redis =
        d.old_access_blacklisted
        ∙ blacklisted_after e token jti exp w.clock c w.redis full any valid some_left in
      let black = still e jti exp w.clock later w.redis in_time left in
      let named = jti_of e c jti exp valid in ground (arith, redis, black, named, full, decoded)
