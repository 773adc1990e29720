-- ===== src/Auth/Logout/Effects.antt =====
-- Whom `logout_session` and `revoke_all_user_sessions` sign out.
use social_badge_api.Common.{
  ℕ, ◌≡◌, refl, inl, inr, ◌⊎◌, Bool, true, false, not, ◌&&◌, Option, none, some, List, [], ◌∷◌, map,
  Text, truthy, countb, Option-cases, Bool-cases, if◌then◌else◌, arith,
}
use social_badge_api.Common.Exec.{ok}
use social_badge_api.Token.{hash_token}
use social_badge_api.Auth.State.{Env, RefreshToken, World}
use social_badge_api.Auth.Logout.{
  revoke, by_hash, by_token_id, is_active_of, logout_session, revoke_all_user_sessions,
  blacklist_access_token,
}

revoked_all :
    (p : RefreshToken → Bool) (rows : List RefreshToken)
    → ((t : RefreshToken) → p (revoke t) ≡ false)
    → countb p (map (λ t. if p t then revoke t else t) rows) ≡ 0
revoked_all p [] h = refl
revoked_all p (t ∷ rows) h = ground (arith, h t, revoked_all p rows h)

by_id_revoked :
    (id : ℕ) (rows : List RefreshToken)
    → countb
        (λ t. by_token_id id t && not t.is_revoked)
        (map (λ t. if by_token_id id t then revoke t else t) rows)
      ≡ 0
by_id_revoked id [] = refl
by_id_revoked id (t ∷ rows) = ground (arith, by_id_revoked id rows)

module _ (e : Env) where
  -- Revoking all sessions of a user revokes exactly the rows that could still be refreshed,
  -- commits, and returns their number; a second call finds none.
  pub revoke_all-Revoked :
      (user_id : ℕ) (access_token : Option Text) (w : World e)
      → let p = is_active_of user_id w.clock in
        let (result, w') = revoke_all_user_sessions e user_id access_token w in
        (result ≡ ok (countb p (e.tokens.rows w.db.tokens)))
        × (e.tokens.rows w'.db.tokens
            ≡ map (λ t. if p t then revoke t else t) (e.tokens.rows w.db.tokens))
        × ((revoke_all_user_sessions e user_id access_token w').0 ≡ ok 0)
        × (w'.durable ≡ w'.db)
  unfolding revoke_all_user_sessions
  revoke_all-Revoked user_id access_token w =
      let p = is_active_of user_id w.clock in
      let rows = e.tokens.rows w.db.tokens in
      (
        rw e.tokens.count-rows refl,
        e.tokens.rows-update p revoke w.db.tokens,
        rw (e.tokens.count-rows, e.tokens.rows-update, revoked_all p rows (λ t. ground arith)) refl,
        refl,
      )

  -- Logging out with a refresh token that has a row, where nothing is uncommitted, succeeds and
  -- leaves nothing uncommitted: the row is revoked unless it was already, and the access token is
  -- blacklisted.
  pub logout-Revoked :
      (raw : Text) (access_token : Option Text) (w : World e) (t : RefreshToken)
      → truthy raw ≡ true
      → e.tokens.first (by_hash (e.crypto.sha256 raw)) w.db.tokens ≡ some t
      → w.durable ≡ w.db
      → let (result, w') = logout_session e (some raw) access_token w in
        (result ≡ ok tt)
        × (w'.durable ≡ w'.db)
        × (w'.redis ≡ blacklist_access_token e access_token w.clock w.redis)
        × (w'.db.tokens ≡ (
            if t.is_revoked
            then w.db.tokens
            else e.tokens.update (by_token_id t.id) revoke w.db.tokens))
  unfolding logout_session hash_token
  logout-Revoked raw access_token w t given found clean = ground arith

  -- Whatever is presented, at most one identifier's rows are revoked, and no random value is drawn.
  pub logout_effect :
      (raw access : Option Text) (w : World e)
      → let w' = (logout_session e raw access w).1 in
        (w'.draws ≡ w.draws)
        × ((w'.durable ≡ w.durable)
            ⊎ ((id : ℕ) × (w'.durable.tokens
                  ≡ e.tokens.update (by_token_id id) revoke w.db.tokens)))
  unfolding logout_session
  logout_effect none access w = (refl, inl refl)
  logout_effect (some []) access w = (refl, inl refl)
  logout_effect (some (c ∷ raw)) access w =
      elim (Option-cases (e.tokens.first (by_hash (hash_token e.crypto (c ∷ raw))) w.db.tokens)) [
        | inl gone ↦ (ground (arith, gone), inl (ground (arith, gone)))
        | inr (t, found) ↦ elim (Bool-cases t.is_revoked) [
          | inl dead ↦ (ground (arith, found, dead), inl (ground (arith, found, dead)))
          | inr live ↦ (ground (arith, found, live), inr (t.id, ground (arith, found, live)))
        ]
      ]
