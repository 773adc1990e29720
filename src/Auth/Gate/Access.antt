-- ===== src/Auth/Gate/Access.antt =====
-- Whom `get_current_user` and `get_current_admin` let in, and that a logout shuts the access token out.
use social_badge_api.Common.{
  ℕ, ◌-◌, ◌*◌, ◌/◌, ◌<◌, ◌≡◌, ◌∙◌, inl, inr, true, false, Option, some, Text, truthy, ltb,
  Option-cases, arith,
}
use social_badge_api.Common.Exec.{ok, err}
use social_badge_api.Platform.Redis.{second}
use social_badge_api.Platform.Crypto.{Claims}
use social_badge_api.Platform.Table.{Table}
use social_badge_api.Token.{is_token_blacklisted, blacklist_token}
use social_badge_api.Token.OneTime.{blacklist_until}
use social_badge_api.Auth.State.{Env, User, token_revoked, World}
use social_badge_api.Auth.Logout.{
  given, revocable, blacklist_access_token, revoke_all_user_sessions,
}
use social_badge_api.Auth.Verify.{user_named}
use social_badge_api.Auth.Gate.{Role, UserRole, is_admin, get_current_user, get_current_admin}

module _ (e : Env) where
  -- What being let in rests on.
  pub record Admitted (token : Text) (user : User) (w : World e) : Type 0 where
    pub claims : Claims
    pub jti : Text
    pub name : Text
    pub decoded : e.crypto.jwt_decode w.clock token ≡ some claims
    pub identified : given claims.jti ≡ some jti
    pub allowed : is_token_blacklisted e.cfg e.redis jti w.clock w.redis ≡ false
    pub subject : claims.sub ≡ some name
    pub known : user_named e (some name) w.db.users ≡ some user

  -- A call that lets a user in changes nothing, and rests on a token that decodes, is not blacklisted
  -- and names the user.
  pub current_user-Admitted :
      (token : Text) (user : User) (w w' : World e)
      → get_current_user e (some token) w ≡ (ok user, w')
      → Admitted token user w × (w' ≡ w)
  unfolding get_current_user
  current_user-Admitted token user w w' h =
      elim (Option-cases (e.crypto.jwt_decode w.clock token)) [
        | inl bad ↦ absurd (ground (arith, bad))
        | inr (c, decoded) ↦ elim (Option-cases (given c.jti)) [
          | inl bad ↦ absurd (ground (arith, decoded, bad))
          | inr (jti, identified) ↦ elim (Option-cases c.sub) [
            | inl bad ↦ absurd (ground (arith, decoded, identified, bad))
            | inr (name, subject) ↦ (
              record {
                claims = c;
                jti = jti;
                name = name;
                decoded = decoded;
                identified = identified;
                allowed = ground (arith, decoded, identified, subject);
                subject = subject;
                known = ground (arith, decoded, identified, subject);
              },
              ground (arith, decoded, identified, subject),
            )
          ]
        ]
      ]

  -- An administrator is a user who is let in and has the role.
  pub current_admin-user :
      (roles : Table Role) (links : Table UserRole) (r : roles.State) (l : links.State)
      (cookie : Option Text) (user : User) (w w' : World e)
      → get_current_admin e roles links r l cookie w ≡ (ok user, w')
      → (get_current_user e cookie w ≡ (ok user, w)) × (is_admin e roles links r l user.id ≡ true)
  unfolding get_current_user get_current_admin
  current_admin-user roles links r l cookie user w w' h = ground arith

  pub blacklisted_after :
      (token jti : Text) (exp now : ℕ) (c : Claims) (s : e.redis.State)
      → truthy token ≡ true
      → e.crypto.jwt_decode_any token ≡ some c
      → revocable c ≡ some (jti, exp)
      → ltb 0 (exp - now / second) ≡ true
      → blacklist_access_token e (some token) now s
        ≡ blacklist_token e.cfg e.redis jti (exp - now / second) now s
  unfolding blacklist_access_token
  blacklisted_after token jti exp now c s full decoded live left = ground arith

  pub jti_of :
      (c : Claims) (jti : Text) (exp : ℕ) → revocable c ≡ some (jti, exp) → given c.jti ≡ some jti
  jti_of c jti exp h = ground arith

  pub still :
      (jti : Text) (exp now later : ℕ) (s : e.redis.State)
      → later < exp * second
      → now / second < exp
      → is_token_blacklisted e.cfg e.redis jti later
          (blacklist_token e.cfg e.redis jti (exp - now / second) now s)
        ≡ true
  still jti exp now later s in_time left =
      let some_left : ltb 0 (exp - now / second) ≡ true = ground (arith, left) in
      blacklist_until e.cfg e.redis jti (exp - now / second) now later s
      ∙ rw some_left (ground (arith, in_time, left))

  -- After a logout everywhere with a nonempty access token that decodes to claims with an
  -- identifier and an end that is not reached, that token lets nobody in as long as it lasts and
  -- decodes to these claims.
  pub logout_shuts_out :
      (user_id : ℕ) (token jti : Text) (exp later : ℕ) (c : Claims) (w : World e)
      → truthy token ≡ true
      → e.crypto.jwt_decode_any token ≡ some c
      → e.crypto.jwt_decode later token ≡ some c
      → revocable c ≡ some (jti, exp)
      → later < exp * second
      → w.clock / second < exp
      → let w' = (revoke_all_user_sessions e user_id (some token) w).1 in
        (get_current_user e (some token) (record w' { clock = later })).0 ≡ err token_revoked
  unfolding get_current_user revoke_all_user_sessions
  logout_shuts_out user_id token jti exp later c w full any decoded live in_time left =
      let some_left : ltb 0 (exp - w.clock / second) ≡ true = ground (arith, left) in
      let redis = blacklisted_after token jti exp w.clock c w.redis full any live some_left in
      let black = still jti exp w.clock later w.redis in_time left in
      let named = jti_of c jti exp live in ground (arith, redis, black, named, full, decoded)
