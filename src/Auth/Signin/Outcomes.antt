-- ===== src/Auth/Signin/Outcomes.antt =====
-- What a sign-in requires, and what it leaves.
use social_badge_api.Common.{ℕ, suc, ◌≡◌, refl, true, false, Option, none, some, Text, arith, ◌≤◌}
use social_badge_api.Common.Exec.{ok, err}
use social_badge_api.Ip.{Request}
use social_badge_api.Auth.State.{Env, User, AuthError, World, by_email}
use social_badge_api.Auth.Lockout.{check_lockout, reset_attempts}
use social_badge_api.Auth.Signin.{LoginRequest, Issued, issue, password_matches, signin}
use social_badge_api.Token.{hash_token}

module _ (e : Env) where
  -- A locked account is refused before anything is read or written, whatever the password.
  pub signin_locked :
      (payload : LoginRequest) (request : Option Request) (x : AuthError) (w : World e)
      → check_lockout e.cfg e.redis payload.email w.clock w.redis ≡ some x
      → signin e payload request w ≡ (err x, w)
  unfolding signin
  signin_locked payload request x w h = rw (h, signin) refl

  -- The session that a world issues next to a user.
  abbrev pub next_session : World e → ℕ → Option Request → Issued
  next_session w user_id request =
      let d = w.draws in issue e user_id request w.clock d (suc d) (suc (suc d)) (suc (suc (suc d)))

  -- What a successful sign-in rests on and does.
  pub record SignedIn (payload : LoginRequest) (request : Option Request) (w w' : World e)
      (user : User) (access refresh : Text) : Type 0 where
    pub not_locked : check_lockout e.cfg e.redis payload.email w.clock w.redis ≡ none
    pub found : e.users.first (by_email e payload.email) w.db.users ≡ some user
    pub password : password_matches e user.password_hash payload.password ≡ true
    pub verified : user.is_email_verified ≡ true
    pub access_issued : access ≡ (next_session w user.id request).access_token
    pub refresh_issued : refresh ≡ (next_session w user.id request).raw_refresh_token
    pub hashed : (next_session w user.id request).row.token_hash ≡ e.crypto.sha256 refresh
    pub owned : (next_session w user.id request).row.user_id ≡ user.id
    pub stored :
        w'.db
        ≡ record w.db { tokens = e.tokens.insert (next_session w user.id request).row w.db.tokens }
    pub committed : w'.durable ≡ w'.db
    pub drawn : w'.draws ≡ suc (suc (suc (suc w.draws)))
    pub forgiven : w'.redis ≡ reset_attempts e.cfg e.redis payload.email w.redis

  -- A sign-in that succeeds was not locked out, found the account of the address, matched its
  -- password, and the account is verified; it returns the tokens of the session that it stores and
  -- commits, whose row is the account's and holds the hash of the refresh token, draws four values,
  -- and forgets the failures.
  pub signin-SignedIn :
      (payload : LoginRequest) (request : Option Request) (w w' : World e) (user : User)
      (access refresh : Text)
      → signin e payload request w ≡ (ok (user, access, refresh), w')
      → SignedIn payload request w w' user access refresh
  unfolding signin issue hash_token
  signin-SignedIn payload request w w' user access refresh h = ground arith

  -- A sign-in that raises leaves what is committed as it was.
  pub signin-refused :
      (payload : LoginRequest) (request : Option Request) (w w' : World e) (x : AuthError)
      → signin e payload request w ≡ (err x, w')
      → (w'.durable ≡ w.durable) × (w.draws ≤ w'.draws)
  unfolding signin
  signin-refused payload request w w' x h = (ground arith, ground arith)

  -- In worlds that agree on Redis and the clock, a sign-in with an unknown address and one with a
  -- known address and a wrong password give the same result and leave the same Redis.
  pub signin-no_enumeration :
      (payload : LoginRequest) (request : Option Request) (v w : World e) (user : User)
      → v.redis ≡ w.redis
      → v.clock ≡ w.clock
      → e.users.first (by_email e payload.email) v.db.users ≡ none
      → e.users.first (by_email e payload.email) w.db.users ≡ some user
      → password_matches e user.password_hash payload.password ≡ false
      → ((signin e payload request v).0 ≡ (signin e payload request w).0)
        × ((signin e payload request v).1.redis ≡ (signin e payload request w).1.redis)
  unfolding signin
  signin-no_enumeration payload request v w user r c unknown known wrong = ground arith
