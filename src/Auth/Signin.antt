-- ===== src/Auth/Signin.antt =====
-- `signin` of app/services/auth.py.
pub mod Outcomes
use social_badge_api.Common.{
  ℕ, Bool, false, not, Option, none, some, Text, ◌&&◌, truthy, take, leb, if◌then◌else◌,
}
use social_badge_api.Common.Exec.{ok, err, pure, raise, raise_if, gets, ◌>>=◌, ◌>>◌}
use social_badge_api.Security.{verify_password}
use social_badge_api.Token.{create_access_token, create_refresh_token, hash_token}
use social_badge_api.Ip.{Request, get_client_ip}
use social_badge_api.Auth.State.{
  Env, User, RefreshToken, AuthError, account_locked, invalid_credentials, email_not_verified,
  account_lock_email, Auth, commit, draw, on_redis, on_tokens, by_email, send, flush, fits_token,
}
use social_badge_api.Auth.Lockout.{check_lockout, increment_failed_attempts, reset_attempts}

pub record LoginRequest : Type 0 where
  pub email : Text
  pub password : Text

-- request.headers.get("user-agent", "")[:1000] or None
unfoldable pub agent_of : Request → Option Text
agent_of q = elim q.user_agent [
  | none ↦ none
  | some a ↦ let cut = take 1000 a in if truthy cut then some cut else none
]

-- What a sign-in issues: the access token, the raw refresh token, and the row of the latter.
pub record Issued : Type 0 where
  pub access_token : Text
  pub raw_refresh_token : Text
  pub row : RefreshToken

abbrev pub client_of : Option Request → Option Text
client_of none = none
client_of (some q) = get_client_ip q

abbrev pub agent_from : Option Request → Option Text
agent_from none = none
agent_from (some q) = agent_of q

-- create_access_token, create_refresh_token and the RefreshToken of a new family, from four draws.
unfoldable pub issue : (e : Env) → ℕ → Option Request → ℕ → ℕ → ℕ → ℕ → ℕ → Issued
issue e user_id request now d1 d2 d3 d4 =
    let (raw, expire) = create_refresh_token e.cfg e.crypto user_id now d2 in
    record {
      access_token = create_access_token e.cfg e.crypto user_id now d1;
      raw_refresh_token = raw;
      row = record {
        id = e.crypto.uuid d4;
        user_id = user_id;
        token_hash = hash_token e.crypto raw;
        created_at = now;
        expires_at = expire;
        is_revoked = false;
        family_id = e.crypto.uuid d3;
        user_agent = agent_from request;
        ip_address = client_of request;
        last_used_at = some now;
      };
    }

unfoldable pub password_matches : (e : Env) → Option Text → Text → Bool
password_matches e none password = false
password_matches e (some hash) password = truthy hash && verify_password e.crypto password hash

module _ (e : Env) where
  -- Issues the tokens of a new session; the row is not committed yet.
  unfoldable pub open_session : ℕ → Option Request → Auth e Issued
  open_session user_id request = do
    now ← gets (λ w. w.clock)
    d1 ← draw e
    d2 ← draw e
    d3 ← draw e
    d4 ← draw e
    let issued = issue e user_id request now d1 d2 d3 d4
    on_tokens e (e.tokens.insert issued.row)
    pure issued

  -- increment_failed_attempts on the request's time
  count_failure : Text → Auth e ℕ
  count_failure email w =
      let (n, redis) = increment_failed_attempts e.cfg e.redis email w.clock w.redis in
      (ok n, record w { redis = redis })

  signin_unknown : LoginRequest → Auth e (User × Text × Text)
  unfolding count_failure
  signin_unknown payload = do
    attempts ← count_failure payload.email
    if leb e.cfg.max_login_attempts attempts
        then raise (account_locked none)
        else raise invalid_credentials

  -- The mail is best effort: whether it is delivered changes nothing.
  signin_wrong : LoginRequest → User → Auth e (User × Text × Text)
  unfolding count_failure
  signin_wrong payload user = do
    attempts ← count_failure payload.email
    if leb e.cfg.max_login_attempts attempts
        then (do sent ← send e (account_lock_email user.email); raise (account_locked none))
        else raise invalid_credentials

  signin_right : LoginRequest → Option Request → User → Auth e (User × Text × Text)
  unfolding open_session
  signin_right payload request user = do
    on_redis e (reset_attempts e.cfg e.redis payload.email)
    raise_if (not user.is_email_verified) email_not_verified
    issued ← open_session user.id request
    flush e (fits_token issued.row)
    commit e
    pure (user, issued.access_token, issued.raw_refresh_token)

  signin_found : LoginRequest → Option Request → Option User → Auth e (User × Text × Text)
  unfolding signin_unknown signin_wrong signin_right
  signin_found payload request none = signin_unknown payload
  signin_found payload request (some user) =
      if password_matches e user.password_hash payload.password
      then signin_right payload request user
      else signin_wrong payload user

  refuse : Option AuthError → Auth e (Unit {0})
  refuse none w = (ok tt, w)
  refuse (some x) w = (err x, w)

  unfoldable pub signin : LoginRequest → Option Request → Auth e (User × Text × Text)
  unfolding signin_found refuse
  signin payload request = do
    locked ← gets (λ w. check_lockout e.cfg e.redis payload.email w.clock w.redis)
    refuse locked
    existing ← gets (λ w. e.users.first (by_email e payload.email) w.db.users)
    signin_found payload request existing
