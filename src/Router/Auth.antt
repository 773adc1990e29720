-- ===== src/Router/Auth.antt =====
-- app/routers/v1/auth.py: the endpoints of an account and its sessions. `verify_email` is in
-- Auth/Verify.antt. The user whom an endpoint depends on is what Auth/Gate.antt gives.
pub mod Google
pub mod Outcomes
use social_badge_api.Common.{
  ℕ, Bool, true, false, Option, none, some, Text, codes, ◌++◌, if◌then◌else◌,
}
use social_badge_api.Common.Exec.{Result, ok, err, pure, raise, ◌>>=◌, ◌>>◌}
use social_badge_api.Token.{generate_token, store_google_oauth_state}
use social_badge_api.Ip.{Request}
use social_badge_api.Auth.State.{
  Env, User, AuthError, account_locked, email_already_verified, email_conflict, email_delivery,
  email_not_verified, invalid_credentials, invalid_password_reset_token, invalid_refresh_token,
  google_oauth, onboarding_email, World, Auth, commit, draw, on_redis, send,
}
use social_badge_api.Auth.Signup.{SignupRequest, signup, resend_verification_email}
use social_badge_api.Auth.Signin.{LoginRequest, open_session, signin}
use social_badge_api.Auth.Password.{request_password_reset, reset_password}
use social_badge_api.Auth.Refresh.{refresh_session}
use social_badge_api.Auth.Logout.{
  given, logout_session, revoke_all_user_sessions, resolve_current_family_id,
}
use social_badge_api.Auth.Devices.{SessionListResponse, list_user_sessions}
use social_badge_api.Router.Profile.{AccountError, http, raised, catching_auth, AccountApi}

-- The two cookies of a response: left as they are, set to the tokens, or deleted.
pub data Cookies : Type 0 where
  kept deleted : Cookies
  set : Text → Text → Cookies

pub record Reply (A : Type 0) : Type 0 where
  pub message : Text
  pub body : A
  pub cookies : Cookies

abbrev pub reply : {A : Type 0} → Text → A → Reply A
reply message body = record { message = message; body = body; cookies = kept }

abbrev pub reply_with : {A : Type 0} → Text → A → Cookies → Reply A
reply_with message body cookies = record { message = message; body = body; cookies = cookies }

pub record LoginUserResponse : Type 0 where
  pub first_name : Text
  pub last_name : Option Text
  pub email : Text
  pub is_email_verified : Bool

abbrev pub login_user : User → LoginUserResponse
login_user u = record {
  first_name = u.first_name;
  last_name = u.last_name;
  email = u.email;
  is_email_verified = u.is_email_verified;
}

-- The `except` clauses.
abbrev pub register_refusal : AuthError → AccountError
register_refusal email_conflict =
    http 409 (codes "Unable to create account. Please use a different email or login.")
register_refusal x = raised x

abbrev pub reset_refusal : AuthError → AccountError
reset_refusal invalid_password_reset_token = http 400 (codes "token is invalid or expired")
reset_refusal x = raised x

abbrev pub refresh_refusal : AuthError → AccountError
refresh_refusal invalid_refresh_token = http 401 (codes "Invalid or expired refresh token")
refresh_refusal x = raised x

abbrev pub if_sent : Bool → Text
if_sent email_sent =
    if email_sent
    then codes "Registration successful. Please check your email to verify your account."
    else codes "Account created. Verification email failed to send. Please request a new one."

abbrev pub resent : Text
resent = codes "If your email is registered and unverified, a new verification email has been sent."

abbrev pub reset_sent : Text
reset_sent = codes "If an account with that email exists, a password reset email has been sent."

abbrev pub already_verified : AccountError
already_verified = http 400 (codes "Email is already verified.")

-- `decimal` is `str` of a number.
module _ (decimal : ℕ → Text) where
  -- str(locked_exc): the exception is always made with a message.
  abbrev pub locked_message : Option ℕ → Text
  locked_message none = codes "Account locked due to too many failed attempts."
  locked_message (some minutes) =
      codes "Account locked. Try again in " ++ (decimal minutes ++ codes " minute(s).")

  abbrev pub login_refusal : AuthError → AccountError
  login_refusal email_not_verified = http 403 (codes "Please verify your email")
  login_refusal invalid_credentials = http 401 (codes "Invalid credentials")
  login_refusal (account_locked minutes) = http 423 (locked_message minutes)
  login_refusal x = raised x

module _ (e : Env) where
  unfoldable pub register :
      (e.users.State → e.users.State) → SignupRequest → AccountApi e (Reply User)
  register race payload = do
    made ← (λ w. catching_auth register_refusal (signup e race payload w))
    let (user, email_sent) = made
    pure (reply (if_sent email_sent) user)

  -- `try` around the resending, whose delivery that fails is logged.
  resend_answer :
      Result AuthError (Unit {0}) × World e → Result AccountError (Reply (Unit {0})) × World e
  resend_answer (ok done, w) = (ok (reply resent tt), w)
  resend_answer (err email_delivery, w) = (ok (reply resent tt), w)
  resend_answer (err email_already_verified, w) = (err already_verified, w)
  resend_answer (err x, w) = (err (raised x), w)

  unfoldable pub resend_verification : Text → AccountApi e (Reply (Unit {0}))
  unfolding resend_answer
  resend_verification email w = resend_answer (resend_verification_email e email w)

  unfoldable pub reset_organizer_password : Text → Text → AccountApi e (Reply (Unit {0}))
  reset_organizer_password token new_password = do
    (λ w. catching_auth reset_refusal (reset_password e token new_password w))
    pure (reply (codes "Password reset successful. Please proceed to login.") tt)

  unfoldable pub login :
      (ℕ → Text) → LoginRequest → Request → AccountApi e (Reply LoginUserResponse)
  login decimal payload request = do
    signed_in ← (λ w. catching_auth (login_refusal decimal) (signin e payload (some request) w))
    let (user, access_token, refresh_token) = signed_in
    pure (reply_with (codes "Login successful") (login_user user) (set access_token refresh_token))

  refresh_with : Option Text → Option Text → Request → AccountApi e (Reply (Unit {0}))
  refresh_with none access_token request = raise (http 401 (codes "Refresh token missing"))
  refresh_with (some refresh_token) access_token request = do
    pair ← (λ w.
        catching_auth refresh_refusal
          (refresh_session e refresh_token access_token (some request) w))
    let (new_access, new_refresh) = pair
    pure (reply_with (codes "Token refreshed") tt (set new_access new_refresh))

  -- The cookies of the request: the refresh token and the access token.
  unfoldable pub refresh : Option Text → Option Text → Request → AccountApi e (Reply (Unit {0}))
  unfolding refresh_with
  refresh refresh_cookie access_cookie request =
      refresh_with (given refresh_cookie) access_cookie request

  unfoldable pub logout : Option Text → Option Text → AccountApi e Cookies
  logout refresh_cookie access_cookie = do
    (λ w. catching_auth raised (logout_session e refresh_cookie access_cookie w))
    pure deleted

  forgot_answer :
      Result AuthError (Unit {0}) × World e → Result AccountError (Reply (Unit {0})) × World e
  forgot_answer (ok done, w) = (ok (reply reset_sent tt), w)
  forgot_answer (err email_delivery, w) = (ok (reply reset_sent tt), w)
  forgot_answer (err x, w) = (err (raised x), w)

  unfoldable pub forgot_password : Text → AccountApi e (Reply (Unit {0}))
  unfolding forgot_answer
  forgot_password email w = forgot_answer (request_password_reset e email w)

  unfoldable pub list_sessions :
      User → Option Text → ℕ → ℕ → AccountApi e (Reply SessionListResponse)
  list_sessions current_user refresh_cookie page limit w = catching_auth raised (
      (do
        current_family_id ← resolve_current_family_id e refresh_cookie
        listed ← list_user_sessions e current_user.id current_family_id page limit
        pure (reply (codes "Active sessions retrieved.") listed))
        w)

  unfoldable pub logout_all : User → Option Text → AccountApi e (Reply ℕ)
  logout_all current_user access_cookie w = catching_auth raised (
      (do
        count ← revoke_all_user_sessions e current_user.id access_cookie
        pure (reply_with (codes "All sessions have been terminated.") count deleted))
        w)
