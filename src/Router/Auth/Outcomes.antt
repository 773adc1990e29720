-- ===== src/Router/Auth/Outcomes.antt =====
-- What the endpoints of app/routers/v1/auth.py answer, and to whom.
use social_badge_api.Common.{
  ℕ, ◌≡◌, Bool, true, false, Option, none, some, List, [], ◌∷◌, Text, arith, if◌then◌else◌,
}
use social_badge_api.Common.Exec.{Result, ok, err}
use social_badge_api.Common.Sets.{is_in}
use social_badge_api.Ip.{Request, get_client_ip}
use social_badge_api.Settings.{failed_login, render}
use social_badge_api.Token.{get_google_oauth_state}
use social_badge_api.Auth.State.{Env, User, World, by_email, fits_user, fits_within}
use social_badge_api.Auth.Signup.{SignupRequest, signup, renew_token, resend_verification_email}
use social_badge_api.Auth.Lockout.{check_lockout}
use social_badge_api.Auth.Signin.{LoginRequest, signin, issue}
use social_badge_api.Auth.Password.{request_password_reset, reset_password}
use social_badge_api.Auth.Refresh.{refresh_session, successor}
use social_badge_api.Auth.Logout.{logout_session}
use social_badge_api.Auth.Answers.{Google}
use social_badge_api.Auth.Google.{authenticate_with_google}
use social_badge_api.Router.Profile.{AccountError, http, raised}
use social_badge_api.Router.Auth.{
  kept, reply, resent, reset_sent, already_verified, register, resend_verification,
  reset_organizer_password, login, refresh, logout, forgot_password,
}
use social_badge_api.Router.Auth.Google.{login_page, google_callback}
use social_badge_api.Auth.Signup.Unique.{candidate}

-- The call succeeds, or refuses with one of the statuses: no exception of the service gets through.
abbrev pub Refuses : {A : Type 0} → List ℕ → Result AccountError A → Type 0
Refuses statuses (ok a) = Unit
Refuses statuses (err (http status detail)) = is_in status statuses ≡ true
Refuses statuses (err (raised x)) = ⊥

-- There is a user, and the address is verified.
abbrev pub is_verified : Option User → Bool
is_verified none = false
is_verified (some u) = u.is_email_verified

module _ (e : Env) (w : World e) where
  -- What Redis holds as the count of failures, if anything, reads as a number.
  abbrev pub counts : Text → Bool
  counts email = elim (e.redis.get (render (failed_login email)) w.clock w.redis) [
    | none ↦ true
    | some attempts ↦ elim (e.redis.int attempts) [ none ↦ false | some n ↦ true ]
  ]

  register-Refuses :
      (race : e.users.State → e.users.State) (payload : SignupRequest)
      → fits_user (candidate e race payload w) ≡ true
      → Refuses (409 ∷ []) (register e race payload w).0
  unfolding register signup renew_token
  register-Refuses race payload fits = ground (arith, fits)

  login-Refuses :
      (decimal : ℕ → Text) (payload : LoginRequest) (request : Request)
      → counts payload.email ≡ true
      → fits_within 45 (get_client_ip request) ≡ true
      → Refuses (401 ∷ 403 ∷ 423 ∷ []) (login e decimal payload request w).0
  unfolding login signin check_lockout issue
  login-Refuses decimal payload request h fits = ground arith

  reset-Refuses :
      (token new_password : Text)
      → Refuses (400 ∷ []) (reset_organizer_password e token new_password w).0
  unfolding reset_organizer_password reset_password
  reset-Refuses token new_password = ground arith

  refresh-Refuses :
      (refresh_cookie access_cookie : Option Text) (request : Request)
      → fits_within 45 (get_client_ip request) ≡ true
      → Refuses (401 ∷ []) (refresh e refresh_cookie access_cookie request w).0
  unfolding refresh refresh_session successor
  refresh-Refuses refresh_cookie access_cookie request fits = ground arith

  -- If what Redis holds as the count of failures of the address, if anything, reads as a number,
  -- and the names of the sign-up and the address of the client fit their columns, then sign-up,
  -- login, password reset, refresh and logout succeed or refuse with a status that the endpoint
  -- documents: 409 for the first, 401, 403 or 423 for the second, 400 for the third, 401 for the
  -- fourth, none for the last; no exception of a service gets through.
  pub accounts-Refuse :
      (race : e.users.State → e.users.State) (decimal : ℕ → Text) (payload : SignupRequest)
      (credentials : LoginRequest) (token new_password : Text)
      (refresh_cookie access_cookie : Option Text) (request : Request)
      → counts credentials.email ≡ true
      → fits_user (candidate e race payload w) ≡ true
      → fits_within 45 (get_client_ip request) ≡ true
      → Refuses (409 ∷ []) (register e race payload w).0
        × Refuses (401 ∷ 403 ∷ 423 ∷ []) (login e decimal credentials request w).0
        × Refuses (400 ∷ []) (reset_organizer_password e token new_password w).0
        × Refuses (401 ∷ []) (refresh e refresh_cookie access_cookie request w).0
        × Refuses [] (logout e refresh_cookie access_cookie w).0
  unfolding logout logout_session
  accounts-Refuse race decimal payload credentials token new_password refresh_cookie access_cookie
        request h names address =
      (
        register-Refuses race payload names,
        login-Refuses decimal credentials request h address,
        reset-Refuses token new_password,
        refresh-Refuses refresh_cookie access_cookie request address,
        ground arith,
      )

  -- Whatever the address, and whether or not the mail is delivered, the endpoint for a forgotten
  -- password gives the same answer and changes no table; with no account of the address nothing
  -- else changes either, and with one the world is what `request_password_reset` leaves.
  pub forgot_password-no_enumeration :
      (email : Text)
      → let (result, w') = forgot_password e email w in
        (result ≡ ok (reply reset_sent tt))
        × (w'.db ≡ w.db)
        × (w'.durable ≡ w.durable)
        × (w' ≡ elim (e.users.first (by_email e email) w.db.users) [
          | none ↦ w
          | some user ↦ (request_password_reset e email w).1
        ])
  unfolding forgot_password request_password_reset
  forgot_password-no_enumeration email = (ground arith, ground arith, ground arith, ground arith)

  pub resend_verification_lem :
      (email : Text)
      → let (result, w') = resend_verification e email w in
        let found = e.users.first (by_email e email) w.db.users in
        (result ≡ (if is_verified found then err already_verified else ok (reply resent tt)))
        × (w'.db ≡ w.db)
        × (w'.durable ≡ w.durable)
  unfolding resend_verification resend_verification_email renew_token
  resend_verification_lem email = (ground arith, ground arith, ground arith)

  -- A return from Google with a state that Redis does not hold is redirected to the login page with
  -- no cookie set, whatever the code and the answers of Google; no table changes, nothing is sent
  -- and no random value is drawn.
  pub google_callback_forged :
      (g : Google) (code state : Text) (request : Request)
      → (get_google_oauth_state e.cfg e.redis state w.clock w.redis).0 ≡ false
      → let (result, w') = google_callback e g code state request w in
        (result ≡ ok (record { url = login_page 400; cookies = kept }))
        × (w'.db ≡ w.db)
        × (w'.durable ≡ w.durable)
        × (w'.outbox ≡ w.outbox)
        × (w'.draws ≡ w.draws)
  unfolding google_callback authenticate_with_google
  google_callback_forged g code state request h =
      (ground arith, ground arith, ground arith, ground arith, ground arith)
