-- ===== src/Router/Auth/Google.antt =====
-- app/routers/v1/auth.py: the two endpoints of a sign-in with Google.
use social_badge_api.Common.{ℕ, Bool, true, false, some, Text}
use social_badge_api.Common.Exec.{Result, ok, err, pure, ◌>>=◌, ◌>>◌}
use social_badge_api.Token.{generate_token, store_google_oauth_state}
use social_badge_api.Ip.{Request}
use social_badge_api.Auth.State.{
  Env, User, AuthError, google_oauth, onboarding_email, World, Auth, commit, draw, on_redis, send,
  flush, fits_token,
}
use social_badge_api.Auth.Signin.{open_session}
use social_badge_api.Auth.Answers.{Google}
use social_badge_api.Auth.Google.{authenticate_with_google}
use social_badge_api.Router.Profile.{AccountError, raised, catching_auth, AccountApi}
use social_badge_api.Router.Auth.{Cookies, kept, set}

-- Where a browser is sent: to the login page with the message of the error, or into the application.
pub data Location : Type 0 where
  login_page : ℕ → Location
  callback_page : Location

pub record RedirectResponse : Type 0 where
  pub url : Location
  pub cookies : Cookies

module _ (e : Env) where
  draw_state : AccountApi e ℕ
  draw_state w = catching_auth raised (draw e w)

  store_state : Text → AccountApi e (Unit {0})
  store_state state w =
      catching_auth raised (on_redis e (store_google_oauth_state e.cfg e.redis state w.clock) w)

  -- build_google_auth_url, less the text of the URL: the state that the URL carries.
  unfoldable pub google_login : AccountApi e Text
  unfolding draw_state store_state
  google_login = do
    d ← draw_state
    let (state, hash) = generate_token e.crypto d
    store_state state
    pure state

  welcome : User → Bool → Auth e (Unit {0})
  welcome user true = do sent ← send e (onboarding_email user.email); pure tt
  welcome user false = pure tt

  -- The session of the user who came back from Google; a new user is sent a welcome.
  google_session : User → Bool → Request → Auth e RedirectResponse
  unfolding welcome
  google_session user is_new_user request = do
    issued ← open_session e user.id (some request)
    flush e (fits_token issued.row)
    commit e
    welcome user is_new_user
    pure
        (record { url = callback_page; cookies = set issued.access_token issued.raw_refresh_token })

  google_answer :
      Request
      → Result AuthError (User × Bool) × World e
      → Result AccountError RedirectResponse × World e
  unfolding google_session
  google_answer request (ok (user, is_new_user), w) =
      catching_auth raised (google_session user is_new_user request w)
  google_answer request (err (google_oauth message), w) =
      (ok (record { url = login_page message; cookies = kept }), w)
  google_answer request (err x, w) = (err (raised x), w)

  unfoldable pub google_callback : Google → Text → Text → Request → AccountApi e RedirectResponse
  unfolding google_answer
  google_callback g code state request w =
      google_answer request (authenticate_with_google e g code state w)
