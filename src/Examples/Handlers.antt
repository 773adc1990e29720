-- ===== src/Examples/Handlers.antt =====
-- Requests of Jane and of strangers.
use social_badge_api.Common.{◌≡◌, none, some, [], ◌∷◌, refl, codes}
use social_badge_api.Common.Exec.{ok, err}
use social_badge_api.Ip.{Request, get_client_ip}
use social_badge_api.Token.{get_google_oauth_state}
use social_badge_api.Auth.State.{by_email}
use social_badge_api.Auth.Signup.{SignupRequest}
use social_badge_api.Auth.Signin.{LoginRequest}
use social_badge_api.Auth.Password.{request_password_reset}
use social_badge_api.Auth.Answers.{Google, bad_google}
use social_badge_api.Router.Auth.{
  kept, reply, reset_sent, register, reset_organizer_password, login, refresh, logout,
  forgot_password,
}
use social_badge_api.Router.Auth.Google.{login_page, google_callback}
use social_badge_api.Router.Auth.Outcomes.{
  accounts-Refuse, Refuses, forgot_password-no_enumeration, google_callback_forged,
}
use social_badge_api.Auth.Samples.{env, start, with_session}

abbrev request : Request
request = record { user_agent = none; forwarded_for = none; real_ip = none; client_host = none }

abbrev payload : SignupRequest
payload = record {
  first_name = codes "Bob";
  last_name = none;
  email = codes "bob@example.com";
  password = codes "Secret1!";
}

abbrev credentials : LoginRequest
credentials = record { email = codes "jane@example.com"; password = codes "wrong" }

accounts-Refuse_example :
    Refuses (409 ∷ []) (register env (λ s. s) payload with_session).0
    × Refuses (401 ∷ 403 ∷ 423 ∷ []) (login env (λ n. n ∷ []) credentials request with_session).0
    × Refuses
        (400 ∷ [])
        (reset_organizer_password env (codes "raw") (codes "Secret2!") with_session).0
    × Refuses (401 ∷ []) (refresh env (some (codes "raw")) none request with_session).0
    × Refuses [] (logout env (some (codes "raw")) none with_session).0
unfolding get_client_ip
accounts-Refuse_example =
    accounts-Refuse env with_session (λ s. s) (λ n. n ∷ []) payload credentials (codes "raw")
      (codes "Secret2!") (some (codes "raw")) none request refl refl refl

forgot_password-no_enumeration_example :
    let (result, w') = forgot_password env (codes "nobody@example.com") start in
    (result ≡ ok (reply reset_sent tt))
    × (w'.db ≡ start.db)
    × (w'.durable ≡ start.durable)
    × (w' ≡ elim (env.users.first (by_email env (codes "nobody@example.com")) start.db.users) [
      | none ↦ start
      | some user ↦ (request_password_reset env (codes "nobody@example.com") start).1
    ])
forgot_password-no_enumeration_example =
    forgot_password-no_enumeration env start (codes "nobody@example.com")

-- Google is not reached.
abbrev google : Google
google = record {
  exchange = λ code. err bad_google;
  user_info = λ t. err bad_google;
  claimed_subject = λ t. none;
}

google_callback_forged_example :
    let (result, w') = google_callback env google (codes "code") (codes "guess") request start in
    (result ≡ ok (record { url = login_page 400; cookies = kept }))
    × (w'.db ≡ start.db)
    × (w'.durable ≡ start.durable)
    × (w'.outbox ≡ start.outbox)
    × (w'.draws ≡ start.draws)
unfolding get_google_oauth_state
google_callback_forged_example =
    google_callback_forged env start google (codes "code") (codes "guess") request refl
