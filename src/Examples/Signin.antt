-- ===== src/Examples/Signin.antt =====
-- Jane signs in, and mistypes her password.
use social_badge_api.Token.{create_refresh_token}
use social_badge_api.Token.{create_access_token}
use social_badge_api.Common.{text_eq}
use social_badge_api.Common.{◌≡◌, refl, none, codes, [], ◌∷◌}
use social_badge_api.Common.Exec.{ok}
use social_badge_api.Auth.State.{World}
use social_badge_api.Auth.Lockout.{check_lockout}
use social_badge_api.Auth.Signin.{LoginRequest, issue, password_matches, signin, open_session}
use social_badge_api.Auth.Signin.Outcomes.{signin-SignedIn, SignedIn, signin-no_enumeration}
use social_badge_api.Auth.Samples.{env, start, jane}
use social_badge_api.Security.{verify_password}

abbrev login : LoginRequest
login = record { email = codes "jane@example.com"; password = codes "Secret1!" }

abbrev signed_in : World env
signed_in = (signin env login none start).1

sign_in_once : signin env login none start ≡ (ok (jane, 600 ∷ 0 ∷ [], 600 ∷ 1 ∷ []), signed_in)
unfolding signin check_lockout password_matches verify_password open_session issue text_eq
    create_access_token create_refresh_token
sign_in_once = refl

signin-SignedIn_example : SignedIn env login none start signed_in jane (600 ∷ 0 ∷ []) (600 ∷ 1 ∷ [])
signin-SignedIn_example =
    signin-SignedIn env login none start signed_in jane (600 ∷ 0 ∷ []) (600 ∷ 1 ∷ []) sign_in_once

abbrev mistyped : LoginRequest
mistyped = record { email = codes "jane@example.com"; password = codes "secret1!" }

abbrev nobody : World env
nobody = record start { db = record start.db { users = [] } }

signin-no_enumeration_example :
    ((signin env mistyped none nobody).0 ≡ (signin env mistyped none start).0)
    × ((signin env mistyped none nobody).1.redis ≡ (signin env mistyped none start).1.redis)
unfolding password_matches verify_password text_eq
signin-no_enumeration_example =
    signin-no_enumeration env mistyped none nobody start jane refl refl refl refl refl
