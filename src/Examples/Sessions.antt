-- ===== src/Examples/Sessions.antt =====
-- Two sign-ins from the first state.
use social_badge_api.Common.{refl, arith, none, codes}
use social_badge_api.Auth.State.{World, close}
use social_badge_api.Auth.Signin.{LoginRequest, signin}
use social_badge_api.Auth.Sessions.{sign_in, here, next}
use social_badge_api.Auth.Sessions.Invariant.{Reach-IsSound, IsSound}
use social_badge_api.Auth.Samples.{env, start}

abbrev login : LoginRequest
login = record { email = codes "jane@example.com"; password = codes "Secret1!" }

start-IsSound : IsSound env start
start-IsSound = record { one_live = λ f. omega arith; drawn = tt; settled = refl }

abbrev signed_in : World env
signed_in = (close env (signin env login none) start).1

Reach-IsSound_example : IsSound env (close env (signin env login none) signed_in).1
Reach-IsSound_example =
    Reach-IsSound env (λ a b h. h) start-IsSound
      (next (next here (sign_in login none)) (sign_in login none))
