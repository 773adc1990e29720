-- ===== src/Auth/Sessions.antt =====
-- The sessions of all users through any sequence of sign-ins, refreshes, logouts and "logout all"
-- calls, each in a request of its own.
pub mod Invariant
use social_badge_api.Common.{ℕ, ◌≤◌, Option, Text}
use social_badge_api.Ip.{Request}
use social_badge_api.Auth.State.{Env, World, close}
use social_badge_api.Auth.Signin.{LoginRequest, signin}
use social_badge_api.Auth.Refresh.{refresh_session}
use social_badge_api.Auth.Logout.{logout_session, revoke_all_user_sessions}

module _ (e : Env) where
  pub data Step (w : World e) : World e → Type 0 where
    sign_in : (p : LoginRequest) (q : Option Request) → Step w (close e (signin e p q) w).1
    refresh :
        (raw : Text) (access : Option Text) (q : Option Request)
        → Step w (close e (refresh_session e raw access q) w).1
    log_out : (raw access : Option Text) → Step w (close e (logout_session e raw access) w).1
    log_out_all :
        (user_id : ℕ) (access : Option Text)
        → Step w (close e (revoke_all_user_sessions e user_id access) w).1
    wait : (later : ℕ) → w.clock ≤ later → Step w (record w { clock = later })

  pub data Reach (w : World e) : World e → Type 0 where
    here : Reach w w
    next : {u v : World e} → Reach w u → Step u v → Reach w v
