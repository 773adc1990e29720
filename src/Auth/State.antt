-- ===== src/Auth/State.antt =====
-- The rows, services and errors of app/services/auth.py, and its database session.
-- Times are microseconds. A call reads one time throughout; time passes between calls.
use social_badge_api.Common.{
  ℕ, suc, Bool, Option, List, ◌∷◌, Text, ◌==◌, text_eq, true, ◌&&◌, none, some, length, leb,
  if◌then◌else◌,
}
use social_badge_api.Common.Exec.{Exec, ok, modify, pure, raise, ◌>>◌}
use social_badge_api.Platform.Table.{Table}
use social_badge_api.Platform.Redis.{Redis}
use social_badge_api.Platform.Crypto.{Crypto}
use social_badge_api.Settings.{Settings}

-- app/models/users.py, less the times that the database sets by itself.
pub record User : Type 0 where
  pub id : ℕ
  pub first_name : Text
  pub last_name : Option Text
  pub email : Text
  pub password_hash : Option Text
  pub is_email_verified : Bool
  pub profile_photo_url : Option Text
  pub role : Option Text

-- app/models/auth.py
pub record AuthProvider : Type 0 where
  pub id : ℕ
  pub provider : Text
  pub provider_user_id : Option Text
  pub user_id : ℕ
  pub label : Text
  pub is_active : Bool

pub record RefreshToken : Type 0 where
  pub id : ℕ
  pub user_id : ℕ
  pub token_hash : Text
  pub created_at : ℕ
  pub expires_at : ℕ
  pub is_revoked : Bool
  pub family_id : ℕ
  pub user_agent : Option Text
  pub ip_address : Option Text
  pub last_used_at : Option ℕ

-- The messages that app/services/email.py sends for this component.
pub data Mail : Type 0 where
  verification_email : Text → Text → Mail
  account_lock_email : Text → Mail
  password_reset_email : Text → Text → Mail
  security_alert_email : Text → ℕ → Mail
  onboarding_email : Text → Mail

-- app/core/exceptions/base.py. `account_locked` carries the minutes that its message names.
pub data AuthError : Type 0 where
  account_locked : Option ℕ → AuthError
  email_already_verified email_conflict email_delivery email_not_verified : AuthError
  invalid_credentials invalid_password_reset_token invalid_refresh_token : AuthError
  google_oauth : ℕ → AuthError
  value_error integrity_error : AuthError
  -- HTTPException of app/routers/v1/auth.py: 401, 400 and 500 of `verify_email`; `database_failed` is
  -- also a DataError
  link_expired user_already_verified database_failed : AuthError
  -- HTTPException of app/dependencies.py, with their status codes: 401 and 403
  not_authenticated could_not_validate token_revoked user_not_found admin_required : AuthError

-- What the services call. `smtp` says whether a message is accepted, after the earlier attempts.
pub record Env : Type 1 where
  pub cfg : Settings
  pub crypto : Crypto
  pub redis : Redis
  pub users : Table User
  pub providers : Table AuthProvider
  pub tokens : Table RefreshToken
  pub smtp : List Mail → Mail → Bool

-- ip_address is String(45); first_name and last_name are String(200).
abbrev pub fits_within : ℕ → Option Text → Bool
fits_within size none = true
fits_within size (some t) = leb (length t) size

abbrev pub fits_token : RefreshToken → Bool
fits_token t = fits_within 45 t.ip_address

abbrev pub fits_user : User → Bool
fits_user u = leb (length u.first_name) 200 && fits_within 200 u.last_name

module _ (e : Env) where
  pub record Db : Type 0 where
    pub users : e.users.State
    pub providers : e.providers.State
    pub tokens : e.tokens.State

  -- `db` is what the request's session sees, `durable` what is committed. `draws` counts the random
  -- values drawn so far, and `outbox` is what was handed to the mail server, the newest first.
  pub record World : Type 0 where
    pub db : Db
    pub durable : Db
    pub redis : e.redis.State
    pub clock : ℕ
    pub draws : ℕ
    pub outbox : List Mail

  abbrev pub Auth : Type 0 → Type 0
  Auth A = Exec AuthError World A

module _ (e : Env) where
  -- await session.commit(), await session.rollback()
  abbrev pub commit : Auth e (Unit {0})
  commit = modify (λ w. record w { durable = w.db })

  abbrev pub rollback : Auth e (Unit {0})
  rollback = modify (λ w. record w { db = w.durable })

  -- The flush of new values: a DataError if one does not fit its column.
  abbrev pub flush : Bool → Auth e (Unit {0})
  flush fits = if fits then pure tt else (do rollback; raise database_failed)

  -- The number of a fresh random value.
  abbrev pub draw : Auth e ℕ
  draw w = (ok w.draws, record w { draws = suc w.draws })

  abbrev pub on_redis : (e.redis.State → e.redis.State) → Auth e (Unit {0})
  on_redis f = modify (λ w. record w { redis = f w.redis })

  abbrev pub on_users : (e.users.State → e.users.State) → Auth e (Unit {0})
  on_users f = modify (λ w. record w { db = record w.db { users = f w.db.users } })

  abbrev pub on_providers : (e.providers.State → e.providers.State) → Auth e (Unit {0})
  on_providers f = modify (λ w. record w { db = record w.db { providers = f w.db.providers } })

  abbrev pub on_tokens : (e.tokens.State → e.tokens.State) → Auth e (Unit {0})
  on_tokens f = modify (λ w. record w { db = record w.db { tokens = f w.db.tokens } })

  abbrev pub by_email : Text → User → Bool
  by_email email u = text_eq u.email email

  abbrev pub by_id : ℕ → User → Bool
  by_id id u = u.id == id

  -- One attempt to send; `false` is an EmailDeliveryError.
  abbrev pub send : Mail → Auth e Bool
  send m w = (ok (e.smtp w.outbox m), record w { outbox = m ∷ w.outbox })

  -- app/db/session.py: the session of a request closes without a commit, so what it did not commit is
  -- lost.
  abbrev pub close : {A : Type 0} → Auth e A → Auth e A
  close m w = let (result, w') = m w in (result, record w' { db = w'.durable })
