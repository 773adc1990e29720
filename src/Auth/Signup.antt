-- ===== src/Auth/Signup.antt =====
-- `signup` and `resend_verification_email` of app/services/auth.py.
pub mod Unique
use social_badge_api.Common.{
  ℕ, Bool, true, false, not, Option, none, some, Text, codes, if◌then◌else◌,
}
use social_badge_api.Common.Exec.{ok, err, pure, raise, raise_if, gets, modify, ◌>>=◌, ◌>>◌}
use social_badge_api.Token.{
  generate_token, store_verification_token, revoke_previous_verification_token,
}
use social_badge_api.Auth.State.{
  Env, User, AuthProvider, AuthError, email_conflict, email_already_verified, email_delivery,
  verification_email, World, Auth, commit, rollback, draw, on_redis, on_users, on_providers,
  by_email, send, flush, fits_user,
}

pub record SignupRequest : Type 0 where
  pub first_name : Text
  pub last_name : Option Text
  pub email : Text
  pub password : Text

module _ (e : Env) where
  -- Revokes the outstanding token of a user, and stores a new one: the raw token.
  unfoldable pub renew_token : ℕ → Auth e Text
  renew_token user_id = do
    now ← gets (λ w. w.clock)
    let name = e.crypto.uuid_text user_id
    on_redis e (revoke_previous_verification_token e.cfg e.redis name now)
    d ← draw e
    let (raw_token, token_hash) = generate_token e.crypto d
    on_redis e (store_verification_token e.cfg e.redis token_hash name now)
    pure raw_token

  -- What other transactions commit meanwhile.
  interfere : (e.users.State → e.users.State) → Auth e (Unit {0})
  interfere race = modify (λ w. record w {
    db = record w.db { users = race w.db.users };
    durable = record w.durable { users = race w.durable.users };
  })

  -- The INSERT of a user: the database refuses an e-mail that stands in the table.
  insert_user : User → Option User → Auth e (Unit {0})
  insert_user user none = on_users e (e.users.insert user)
  insert_user user (some other) = do rollback e; raise email_conflict

  abbrev pub new_user : SignupRequest → ℕ → Text → User
  new_user payload id password_hash = record {
    id = id;
    first_name = payload.first_name;
    last_name = payload.last_name;
    email = payload.email;
    password_hash = some password_hash;
    is_email_verified = false;
    profile_photo_url = none;
    role = none;
  }

  create_account :
      SignupRequest → Option User → (e.users.State → e.users.State) → Auth e (User × Bool)
  unfolding renew_token interfere insert_user
  create_account payload (some other) race = raise email_conflict
  create_account payload none race = do
    salt ← draw e
    id ← draw e
    let user = new_user payload (e.crypto.uuid id) (e.crypto.hashpw salt payload.password)
    interfere race
    flush e (fits_user user)
    clash ← gets (λ w. e.users.first (by_email e payload.email) w.db.users)
    insert_user user clash
    provider_id ← draw e
    on_providers e (
        e.providers.insert (record {
          id = e.crypto.uuid provider_id;
          provider = codes "email";
          provider_user_id = none;
          user_id = user.id;
          label = codes "Email and Password";
          is_active = true;
        }))
    raw_token ← renew_token user.id
    commit e
    email_sent ← send e (verification_email payload.email raw_token)
    pure (user, email_sent)

  -- `race` is what other transactions commit between the SELECT and the INSERT.
  unfoldable pub signup : (e.users.State → e.users.State) → SignupRequest → Auth e (User × Bool)
  unfolding create_account
  signup race payload = do
    existing ← gets (λ w. e.users.first (by_email e payload.email) w.db.users)
    create_account payload existing race

  resend_to : Option User → Auth e (Unit {0})
  unfolding renew_token
  resend_to none = pure tt
  resend_to (some user) = do
    raise_if user.is_email_verified email_already_verified
    raw_token ← renew_token user.id
    sent ← send e (verification_email user.email raw_token)
    raise_if (not sent) email_delivery

  unfoldable pub resend_verification_email : Text → Auth e (Unit {0})
  unfolding resend_to
  resend_verification_email email = do
    user ← gets (λ w. e.users.first (by_email e email) w.db.users)
    resend_to user
