-- ===== src/Auth/Google.antt =====
-- `authenticate_with_google` and `_upsert_google_user` of app/services/auth.py.
pub mod Upsert
use social_badge_api.Common.{
  ℕ, Bool, true, false, not, ◌&&◌, Option, none, some, List, [], ◌∷◌, Text, codes, truthy, text_eq,
  ◌==◌, if◌then◌else◌,
}
use social_badge_api.Common.Exec.{
  Result, ok, err, pure, raise, raise_if, or_raise, gets, ◌>>=◌, ◌>>◌,
}
use social_badge_api.Common.Strip.{is_space, lstrip, strip, before}
use social_badge_api.Token.{get_google_oauth_state}
use social_badge_api.Auth.Answers.{
  Google, GoogleUser, bad_google, nonblank, check_tokens, check_user_info, subjects_agree,
  first_name_of, last_name_of,
}
use social_badge_api.Auth.State.{
  Env, User, AuthProvider, AuthError, google_oauth, integrity_error, World, Auth, commit, rollback,
  draw, on_users, on_providers, by_email, by_id, flush, fits_user,
}

-- AuthProvider.provider == "google", AuthProvider.provider_user_id == google_subject
abbrev pub by_subject : Text → AuthProvider → Bool
by_subject subject p =
    text_eq p.provider (codes "google")
    && elim p.provider_user_id [ none ↦ false | some s ↦ text_eq s subject ]

-- The unique constraint on `provider` and `user_id`.
abbrev pub google_of : ℕ → AuthProvider → Bool
google_of user_id p = text_eq p.provider (codes "google") && (p.user_id == user_id)

abbrev pub google_user : GoogleUser → ℕ → User
google_user info id = record {
  id = id;
  first_name = first_name_of info;
  last_name = last_name_of info;
  email = info.email;
  password_hash = none;
  is_email_verified = true;
  profile_photo_url = info.picture;
  role = none;
}

abbrev pub adopt : Option Text → User → User
adopt none u = record u { is_email_verified = true }
adopt (some picture) u = record u { is_email_verified = true; profile_photo_url = some picture }

-- user.password_hash is not None and not user.is_email_verified
abbrev pub is_pending : User → Bool
is_pending u = elim u.password_hash [ none ↦ false | some hash ↦ not u.is_email_verified ]

module _ (e : Env) where
  abbrev pub link : Text → ℕ → ℕ → AuthProvider
  link subject user_id id = record {
    id = id;
    provider = codes "google";
    provider_user_id = some subject;
    user_id = user_id;
    label = codes "Google";
    is_active = true;
  }

  -- The new provider row, with the commit that its unique constraint may refuse.
  unfoldable pub add_link : GoogleUser → User → Bool → Auth e (User × Bool)
  add_link info user is_new = do
    d ← draw e
    clash ← gets (λ w. e.providers.count (google_of user.id) w.db.providers)
    on_providers e (e.providers.insert (link info.subject user.id (e.crypto.uuid d)))
    if clash == 0
        then (do commit e; pure (user, is_new))
        else (do rollback e; raise integrity_error)

  unfoldable pub link_account : GoogleUser → Option User → Auth e (User × Bool)
  unfolding add_link
  link_account info none = do
    d ← draw e
    let user = google_user info (e.crypto.uuid d)
    flush e (fits_user user)
    on_users e (e.users.insert user)
    add_link info user true
  link_account info (some user) = do
    raise_if (is_pending user) (google_oauth 409)
    on_users e (e.users.update (by_id e user.id) (adopt info.picture))
    add_link info (adopt info.picture user) false

  unfoldable pub upsert_known : GoogleUser → Option AuthProvider → Auth e (User × Bool)
  unfolding link_account
  upsert_known info (some provider) = do
    found ← gets (λ w. e.users.first (by_id e provider.user_id) w.db.users)
    user ← or_raise found bad_google
    commit e
    pure (user, false)
  upsert_known info none = do
    existing ← gets (λ w. e.users.first (by_email e info.email) w.db.users)
    link_account info existing

  -- _upsert_google_user: the user, and whether it is new
  unfoldable pub upsert_google_user : GoogleUser → Auth e (User × Bool)
  unfolding upsert_known
  upsert_google_user info = do
    provider ← gets (λ w. e.providers.first (by_subject info.subject) w.db.providers)
    upsert_known info provider

  -- get_google_oauth_state on the request's time
  unfoldable pub take_state : Text → Auth e Bool
  take_state state w =
      let (valid, redis) = get_google_oauth_state e.cfg e.redis state w.clock w.redis in
      (ok valid, record w { redis = redis })

  unfoldable pub answered : {A : Type 0} → Result AuthError A → Auth e A
  answered (ok a) w = (ok a, w)
  answered (err x) w = (err x, w)

  unfoldable pub authenticate_with_google : Google → Text → Text → Auth e (User × Bool)
  unfolding take_state answered
  authenticate_with_google g code state = do
    valid ← take_state state
    raise_if (not valid) bad_google
    reply ← answered (g.exchange code)
    tokens ← or_raise (check_tokens reply) bad_google
    let (access_token, id_token) = tokens
    response ← answered (g.user_info access_token)
    info ← or_raise (check_user_info response) bad_google
    raise_if (not (subjects_agree g id_token info.subject)) bad_google
    upsert_google_user info
