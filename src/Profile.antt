-- ===== src/Profile.antt =====
-- app/services/profile.py: a user's own profile. The user's row is in the world of the accounts, and the
-- badges and the assets in that of the content; one database session serves both.
pub mod PublicId
pub mod Update
pub mod Deletion
pub mod Samples
use social_badge_api.Common.{
  ℕ, suc, Bool, true, false, not, ◌&&◌, Option, none, some, List, [], ◌∷◌, ◌++◌, map, Text, truthy,
  ltb, ◌==◌, if◌then◌else◌,
}
use social_badge_api.Common.Exec.{
  Exec, Result, ok, err, pure, raise, raise_if, or_raise, gets, modify, ◌>>=◌, ◌>>◌,
}
use social_badge_api.Common.Sets.{is_in}
use social_badge_api.Security.{verify_password}
use social_badge_api.Auth.State.{
  User, AuthError, invalid_credentials, integrity_error, database_failed, by_id, by_email,
}
use social_badge_api.Auth.State as Accounts
use social_badge_api.Auth.Logout.{logout_session}
use social_badge_api.Notification.{or_keep}
use social_badge_api.Content.State.{Badge, ContentError, deleted}
use social_badge_api.Content.State as Contents
use social_badge_api.Badge.{full, upload_logo, try_delete}

-- The arguments of `update_profile`; the columns `last_name` and `role` may be null.
pub record ProfileUpdates : Type 0 where
  pub first_name : Option Text
  pub last_name : Option Text
  pub email : Option Text
  pub role : Option Text

abbrev pub some_or_keep : Option Text → Option Text → Option Text
some_or_keep none old = old
some_or_keep (some new) old = some new

abbrev pub with_profile : ProfileUpdates → User → User
with_profile p u = record u {
  first_name = or_keep p.first_name u.first_name;
  last_name = some_or_keep p.last_name u.last_name;
  email = or_keep p.email u.email;
  role = some_or_keep p.role u.role;
}

module _ (a : Accounts.Env) where
  -- The commit of a changed address fails if another user has it, which is unique.
  abbrev commit_email : User → Accounts.Auth a (Unit {0})
  commit_email new = do
    others ←
        gets (λ w. a.users.count (λ u. by_email a new.email u && not (by_id a new.id u)) w.db.users)
    if ltb 0 others then (do Accounts.rollback a; raise integrity_error) else Accounts.commit a

  unfoldable pub update_profile : User → ProfileUpdates → Accounts.Auth a User
  update_profile user updates = do
    Accounts.on_users a (a.users.update (by_id a user.id) (with_profile updates))
    commit_email (with_profile updates user)
    refreshed ← gets (λ w. a.users.first (by_id a user.id) w.db.users)
    or_raise refreshed database_failed

  -- verify_password is not called for an account without a password.
  abbrev pub knows_password : User → Text → Bool
  knows_password user current = elim (full user.password_hash) [
    | none ↦ false
    | some hashed ↦ verify_password a.crypto current hashed
  ]

  unfoldable pub change_password :
      User → Text → Text → Option Text → Option Text → Accounts.Auth a (Unit {0})
  change_password user current_password new_password access_token refresh_token = do
    raise_if (not (knows_password user current_password)) invalid_credentials
    salt ← Accounts.draw a
    Accounts.on_users a (
        a.users.update (by_id a user.id)
          (λ u. record u { password_hash = some (a.crypto.hashpw salt new_password) }))
    Accounts.commit a
    logout_session a refresh_token access_token

module _ (a : Accounts.Env) (c : Contents.Env) where
  pub record ProfileWorld : Type 0 where
    pub account : Accounts.World a
    pub content : Contents.World c

  abbrev pub Profile : Type 0 → Type 0
  Profile A = Exec ContentError ProfileWorld A

module _ (a : Accounts.Env) (c : Contents.Env) (public_id_of : Text → Option Text) where
  -- A call on the content alone.
  abbrev in_content : {A : Type 0} → Contents.Content c A → Profile a c A
  in_content m w = let (result, content') = m w.content in (result, record w { content = content' })

  abbrev on_users : (a.users.State → a.users.State) → Profile a c (Unit {0})
  on_users f = modify (λ w. record w {
    account = record w.account { db = record w.account.db { users = f w.account.db.users } };
  })

  -- One commit for the rows of both.
  abbrev pub commit : Profile a c (Unit {0})
  commit = modify (λ w. record w {
    account = record w.account { durable = w.account.db };
    content = record w.content { durable = w.content.db };
  })

  abbrev pub with_photo : Option Text → User → User
  with_photo url u = record u { profile_photo_url = url }

  -- The public id of the present photo.
  abbrev pub old_public_id : User → Option Text
  old_public_id user = elim (full user.profile_photo_url) [
    | none ↦ none
    | some url ↦ public_id_of url
  ]

  -- The public ids in order; each deletion is attempted, and what it raises is logged and dropped.
  abbrev pub try_each : List Text → Contents.Content c (Unit {0})
  try_each [] = pure tt
  try_each (public_id ∷ rest) = do try_delete c (some public_id); try_each rest

  unfoldable pub update_profile_photo : User → Profile a c User
  unfolding upload_logo try_delete
  update_profile_photo user = do
    uploaded ← in_content (upload_logo c)
    let (url, public_id) = uploaded
    on_users (a.users.update (by_id a user.id) (with_photo (some url)))
    commit
    in_content (try_delete c (full (old_public_id user)))
    pure (with_photo (some url) user)

  unfoldable pub remove_profile_photo : User → Profile a c User
  unfolding try_delete
  remove_profile_photo user = elim (full user.profile_photo_url) [
    | none ↦ pure user
    | some url ↦ do
      on_users (a.users.update (by_id a user.id) (with_photo none))
      commit
      in_content (try_delete c (full (public_id_of url)))
      pure (with_photo none user)
  ]

  abbrev pub given_id : Option Text → List Text
  given_id none = []
  given_id (some t) = if truthy t then t ∷ [] else []

  -- The assets of the badges: the logo, and the thumbnail where its URL names one.
  abbrev pub assets_of : List Badge → List Text
  assets_of [] = []
  assets_of (b ∷ bs) =
      given_id b.logo_public_id
      ++ ((elim (full b.thumbnail_url) [ none ↦ [] | some url ↦ given_id (public_id_of url) ])
          ++ assets_of bs)

  abbrev pub photo_of : Option User → List Text
  photo_of none = []
  photo_of (some user) = given_id (old_public_id user)

  abbrev pub owned_by : ℕ → Badge → Bool
  owned_by user_id b = b.organiser_id == user_id

  -- DELETE FROM users: the foreign keys of the other tables cascade.
  abbrev pub delete_user : ℕ → Profile a c (Unit {0})
  delete_user user_id = modify (λ w.
      let ids =
        map (λ (b : Badge). b.id) (c.badges.select (owned_by user_id) w.content.db.badges) in
      record w {
        account = record w.account {
          db = record w.account.db {
            users = a.users.delete (by_id a user_id) w.account.db.users;
            providers = a.providers.delete (λ p. p.user_id == user_id) w.account.db.providers;
            tokens = a.tokens.delete (λ t. t.user_id == user_id) w.account.db.tokens;
          };
        };
        content = record w.content {
          db = record w.content.db {
            badges = c.badges.delete (owned_by user_id) w.content.db.badges;
            hashtags = c.hashtags.delete (λ h. is_in h.badge_id ids) w.content.db.hashtags;
            notifications =
                c.notifications.delete (λ n. n.user_id == user_id) w.content.db.notifications;
            preferences = c.preferences.delete (λ p. p.user_id == user_id) w.content.db.preferences;
          };
        };
      })

  -- `try` around logout_session: what was done before it raised stays.
  abbrev pub try_logout : Option Text → Option Text → Profile a c (Unit {0})
  try_logout refresh_token access_token w =
      (ok tt, record w { account = (logout_session a refresh_token access_token w.account).1 })

  unfoldable pub delete_profile : ℕ → Option Text → Option Text → Profile a c (Unit {0})
  unfolding try_delete
  delete_profile user_id access_token refresh_token = do
    user ← gets (λ w. a.users.first (by_id a user_id) w.account.db.users)
    badges ← gets (λ w. c.badges.select (owned_by user_id) w.content.db.badges)
    delete_user user_id
    commit
    in_content (try_each (photo_of user ++ assets_of badges))
    try_logout refresh_token access_token
