-- ===== src/Auth/Gate.antt =====
-- app/dependencies.py: who a request comes from. An identifier that is not a UUID is taken as unknown.
pub mod Access
use social_badge_api.Common.{
  ℕ, Bool, true, false, not, ◌||◌, ◌&&◌, Option, none, some, List, [], ◌∷◌, Text, codes, text_eq,
  truthy, ltb, ◌==◌, if◌then◌else◌,
}
use social_badge_api.Common.Exec.{ok, pure, raise, raise_if, or_raise, gets, ◌>>=◌, ◌>>◌}
use social_badge_api.Platform.Table.{Table}
use social_badge_api.Token.{is_token_blacklisted}
use social_badge_api.Auth.State.{
  Env, User, AuthError, not_authenticated, could_not_validate, token_revoked, user_not_found,
  admin_required, World, Auth, by_id,
}
use social_badge_api.Auth.Logout.{given}
use social_badge_api.Auth.Verify.{user_named}

-- app/models/roles.py
pub record Role : Type 0 where
  pub id : ℕ
  pub name : Text

pub record UserRole : Type 0 where
  pub id : ℕ
  pub user_id : ℕ
  pub role_id : ℕ

module _ (e : Env) where
  unfoldable pub get_current_user : Option Text → Auth e User
  get_current_user cookie = do
    token ← or_raise (given cookie) not_authenticated
    now ← gets (λ w. w.clock)
    payload ← or_raise (e.crypto.jwt_decode now token) could_not_validate
    jti ← or_raise (given payload.jti) could_not_validate
    revoked ← gets (λ w. is_token_blacklisted e.cfg e.redis jti w.clock w.redis)
    raise_if revoked token_revoked
    user_id ← or_raise payload.sub could_not_validate
    found ← gets (λ w. user_named e (some user_id) w.db.users)
    or_raise found user_not_found

module _ (e : Env) (roles : Table Role) (links : Table UserRole) (r : roles.State)
    (l : links.State) where
  -- The join of the two tables; a role is one row, since its name is unique.
  unfoldable pub is_admin : ℕ → Bool
  is_admin user_id = elim (roles.first (λ x. text_eq x.name (codes "admin")) r) [
    | none ↦ false
    | some admin ↦ ltb 0 (links.count (λ x. (x.user_id == user_id) && (x.role_id == admin.id)) l)
  ]

  unfoldable pub get_current_admin : Option Text → Auth e User
  unfolding is_admin
  get_current_admin cookie = do
    token ← or_raise (given cookie) admin_required
    now ← gets (λ w. w.clock)
    payload ← or_raise (e.crypto.jwt_decode now token) could_not_validate
    jti ← or_raise (given payload.jti) admin_required
    revoked ← gets (λ w. is_token_blacklisted e.cfg e.redis jti w.clock w.redis)
    raise_if revoked admin_required
    user_id ← or_raise payload.sub admin_required
    found ← gets (λ w. user_named e (some user_id) w.db.users)
    user ← or_raise found admin_required
    raise_if (not (is_admin user.id)) admin_required
    pure user
