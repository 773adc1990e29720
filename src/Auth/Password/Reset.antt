-- ===== src/Auth/Password/Reset.antt =====
-- What a password reset does, and that its token serves once.
use social_badge_api.Common.{
  ℕ, suc, ◌≡◌, ◌∙◌, refl, true, false, not, Option, none, some, map, Text, text_eq_refl, All,
  All-imp, filterb_passes, if◌then◌else◌, arith, ◌==◌,
}
use social_badge_api.Common.Exec.{ok, err}
use social_badge_api.Platform.Redis.{read}
use social_badge_api.Settings.{password_reset, render}
use social_badge_api.Token.{hash_token, get_password_reset_user_id}
use social_badge_api.Auth.State.{
  Env, Db, User, AuthError, invalid_password_reset_token, World, by_id,
}
use social_badge_api.Auth.Password.{owned_by, set_password, reset_password}

module _ (e : Env) where
  -- What Redis holds for a raw reset token.
  abbrev pub stored_for : Text → World e → Option Text
  stored_for raw w =
      read w.clock (e.redis.entry w.redis (render (password_reset (e.crypto.sha256 raw))))

  -- The state that a valid token leads to.
  abbrev reset_world : Text → Text → ℕ → User → World e → World e
  reset_world raw new_password id user w =
      let hash = e.crypto.hashpw w.draws new_password in
      let db : Db e = record {
        users = e.users.update (by_id e user.id) (set_password hash) w.db.users;
        providers = w.db.providers;
        tokens = e.tokens.delete (owned_by id) w.db.tokens;
      } in
      record w {
        db = db;
        durable = db;
        redis = (get_password_reset_user_id e.cfg e.redis (e.crypto.sha256 raw) w.clock w.redis).1;
        draws = suc w.draws;
      }

  reset_runs :
      (raw new_password name : Text) (id : ℕ) (user : User) (w : World e)
      → stored_for raw w ≡ some name
      → e.crypto.parse_uuid name ≡ some id
      → e.users.first (by_id e id) w.db.users ≡ some user
      → reset_password e raw new_password w ≡ (ok tt, reset_world raw new_password id user w)
  unfolding reset_password hash_token get_password_reset_user_id
  reset_runs raw new_password name id user w stored parsed found =
      let k = render (password_reset (e.crypto.sha256 raw)) in
      ground (arith, e.redis.getdel-value k w.clock w.redis ∙ stored, parsed, found)

  -- With a reset token that Redis holds, whose text names an existing user, `reset_password`
  -- succeeds and commits: that user's password hash is the new one and no other user's changes,
  -- none of the user's refresh tokens is left, and Redis no longer holds the token.
  pub reset-Done :
      (raw new_password name : Text) (id : ℕ) (user : User) (w : World e)
      → stored_for raw w ≡ some name
      → e.crypto.parse_uuid name ≡ some id
      → e.users.first (by_id e id) w.db.users ≡ some user
      → let (result, w') = reset_password e raw new_password w in
        let hash = e.crypto.hashpw w.draws new_password in
        (result ≡ ok tt)
        × (w'.durable ≡ w'.db)
        × (e.users.rows w'.db.users
            ≡ map
                (λ u. if u.id == user.id then record u { password_hash = some hash } else u)
                (e.users.rows w.db.users))
        × All (λ t. owned_by id t ≡ false) (e.tokens.rows w'.db.tokens)
        × (stored_for raw w' ≡ none)
  unfolding get_password_reset_user_id
  reset-Done raw new_password name id user w stored parsed found =
      let rows = e.tokens.rows w.db.tokens in
      rw (reset_runs raw new_password name id user w stored parsed found) (
        refl,
        refl,
        rw e.users.rows-update refl,
        rw e.tokens.rows-delete (
            All-imp (λ t. not (owned_by id t) ≡ true) (λ t. owned_by id t ≡ false) _
              (λ t h. ground arith) (filterb_passes (λ t. not (owned_by id t)) rows)),
        rw e.redis.entry-getdel (simp text_eq_refl),
      )

  -- In every outcome the token is taken from Redis.
  redis-reset :
      (raw new_password : Text) (w : World e)
      → let w' = (reset_password e raw new_password w).1 in
        (w'.redis
          ≡ (e.redis.getdel (render (password_reset (e.crypto.sha256 raw))) w.clock w.redis).1)
        × (w'.clock ≡ w.clock)
  unfolding reset_password hash_token get_password_reset_user_id
  redis-reset raw new_password w = (ground arith, ground arith)

  -- A token that Redis does not hold is refused, and no table changes.
  pub reset_invalid :
      (raw new_password : Text) (w : World e)
      → stored_for raw w ≡ none
      → let (result, w') = reset_password e raw new_password w in
        (result ≡ err invalid_password_reset_token) × (w'.db ≡ w.db) × (w'.durable ≡ w.durable)
  unfolding reset_password hash_token get_password_reset_user_id
  reset_invalid raw new_password w gone =
      let k = render (password_reset (e.crypto.sha256 raw)) in
      ground (arith, e.redis.getdel-value k w.clock w.redis ∙ gone)

  -- Whatever the first attempt with a reset token came to, a second one with it is refused as
  -- invalid, at any later clock.
  pub reset_once :
      (raw first_password second_password : Text) (w : World e) (later : ℕ)
      → let w' = (reset_password e raw first_password w).1 in
        (reset_password e raw second_password (record w' { clock = later })).0
        ≡ err invalid_password_reset_token
  reset_once raw first_password second_password w later =
      let w' = (reset_password e raw first_password w).1 in
      let spent : stored_for raw (record w' { clock = later }) ≡ none =
        rw ((redis-reset raw first_password w).0) (rw e.redis.entry-getdel (simp text_eq_refl)) in
      (reset_invalid raw second_password (record w' { clock = later }) spent).0

  -- A reset that fails changes no table.
  pub reset-refused :
      (raw new_password : Text) (w w' : World e) (x : AuthError)
      → reset_password e raw new_password w ≡ (err x, w')
      → (x ≡ invalid_password_reset_token) × (w'.db ≡ w.db) × (w'.durable ≡ w.durable)
  unfolding reset_password
  reset-refused raw new_password w w' x h = ground arith
