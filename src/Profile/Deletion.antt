-- ===== src/Profile/Deletion.antt =====
-- app/services/profile.py: what `delete_profile` leaves.
use social_badge_api.Common.{
  ℕ, suc, ◌≡◌, ◌∙◌, refl, inl, inr, Bool, not, ◌&&◌, Option, List, [], ◌∷◌, ◌++◌, map, Text, countb,
  countb-filterb, countb_never, ◌==◌, if◌then◌else◌, arith,
}
use social_badge_api.Common.Exec.{Result, ok, err}
use social_badge_api.Platform.Table.{Table}
use social_badge_api.Auth.State as Accounts
use social_badge_api.Auth.Logout.{by_token_id, revoke, logout_session}
use social_badge_api.Auth.Logout.Effects.{logout_effect}
use social_badge_api.Content.State.{Badge, Asset, deleted}
use social_badge_api.Content.State as Contents
use social_badge_api.Badge.{try_delete}
use social_badge_api.Notification.{prefs_of, addressed_to}
use social_badge_api.Profile.{
  ProfileWorld, try_each, owned_by, photo_of, assets_of, try_logout, commit, delete_user,
  delete_profile,
}

-- One attempt to delete each asset, in order; the newest is first.
abbrev pub attempts : List Text → List Asset → List Asset
attempts [] log = log
attempts (public_id ∷ rest) log = attempts rest (deleted public_id ∷ log)

abbrev pub of_user : ℕ → Accounts.RefreshToken → Bool
of_user user_id t = t.user_id == user_id

kept_tokens :
    (id user_id : ℕ) (rows : List Accounts.RefreshToken)
    → countb (of_user user_id) (map (λ t. if by_token_id id t then revoke t else t) rows)
      ≡ countb (of_user user_id) rows
kept_tokens id user_id [] = refl
kept_tokens id user_id (t ∷ rows) = ground (arith, kept_tokens id user_id rows)

module _ {Row : Type 0} (t : Table Row) where
  -- A deletion leaves no row that matches, and of the others all.
  none_left : (p : Row → Bool) (s : t.State) → countb p (t.rows (t.delete p s)) ≡ 0
  none_left p s =
      rw t.rows-delete (countb-filterb (λ r. not (p r)) p (t.rows s) ∙ countb_never p (t.rows s))

  others_left :
      (p q : Row → Bool) (s : t.State)
      → countb q (t.rows (t.delete p s)) ≡ countb (λ r. not (p r) && q r) (t.rows s)
  others_left p q s = rw t.rows-delete (countb-filterb (λ r. not (p r)) q (t.rows s))

module _ (a : Accounts.Env) where
  -- Signing out changes no user.
  pub logout_users :
      (raw access : Option Text) (w : Accounts.World a)
      → w.durable ≡ w.db
      → (logout_session a raw access w).1.durable.users ≡ w.db.users
  unfolding logout_session
  logout_users raw access w clean = ground (arith, clean)

  pub logout_ok :
      (raw access : Option Text) (w : Accounts.World a) → (logout_session a raw access w).0 ≡ ok tt
  unfolding logout_session
  logout_ok raw access w = ground arith

  logout_tokens :
      (raw access : Option Text) (user_id : ℕ) (w : Accounts.World a)
      → w.durable ≡ w.db
      → countb (of_user user_id) (a.tokens.rows (logout_session a raw access w).1.durable.tokens)
        ≡ countb (of_user user_id) (a.tokens.rows w.db.tokens)
  logout_tokens raw access user_id w clean = elim (logout_effect a raw access w).1 [
    | inl same ↦ rw (same, clean) refl
    | inr (id, changed) ↦
        rw (changed, a.tokens.rows-update) (kept_tokens id user_id (a.tokens.rows w.db.tokens))
  ]

module _ (a : Accounts.Env) (c : Contents.Env) (public_id_of : Text → Option Text) where
  tried :
      (ids : List Text) (w : Contents.World c)
      → let (result, w') = try_each a c public_id_of ids w in
        (result ≡ ok tt)
        × (w'.db ≡ w.db)
        × (w'.durable ≡ w.durable)
        × (w'.assets ≡ attempts ids w.assets)
  unfolding try_delete
  tried [] w = (refl, refl, refl, refl)
  tried (public_id ∷ rest) w =
      tried rest (record w { calls = suc w.calls; assets = deleted public_id ∷ w.assets })

  module _ (user_id : ℕ) (w : ProfileWorld a c) where
    -- The assets of the user: the photo, then the logo and the thumbnail of each badge.
    abbrev pub user_assets : List Text
    user_assets =
        photo_of a c public_id_of (a.users.first (Accounts.by_id a user_id) w.account.db.users)
        ++ assets_of a c public_id_of
            (c.badges.select (owned_by a c public_id_of user_id) w.content.db.badges)

    -- The call succeeds. In what is committed no row of the user is left and every badge of others is,
    -- and one deletion of each asset was attempted.
    abbrev pub Erased : Result Contents.ContentError (Unit {0}) × ProfileWorld a c → Type 0
    Erased (result, w') =
        (result ≡ ok tt)
        × (countb (Accounts.by_id a user_id) (a.users.rows w'.account.durable.users) ≡ 0)
        × (countb (of_user user_id) (a.tokens.rows w'.account.durable.tokens) ≡ 0)
        × (countb (owned_by a c public_id_of user_id) (c.badges.rows w'.content.durable.badges) ≡ 0)
        × (countb (addressed_to user_id) (c.notifications.rows w'.content.durable.notifications)
            ≡ 0)
        × (countb (prefs_of user_id) (c.preferences.rows w'.content.durable.preferences) ≡ 0)
        × ((q : Badge → Bool)
            → countb q (c.badges.rows w'.content.durable.badges)
              ≡ countb (λ b. not (owned_by a c public_id_of user_id b) && q b)
                  (c.badges.rows w.content.db.badges))
        × (w'.content.assets ≡ attempts user_assets w.content.assets)

    abbrev removed : ProfileWorld a c
    removed = (commit a c public_id_of (delete_user a c public_id_of user_id w).1).1

    -- What follows the deletions of the assets.
    abbrev after :
        Option Text
        → Option Text
        → Result Contents.ContentError (Unit {0}) × Contents.World c
        → Result Contents.ContentError (Unit {0}) × ProfileWorld a c
    after access refresh (ok u, v) =
        try_logout a c public_id_of refresh access (record removed { content = v })
    after access refresh (err x, v) = (err x, record removed { content = v })

    after-Erased :
        (access refresh : Option Text)
        (r : Result Contents.ContentError (Unit {0}) × Contents.World c)
        → r.0 ≡ ok tt
        → r.1.durable ≡ removed.content.durable
        → r.1.assets ≡ attempts user_assets w.content.assets
        → Erased (after access refresh r)
    after-Erased access refresh (err x, v) done durable log = cc
    after-Erased access refresh (ok u, v) done durable log =
        let users = logout_users a refresh access removed.account refl in
        let tokens = logout_tokens a refresh access user_id removed.account refl in
        (
          refl,
          rw users (none_left a.users (Accounts.by_id a user_id) w.account.db.users),
          tokens ∙ none_left a.tokens (of_user user_id) w.account.db.tokens,
          rw durable (none_left c.badges (owned_by a c public_id_of user_id) w.content.db.badges),
          rw durable (none_left c.notifications (addressed_to user_id) w.content.db.notifications),
          rw durable (none_left c.preferences (prefs_of user_id) w.content.db.preferences),
          λ q.
              rw durable
                (others_left c.badges (owned_by a c public_id_of user_id) q w.content.db.badges),
          log,
        )

    -- Deleting a profile succeeds; in what is committed no user, refresh token, badge, notification
    -- or preference row of that user is left, and of the badges of others all are; one deletion was
    -- attempted of each asset of the user, the photo, the logos and the thumbnails, in order.
    pub delete_profile-Erased :
        (access refresh : Option Text)
        → Erased (delete_profile a c public_id_of user_id access refresh w)
    unfolding delete_profile
    delete_profile-Erased access refresh =
        let (done, same_db, durable, log) = tried user_assets removed.content in
        let r = try_each a c public_id_of user_assets removed.content in
        let split : delete_profile a c public_id_of user_id access refresh w
            ≡ after access refresh r =
          ground (arith, done) in
        rw split (after-Erased access refresh r done durable log)
