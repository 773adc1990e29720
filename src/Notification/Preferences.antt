-- ===== src/Notification/Preferences.antt =====
-- Reading back what `update_notification_preferences` wrote, and what it mutes.
use social_badge_api.Common.{
  ℕ, ◌≤◌, ◌≡◌, refl, inl, inr, true, false, Option, none, some, ◌∷◌, Text, countb, countb_none,
  ==_refl, Option-cases, Bool-cases, if◌then◌else◌, arith, Bool,
}
use social_badge_api.Common.Exec.{ok}
use social_badge_api.Platform.Table.{first_is, first-update}
use social_badge_api.Content.State.{
  Env, World, Preference, Notification, Extra, NotificationType, badge_creation,
}
use social_badge_api.Notification.{
  prefs_of, default_preferences, Updates, apply_updates, or_keep, toggle, is_muted,
  get_notification_preferences, update_notification_preferences, create_notification,
}

not_muted :
    (kind : NotificationType) (user_id : ℕ) (o : Option Preference)
    → toggle kind (or_keep o (default_preferences user_id)) ≡ true
    → is_muted kind o ≡ false
not_muted badge_creation user_id o h = ground arith
not_muted kind user_id none h = refl
not_muted kind user_id (some p) h = ground arith

muted :
    (kind : NotificationType) (user_id : ℕ) (o : Option Preference)
    → toggle kind (or_keep o (default_preferences user_id)) ≡ false
    → is_muted kind o ≡ true
muted badge_creation user_id o h = ground arith
muted kind user_id none h = ground arith
muted kind user_id (some p) h = ground arith

module _ (e : Env) where
  -- user_id is unique in user_notification_preferences.
  abbrev pub OneRow : ℕ → World e → Type 0
  OneRow user_id w = countb (prefs_of user_id) (e.preferences.rows w.db.preferences) ≤ 1

  -- The preferences in force: the row of the user, or the defaults.
  abbrev pub in_force : ℕ → World e → Preference
  in_force user_id w =
      or_keep (e.preferences.first (prefs_of user_id) w.db.preferences)
        (default_preferences user_id)

  -- What an independent reader expects them to be: the row of the user, or everything on.
  abbrev pub expected : ℕ → World e → Preference
  expected user_id w = elim (e.preferences.first (prefs_of user_id) w.db.preferences) [
    | none ↦ record {
      user_id = user_id;
      email_template_published = true;
      email_new_signin = true;
      notify_badge_creation = true;
      notify_daily_digest = true;
      notify_weekly_report = true;
    }
    | some p ↦ p
  ]

  -- What a toggle is set to: the value that the update names, or the old one.
  abbrev pub chosen : Option Bool → Bool → Bool
  chosen named old = elim named [ none ↦ old | some new ↦ new ]

  inserted :
      (user_id : ℕ) (u : Updates) (w : World e)
      → e.preferences.first (prefs_of user_id) w.db.preferences ≡ none
      → e.preferences.first
          (prefs_of user_id)
          (e.preferences.insert (apply_updates u (default_preferences user_id)) w.db.preferences)
        ≡ some (apply_updates u (default_preferences user_id))
  inserted user_id u w gone =
      let s = w.db.preferences in
      let new = apply_updates u (default_preferences user_id) in
      let free =
        countb_none (prefs_of user_id) (e.preferences.rows s) (e.preferences.first-none _ s gone) in
      first_is e.preferences (prefs_of user_id) (e.preferences.insert new s) new
        (rw e.preferences.rows-insert (ground (arith, free, ==_refl user_id)))
        (rw e.preferences.rows-insert (inl refl)) (==_refl user_id)

  update-rows :
      (user_id : ℕ) (u : Updates) (w : World e)
      → OneRow user_id w
      → let new = apply_updates u (
          or_keep
            (e.preferences.first (prefs_of user_id) w.db.preferences)
            (default_preferences user_id)) in
        let (result, w') = update_notification_preferences e user_id u w in
        (result ≡ ok new)
        × ((get_notification_preferences e user_id w').0 ≡ ok new)
        × (w'.durable ≡ w'.db)
  unfolding update_notification_preferences get_notification_preferences
  update-rows user_id u w one =
      elim (Option-cases (e.preferences.first (prefs_of user_id) w.db.preferences)) [
        | inl gone ↦
            let back = inserted user_id u w gone in
            (ground (arith, gone, back), ground (arith, gone, back), ground (arith, gone))
        | inr (p, found) ↦
            let mine = (e.preferences.first-some (prefs_of user_id) w.db.preferences p found).0 in
            let back =
              first-update e.preferences (prefs_of user_id) (apply_updates u) w.db.preferences p one
                found mine in
            (ground (arith, found, back), ground (arith, found, back), ground (arith, found))
      ]

  -- Where a user has at most one row of preferences, an update never fails and commits, and it
  -- returns, and a later read returns, the preferences in force before (the row, or the defaults)
  -- with the named toggles replaced.
  pub update-in_force :
      (user_id : ℕ) (u : Updates) (w : World e)
      → OneRow user_id w
      → let old = expected user_id w in
        let new : Preference = record {
          user_id = old.user_id;
          email_template_published = chosen u.email_template_published old.email_template_published;
          email_new_signin = chosen u.email_new_signin old.email_new_signin;
          notify_badge_creation = chosen u.notify_badge_creation old.notify_badge_creation;
          notify_daily_digest = chosen u.notify_daily_digest old.notify_daily_digest;
          notify_weekly_report = chosen u.notify_weekly_report old.notify_weekly_report;
        } in
        let (result, w') = update_notification_preferences e user_id u w in
        (result ≡ ok new)
        × ((get_notification_preferences e user_id w').0 ≡ ok new)
        × (w'.durable ≡ w'.db)
  update-in_force user_id u w one =
      let done = update-rows user_id u w one in
      elim (Option-cases (e.preferences.first (prefs_of user_id) w.db.preferences)) [
        | inl gone ↦ (ground (arith, gone, done), ground (arith, gone, done), done.2)
        | inr (p, found) ↦ (ground (arith, found, done), ground (arith, found, done), done.2)
      ]

  -- A notification is made exactly if its toggle is on in the preferences in force; it is then an
  -- unread row of the user, and nothing is committed yet.
  pub create_iff :
      (user_id : ℕ) (kind : NotificationType) (title body : Text) (extra : Option Extra)
      (w : World e)
      → let (result, w') = create_notification e user_id kind title body extra w in
        let n : Notification = record {
          id = e.uuid w.draws;
          user_id = user_id;
          kind = kind;
          title = title;
          body = body;
          is_read = false;
          extra_data = extra;
          created_at = w.clock;
        } in
        (result ≡ (if toggle kind (in_force user_id w) then ok (some n) else ok none))
        × (e.notifications.rows w'.db.notifications ≡ (
            if toggle kind (in_force user_id w)
            then n ∷ e.notifications.rows w.db.notifications
            else e.notifications.rows w.db.notifications))
        × (w'.durable ≡ w.durable)
  unfolding create_notification
  create_iff user_id kind title body extra w =
      let prefs = e.preferences.first (prefs_of user_id) w.db.preferences in
      elim (Bool-cases (toggle kind (in_force user_id w))) [
        | inl on ↦
            let loud = not_muted kind user_id prefs on in
            (
              ground (arith, on, loud),
              rw (on, loud, create_notification) (e.notifications.rows-insert _ _),
              ground (arith, on, loud),
            )
        | inr off ↦
            let quiet = muted kind user_id prefs off in
            (ground (arith, off, quiet), ground (arith, off, quiet), ground (arith, off, quiet))
      ]
