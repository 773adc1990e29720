-- ===== src/Notification.antt =====
-- app/services/notification.py
pub mod Preferences
pub mod Feed
pub mod Listing
use social_badge_api.Common.{
  ℕ, zero, suc, ◌-◌, ◌*◌, Bool, true, false, not, ◌&&◌, Option, none, some, List, Text, take, drop,
  ltb, ◌==◌, if◌then◌else◌,
}
use social_badge_api.Common.Exec.{ok, pure, gets, or_raise, ◌>>=◌, ◌>>◌}
use social_badge_api.Content.State.{
  Env, World, Content, Notification, NotificationType, badge_creation, daily_digest, weekly_report,
  database_failed, Preference, Extra, commit, fresh_id, on_notifications, on_preferences,
}

-- UserNotificationPreference.user_id == user_id
abbrev pub prefs_of : ℕ → Preference → Bool
prefs_of user_id p = p.user_id == user_id

-- _DEFAULTS, for a user with no row
abbrev pub default_preferences : ℕ → Preference
default_preferences user_id = record {
  user_id = user_id;
  email_template_published = true;
  email_new_signin = true;
  notify_badge_creation = true;
  notify_daily_digest = true;
  notify_weekly_report = true;
}

-- The `updates` dictionary: a toggle that is absent is `none`.
pub record Updates : Type 0 where
  pub email_template_published : Option Bool
  pub email_new_signin : Option Bool
  pub notify_badge_creation : Option Bool
  pub notify_daily_digest : Option Bool
  pub notify_weekly_report : Option Bool

abbrev pub or_keep {ℓ} : {A : Type ℓ} → Option A → A → A
or_keep none old = old
or_keep (some new) old = new

-- The columns that an update names take its values.
abbrev pub apply_updates : Updates → Preference → Preference
apply_updates u p = record p {
  email_template_published = or_keep u.email_template_published p.email_template_published;
  email_new_signin = or_keep u.email_new_signin p.email_new_signin;
  notify_badge_creation = or_keep u.notify_badge_creation p.notify_badge_creation;
  notify_daily_digest = or_keep u.notify_daily_digest p.notify_daily_digest;
  notify_weekly_report = or_keep u.notify_weekly_report p.notify_weekly_report;
}

-- _TYPE_TO_PREF_FIELD
abbrev pub toggle : NotificationType → Preference → Bool
toggle badge_creation p = p.notify_badge_creation
toggle daily_digest p = p.notify_daily_digest
toggle weekly_report p = p.notify_weekly_report

-- `prefs is not None and not getattr(prefs, pref_field)`
abbrev pub is_muted : NotificationType → Option Preference → Bool
is_muted kind none = false
is_muted kind (some p) = not (toggle kind p)

abbrev pub addressed_to : ℕ → Notification → Bool
addressed_to user_id n = n.user_id == user_id

abbrev pub unread_of : ℕ → Notification → Bool
unread_of user_id n = (n.user_id == user_id) && not n.is_read

abbrev pub mark_read : Notification → Notification
mark_read n = record n { is_read = true }

module _ (e : Env) where
  unfoldable pub get_notification_preferences : ℕ → Content e Preference
  get_notification_preferences user_id w = (
    ok (elim (e.preferences.first (prefs_of user_id) w.db.preferences) [
      | none ↦ default_preferences user_id
      | some p ↦ p
    ]),
    w,
  )

  -- INSERT … ON CONFLICT (user_id) DO UPDATE; the row is then read by scalar_one, which raises without
  -- one.
  upsert : ℕ → Updates → Option Preference → Content e (Unit {0})
  upsert user_id u none =
      on_preferences e (e.preferences.insert (apply_updates u (default_preferences user_id)))
  upsert user_id u (some p) =
      on_preferences e (e.preferences.update (prefs_of user_id) (apply_updates u))

  unfoldable pub update_notification_preferences : ℕ → Updates → Content e Preference
  unfolding upsert
  update_notification_preferences user_id u = do
    present ← gets (λ w. e.preferences.first (prefs_of user_id) w.db.preferences)
    upsert user_id u present
    commit e
    prefs ← gets (λ w. e.preferences.first (prefs_of user_id) w.db.preferences)
    or_raise prefs database_failed

  add_notification :
      ℕ → NotificationType → Text → Text → Option Extra → Content e (Option Notification)
  add_notification user_id kind title body extra = do
    id ← fresh_id e
    now ← gets (λ w. w.clock)
    let n : Notification = record {
      id = id;
      user_id = user_id;
      kind = kind;
      title = title;
      body = body;
      is_read = false;
      extra_data = extra;
      created_at = now;
    }
    on_notifications e (e.notifications.insert n)
    pure (some n)

  -- Flushes, and leaves the commit to the caller.
  unfoldable pub create_notification :
      ℕ → NotificationType → Text → Text → Option Extra → Content e (Option Notification)
  unfolding add_notification
  create_notification user_id kind title body extra = do
    prefs ← gets (λ w. e.preferences.first (prefs_of user_id) w.db.preferences)
    if is_muted kind prefs then pure none else add_notification user_id kind title body extra

  unfoldable pub get_unread_count : ℕ → Content e ℕ
  get_unread_count user_id w =
      (ok (e.notifications.count (unread_of user_id) w.db.notifications), w)

  unfoldable pub mark_notification_read : ℕ → ℕ → Content e Bool
  mark_notification_read user_id notification_id = do
    let mine = λ (n : Notification). (n.id == notification_id) && (n.user_id == user_id)
    rowcount ← gets (λ w. e.notifications.count mine w.db.notifications)
    on_notifications e (e.notifications.update mine mark_read)
    commit e
    pure (ltb 0 rowcount)

  unfoldable pub mark_all_notifications_read : ℕ → Content e ℕ
  mark_all_notifications_read user_id = do
    rowcount ← gets (λ w. e.notifications.count (unread_of user_id) w.db.notifications)
    on_notifications e (e.notifications.update (unread_of user_id) mark_read)
    commit e
    pure rowcount
