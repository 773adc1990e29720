-- ===== src/Examples/Notifications.antt =====
-- User 1 turns off the daily digest, is notified, and reads.
use social_badge_api.Common.{◌≡◌, false, none, some, arith}
use social_badge_api.Common.Exec.{ok}
use social_badge_api.Content.State.{Preference}
use social_badge_api.Notification.{
  Updates, get_notification_preferences, update_notification_preferences,
}
use social_badge_api.Notification.Preferences.{update-in_force, expected, chosen}
use social_badge_api.Content.Samples.{env, start}

abbrev quiet : Updates
quiet = record {
  email_template_published = none;
  email_new_signin = none;
  notify_badge_creation = none;
  notify_daily_digest = some false;
  notify_weekly_report = none;
}

update-in_force_example :
    let old = expected env 1 start in
    let new : Preference = record {
      user_id = old.user_id;
      email_template_published =
          chosen env quiet.email_template_published old.email_template_published;
      email_new_signin = chosen env quiet.email_new_signin old.email_new_signin;
      notify_badge_creation = chosen env quiet.notify_badge_creation old.notify_badge_creation;
      notify_daily_digest = chosen env quiet.notify_daily_digest old.notify_daily_digest;
      notify_weekly_report = chosen env quiet.notify_weekly_report old.notify_weekly_report;
    } in
    let (result, w') = update_notification_preferences env 1 quiet start in
    (result ≡ ok new) × ((get_notification_preferences env 1 w').0 ≡ ok new) × (w'.durable ≡ w'.db)
update-in_force_example = update-in_force env 1 quiet start (omega arith)
