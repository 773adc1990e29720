-- ===== src/Digest.antt =====
-- app/workers/digest_jobs.py: the daily digest and the weekly report. The job runs alone; `iterate` is
-- the order in which Python goes through a set, `decimal` is `str` of a number, and `dow` is the
-- database's day of the week of a time.
pub mod Targets
pub mod Loop
pub mod Outcome
pub mod Daily
pub mod Weekly
use social_badge_api.Common.{
  ℕ, suc, ◌+◌, ◌-◌, ◌*◌, ◌%◌, Bool, true, false, not, ◌&&◌, ◌||◌, Option, none, some, List, [], ◌∷◌,
  ◌++◌, map, Text, codes, get_or, length, ltb, leb, ◌==◌, if◌then◌else◌,
}
use social_badge_api.Common.Exec.{ok, pure, gets, or_raise, ◌>>=◌, ◌>>◌}
use social_badge_api.Common.Order.{sort_by}
use social_badge_api.Common.Groups.{tally}
use social_badge_api.Common.Sets.{is_in, distinct, minus}
use social_badge_api.Content.State.{
  Env, World, Content, Badge, Notification, NotificationType, badge_creation, daily_digest,
  weekly_report, Extra, daily_data, weekly_data, Preference, index_error, commit, close,
}
use social_badge_api.Notification.{create_notification}

-- The dictionary that a job returns.
pub record Totals : Type 0 where
  pub sent : ℕ
  pub skipped : ℕ
  pub total_targets : ℕ

-- A UTC day, in microseconds.
abbrev pub day : ℕ
day = 86400000000

-- now.replace(hour=0, minute=0, second=0, microsecond=0)
abbrev pub day_start : ℕ → ℕ
day_start now = now - now % day

abbrev pub is_creation : NotificationType → Bool
is_creation badge_creation = true
is_creation daily_digest = false
is_creation weekly_report = false

-- Notification.type == BADGE_CREATION, from <= created_at < to, for one user
abbrev pub created_for : ℕ → ℕ → ℕ → Notification → Bool
created_for from to user_id n =
    is_creation n.kind && (leb from n.created_at && (ltb n.created_at to && (n.user_id == user_id)))

abbrev pub user_of : Preference → ℕ
user_of p = p.user_id

abbrev pub organiser_of : Badge → ℕ
organiser_of b = b.organiser_id

abbrev pub plural : ℕ → Text
plural n = if n == 1 then [] else codes "s"

abbrev pub weekday_names : List Text
weekday_names =
    codes "Monday"
    ∷ codes "Tuesday"
    ∷ codes "Wednesday"
    ∷ codes "Thursday"
    ∷ codes "Friday"
    ∷ codes "Saturday"
    ∷ codes "Sunday"
    ∷ []

-- weekday_names[(top_dow - 1) % 7]: Python's remainder of -1 is 6.
abbrev pub weekday_name : ℕ → Text
weekday_name top_dow = get_or weekday_names ((top_dow + 6) % 7) []

-- .order_by(func.count(Notification.id).desc(), "dow")
abbrev pub busiest_first : ℕ × ℕ → ℕ × ℕ → Bool
busiest_first a b = ltb b.1 a.1 || ((a.1 == b.1) && leb a.0 b.0)

-- per_day[0]
abbrev pub first_row : List (ℕ × ℕ) → Option (ℕ × ℕ)
first_row [] = none
first_row (r ∷ rs) = some r

module _ (e : Env) where
  -- opted_in_user_ids and defaulted_in, one after the other
  abbrev pub candidates : (Preference → Bool) → World e → List ℕ
  candidates is_on w =
      let opted_in = map user_of (e.preferences.select is_on w.db.preferences) in
      let owners = map organiser_of (e.badges.select (λ b. true) w.db.badges) in
      let with_prefs = map user_of (e.preferences.select (λ p. true) w.db.preferences) in
      opted_in ++ minus owners with_prefs

  unfoldable pub target_users : (Preference → Bool) → World e → List ℕ
  target_users is_on w = distinct (candidates is_on w)

  -- counts_by_user.get(user_id, 0)
  abbrev pub counts_by_user : ℕ → ℕ → List ℕ → World e → ℕ → ℕ
  counts_by_user from to targets w user_id =
      e.notifications.count (λ n. created_for from to user_id n && is_in n.user_id targets)
        w.db.notifications

  -- `if notif is not None: await session.commit()`, and whether it was sent
  abbrev pub settle : Option Notification → Content e Bool
  settle none = pure false
  settle (some n) = do commit e; pure true

  -- The loop over the users; a step says whether its user was sent something.
  unfoldable pub for_each : (ℕ → Content e Bool) → List ℕ → ℕ → ℕ → Content e (ℕ × ℕ)
  for_each step [] sent skipped = pure (sent, skipped)
  for_each step (u ∷ us) sent skipped = do
    was_sent ← step u
    for_each step us (if was_sent then suc sent else sent)
        (if was_sent then skipped else suc skipped)

  module _ (decimal : ℕ → Text) where
    abbrev pub daily_body : ℕ → Text
    daily_body n =
        codes "Today's recap: "
        ++ (decimal n ++ (codes " new badge" ++ (plural n ++ codes " created from your badges.")))

    unfoldable pub daily_step : ℕ → ℕ → (ℕ → ℕ) → ℕ → Content e Bool
    daily_step from to counts user_id = if counts user_id == 0 then pure false else (do
      notif ←
          create_notification e user_id daily_digest (codes "Daily digest")
            (daily_body (counts user_id)) (some (daily_data (counts user_id) from to))
      settle notif)

    module _ (iterate : List ℕ → List ℕ) where
      unfoldable pub send_daily_digests : Content e Totals
      send_daily_digests w =
          let from = day_start w.clock in
          let to = from + day in
          let targets = target_users (λ p. p.notify_daily_digest) w in
          let counts = counts_by_user from to targets w in
          close e
            (do
              (sent, skipped) ← for_each (daily_step from to counts) (iterate targets) 0 0
              pure (record { sent = sent; skipped = skipped; total_targets = length targets }))
            w

    abbrev pub weekly_body : ℕ → Text → Text
    weekly_body n top_day =
        codes "This week: "
        ++ (decimal n
            ++ (codes " new badge"
                ++ (plural n
                    ++ (codes " created. Highest-traffic day: " ++ (top_day ++ codes ".")))))

    module _ (dow : ℕ → ℕ) where
      abbrev pub dow_of : Notification → ℕ
      dow_of n = dow n.created_at

      -- The user's creations by day of the week.
      unfoldable pub per_day_of : ℕ → ℕ → ℕ → World e → List (ℕ × ℕ)
      per_day_of from to user_id w = sort_by busiest_first (
          tally
            (map dow_of (e.notifications.select (created_for from to user_id) w.db.notifications)))

      unfoldable pub weekly_step : ℕ → ℕ → (ℕ → ℕ) → ℕ → Content e Bool
      weekly_step from to counts user_id = if counts user_id == 0 then pure false else (do
        per_day ← gets (per_day_of from to user_id)
        top ← or_raise (first_row per_day) index_error
        notif ←
            create_notification e user_id weekly_report (codes "Weekly report")
              (weekly_body (counts user_id) (weekday_name (top.0)))
              (some (weekly_data (counts user_id) (weekday_name (top.0)) per_day from to))
        settle notif)

      module _ (iterate : List ℕ → List ℕ) where
        unfoldable pub send_weekly_reports : Content e Totals
        send_weekly_reports w =
            let to = day_start w.clock + day in
            let from = to - 7 * day in
            let targets = target_users (λ p. p.notify_weekly_report) w in
            let counts = counts_by_user from to targets w in
            close e
              (do
                (sent, skipped) ← for_each (weekly_step from to counts) (iterate targets) 0 0
                pure (record { sent = sent; skipped = skipped; total_targets = length targets }))
              w
