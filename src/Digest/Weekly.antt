-- ===== src/Digest/Weekly.antt =====
-- app/workers/digest_jobs.py: what `send_weekly_reports` sends.
use social_badge_api.Common.{
  ℕ, ◌+◌, ◌-◌, ◌*◌, ◌≤◌, ◌≡◌, ◌∙◌, ap, refl, inl, inr, Bool, true, false, not, ◌&&◌, Option, none,
  some, List, [], ◌∷◌, All, Text, text_eq, text_eq_refl, countb, ltb, ◌==◌, Bool-cases, map, codes,
  arith, ◌%◌, if◌then◌else◌, ◌<◌, suc, zero,
}
use social_badge_api.Common.Exec.{or_raise, ◌>>=◌}
use social_badge_api.Common.Order.{IsOrdered, sort_by-IsOrdered}
use social_badge_api.Common.Groups.{tally, sizes, sizes-tally, sizes-sort_by, length-map}
use social_badge_api.Platform.Listing.{length-select}
use social_badge_api.Content.State.{
  Env, World, Extra, weekly_report, daily_data, badge_data, weekly_data, index_error,
}
use social_badge_api.Notification.{prefs_of, toggle, is_muted, create_notification}
use social_badge_api.Digest.{
  day, day_start, weekday_name, busiest_first, first_row, weekly_body, settle, created_for, dow_of,
  per_day_of, target_users, counts_by_user, for_each, weekly_step, send_weekly_reports,
}
use social_badge_api.Digest.Targets.{wanted, all_wanted, wanted-unmuted}
use social_badge_api.Digest.Loop.{Holds, StepSends, for_each-Sends, send-Sends, idle-Sends}
use social_badge_api.Digest.Outcome.{Iterates, creations, busy, counts-creations, Delivers, finish}

-- The name of a day, where PostgreSQL counts from Sunday.
abbrev pub label : ℕ → Text
label d =
    if d == 0
    then codes "Sunday"
    else if d == 1
    then codes "Monday"
    else if d == 2
    then codes "Tuesday"
    else if d == 3
    then codes "Wednesday"
    else if d == 4
    then codes "Thursday"
    else if d == 5
    then codes "Friday"
    else codes "Saturday"

abbrev pub day_label : ℕ → Text
day_label k = label (k % 7)

name-label : (d : ℕ) → d < 7 → weekday_name d ≡ label d
name-label zero h = refl
name-label (suc zero) h = refl
name-label (suc (suc zero)) h = refl
name-label (suc (suc (suc zero))) h = refl
name-label (suc (suc (suc (suc zero)))) h = refl
name-label (suc (suc (suc (suc (suc zero))))) h = refl
name-label (suc (suc (suc (suc (suc (suc zero)))))) h = refl
name-label (suc (suc (suc (suc (suc (suc (suc d))))))) h = absurd (omega (arith, h))

label_of : (k : ℕ) → weekday_name k ≡ day_label k
label_of k =
    let shift : (k + 6) % 7 ≡ (k % 7 + 6) % 7 = omega arith in
    rw shift (name-label (k % 7) (omega arith))

-- The day is that of the first row, and no row has a greater count.
abbrev pub is_top : Text → List (ℕ × ℕ) → Bool
is_top t [] = false
is_top t (r ∷ rs) = text_eq t (day_label (r.0)) && (countb (λ x. ltb r.1 x.1) rs == 0)

-- The data has the number of the user's creations, the same number split by days, the top day, and
-- the period.
abbrev pub is_weekly : (ℕ → ℕ) → ℕ → ℕ → ℕ → Option Extra → Bool
is_weekly counts from to v none = false
is_weekly counts from to v (some (weekly_data n t days a b)) =
    (n == counts v) && ((sizes days == n) && (is_top t days && ((a == from) && (b == to))))
is_weekly counts from to v (some (badge_data n t)) = false
is_weekly counts from to v (some (daily_data n a b)) = false

busiest_first_total : (a b : ℕ × ℕ) → busiest_first a b ≡ false → busiest_first b a ≡ true
busiest_first_total (i, m) (j, n) h = ground arith

busiest_first_trans :
    (a b c : ℕ × ℕ) → busiest_first a b ≡ true → busiest_first b c ≡ true → busiest_first a c ≡ true
busiest_first_trans (i, l) (j, m) (k, n) h q = ground arith

none_greater :
    (k n : ℕ) (rs : List (ℕ × ℕ))
    → All (λ x. busiest_first (k, n) x ≡ true) rs
    → countb (λ x. ltb n x.1) rs ≡ 0
none_greater k n [] h = refl
none_greater k n ((j, m) ∷ rs) h = ground (arith, none_greater k n rs h.1)

fits_lem :
    (counts : ℕ → ℕ) (from to u k n : ℕ) (rs : List (ℕ × ℕ))
    → sizes ((k, n) ∷ rs) ≡ counts u
    → IsOrdered busiest_first ((k, n) ∷ rs)
    → is_weekly counts from to u
        (some (weekly_data (counts u) (weekday_name k) ((k, n) ∷ rs) from to))
      ≡ true
fits_lem counts from to u k n rs size order =
    rw (label_of k, text_eq_refl (day_label k)) (ground (arith, size, none_greater k n rs order.0))

module _ (e : Env) (decimal : ℕ → Text) (dow : ℕ → ℕ) (w : World e)
    (one : (u : ℕ) → countb (prefs_of u) (e.preferences.rows w.db.preferences) ≤ 1) where
  sizes-per_day_of :
      (from to u : ℕ) (v : World e)
      → sizes (per_day_of e decimal dow from to u v) ≡ creations e from to v u
  unfolding per_day_of
  sizes-per_day_of from to u v =
      let found = e.notifications.select (created_for from to u) v.db.notifications in
      sizes-sort_by busiest_first (tally (map (dow_of e decimal dow) found))
      ∙ (sizes-tally (map (dow_of e decimal dow) found)
          ∙ (length-map (dow_of e decimal dow) found
              ∙ (length-select e.notifications (created_for from to u) v.db.notifications
                  ∙ e.notifications.count-rows (created_for from to u) v.db.notifications)))

  per_day_of-IsOrdered :
      (from to u : ℕ) (v : World e) → IsOrdered busiest_first (per_day_of e decimal dow from to u v)
  unfolding per_day_of
  per_day_of-IsOrdered from to u v =
      sort_by-IsOrdered busiest_first busiest_first_total busiest_first_trans (
        tally (
          map (dow_of e decimal dow)
            (e.notifications.select (created_for from to u) v.db.notifications)))

  module _ (from to : ℕ) where
    abbrev fits : ℕ → Option Extra → Bool
    fits = is_weekly (creations e from to w) from to

    report :
        (u : ℕ) (v : World e) (per_day : List (ℕ × ℕ))
        → (creations e from to w u == 0) ≡ false
        → sizes per_day ≡ creations e from to w u
        → IsOrdered busiest_first per_day
        → is_muted weekly_report (e.preferences.first (prefs_of u) v.db.preferences) ≡ false
        → Holds e weekly_report fits from to w v
        → StepSends e weekly_report fits from to w
            (busy e from to w)
            (wanted e (toggle weekly_report) w)
            u
            v
            ((or_raise (first_row per_day) index_error >>= λ top.
                create_notification e u weekly_report
                  (codes "Weekly report")
                  (weekly_body e decimal (creations e from to w u) (weekday_name (top.0)))
                  (some
                    (weekly_data (creations e from to w u) (weekday_name (top.0)) per_day from to))
                >>= settle e)
              v)
    report u v [] active size order loud inv = absurd (ground (arith, active, size))
    report u v ((k, n) ∷ rs) active size order loud inv =
        send-Sends e weekly_report fits from to w (busy e from to w)
          (wanted e (toggle weekly_report) w) u (codes "Weekly report")
          (weekly_body e decimal (creations e from to w u) (weekday_name k))
          (weekly_data (creations e from to w u) (weekday_name k) ((k, n) ∷ rs) from to) v refl refl
          (fits_lem (creations e from to w) from to u k n rs size order) (ap not active) loud inv

    step_lem :
        (u : ℕ) (v : World e)
        → wanted e (toggle weekly_report) w u ≡ true
        → Holds e weekly_report fits from to w v
        → StepSends e weekly_report fits from to w
            (busy e from to w)
            (wanted e (toggle weekly_report) w)
            u
            v
            (weekly_step e decimal dow from to
              (counts_by_user e from to (target_users e (toggle weekly_report) w) w)
              u
              v)
    unfolding weekly_step
    step_lem u v h inv =
        let same = counts-creations e (toggle weekly_report) from to w u h in
        let loud = wanted-unmuted e weekly_report w u (one u) h in
        elim (Bool-cases (creations e from to w u == 0)) [
          | inl idle ↦ rw same (
              rw idle (
                idle-Sends e weekly_report fits from to w (busy e from to w)
                  (wanted e (toggle weekly_report) w) u v (ap not idle) inv))
          | inr active ↦ rw same (
              rw active (
                report u v (per_day_of e decimal dow from to u v) active
                  (sizes-per_day_of from to u v ∙ inv.same_creations u)
                  (per_day_of-IsOrdered from to u v) (rw inv.same_preferences loud) inv))
        ]

  -- If each user has at most one row of preferences, nothing is uncommitted, and the set of targets
  -- is gone through in some order, each once, then `send_weekly_reports` does not fail and ends
  -- with all committed, and sent and skipped add up to the targets; each user who is opted in, or
  -- owns a badge and has no preferences, and has a creation in the week, gets one unread report,
  -- and nobody else any: its days add up to the number of the creations, and no day has more than
  -- the one it names.
  pub send_weekly_reports_lem :
      (iterate : List ℕ → List ℕ)
      → Iterates iterate
      → w.durable ≡ w.db
      → let to = day_start w.clock + day in
        let from = to - 7 * day in
        Delivers e weekly_report
          (is_weekly (creations e from to w) from to)
          from
          to
          w
          (send_weekly_reports e decimal dow iterate w)
  unfolding send_weekly_reports
  send_weekly_reports_lem iterate fair clean =
      let to = day_start w.clock + day in
      let from = to - 7 * day in
      let targets = target_users e (toggle weekly_report) w in
      let all = wanted e (toggle weekly_report) w in
      let step = weekly_step e decimal dow from to (counts_by_user e from to targets w) in
      finish e weekly_report (fits from to) from to w iterate fair
        (for_each e step (iterate targets) 0 0 w)
        (for_each-Sends e weekly_report (fits from to) from to w (busy e from to w) all step
          (step_lem from to) (iterate targets) 0 0 w
          (fair (λ u. not (all u)) targets ∙ all_wanted e (toggle weekly_report) w)
          (record {
            clean = clean;
            same_badges = refl;
            same_preferences = refl;
            same_creations = λ u. refl;
          }))
