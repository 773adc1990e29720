-- ===== src/Examples/Digests.antt =====
-- The digest and the report of organiser 1, one of whose badges was made into another today.
use social_badge_api.Common.{◌+◌, refl, arith, [], ◌∷◌, ◌-◌, ◌*◌}
use social_badge_api.Content.State.{daily_digest, weekly_report}
use social_badge_api.Digest.{day, day_start, send_daily_digests, send_weekly_reports}
use social_badge_api.Digest.Outcome.{creations, Delivers}
use social_badge_api.Digest.Daily.{send_daily_digests_lem, is_daily}
use social_badge_api.Content.Samples.{env, start}
use social_badge_api.Digest.Weekly.{send_weekly_reports_lem, is_weekly}

send_daily_digests_lem_example :
    let from = day_start start.clock in
    Delivers env daily_digest
      (is_daily (creations env from (from + day) start) from (from + day))
      from
      (from + day)
      start
      (send_daily_digests env (λ n. n ∷ []) (λ xs. xs) start)
send_daily_digests_lem_example =
    send_daily_digests_lem env (λ n. n ∷ []) start (λ u. omega arith) (λ xs. xs) (λ q xs. refl) refl

send_weekly_reports_lem_example :
    let to = day_start start.clock + day in
    let from = to - 7 * day in
    Delivers env weekly_report
      (is_weekly (creations env from to start) from to)
      from
      to
      start
      (send_weekly_reports env (λ n. n ∷ []) (λ t. 4) (λ xs. xs) start)
send_weekly_reports_lem_example =
    send_weekly_reports_lem env (λ n. n ∷ []) (λ t. 4) start (λ u. omega arith) (λ xs. xs)
      (λ q xs. refl) refl
