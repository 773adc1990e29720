-- ===== src/Examples/Creations.antt =====
-- A participant and an organiser make badges.
use social_badge_api.Common.{◌+◌, ◌≡◌, ◌∷◌, codes, if◌then◌else◌, refl, text_eq}
use social_badge_api.Common.Exec.{ok}
use social_badge_api.Content.State.{badge_creation}
use social_badge_api.Notification.{toggle}
use social_badge_api.Notification.Preferences.{in_force}
use social_badge_api.Badge.{public_at, increment_badge_creation_count}
use social_badge_api.Badge.Creation.{creation_counted, creation_note}
use social_badge_api.Content.Samples.{env, start, shown}

creation_counted_example :
    let (result, w') = increment_badge_creation_count env (codes "party") start in
    let n = creation_note env (codes "party") shown start in
    (result ≡ ok tt)
    × (w'.durable.badges
        ≡ env.badges.update
            (public_at (codes "party"))
            (λ x. record x { creation_count = x.creation_count + 1 })
            start.db.badges)
    × (env.notifications.rows w'.durable.notifications ≡ (
        if toggle badge_creation (in_force env shown.organiser_id start)
        then n ∷ env.notifications.rows start.db.notifications
        else env.notifications.rows start.db.notifications))
unfolding text_eq
creation_counted_example = creation_counted env (codes "party") start shown refl
