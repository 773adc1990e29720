-- ===== src/Examples/Badges.antt =====
-- The draft is published; the public badge is shared, hidden and deleted.
use social_badge_api.Common.{◌≡◌, refl, none, some, ◌∷◌, Text, text_eq, arith, codes}
use social_badge_api.Common.Exec.{ok, err}
use social_badge_api.Content.State.{World, deleted, badge_not_found}
use social_badge_api.Content.Slug.{generate_share_slug}
use social_badge_api.Badge.{
  published_as, full, slug_for, commit_unique, get_badge_by_id, publish_badge,
  get_public_badge_by_slug, try_delete, delete_badge,
}
use social_badge_api.Badge.Publish.{publish-Public, IsUnique, badges_of}
use social_badge_api.Content.Samples.{env, start, draft, shown}
use social_badge_api.Badge.Withdraw.{delete-Hidden, IsHidden}

start-IsUnique : IsUnique (badges_of env start)
unfolding text_eq
start-IsUnique = record { ids = λ id. ground arith; slugs = λ slug. ground arith }

abbrev published : World env
published = (publish_badge env 1 1005 start).1

abbrev fresh_slug : Text
fresh_slug = codes "aaaaaaaaaaaa"

published_once :
    publish_badge env 1 1005 start ≡ (ok (published_as 1000000 fresh_slug draft), published)
unfolding publish_badge get_badge_by_id slug_for commit_unique generate_share_slug text_eq
published_once = refl

publish-Public_example :
    (slug : Text) × (some fresh_slug ≡ some slug)
    × (get_public_badge_by_slug env slug published
        ≡ (ok (published_as 1000000 fresh_slug draft), published))
    × (draft.organiser_id ≡ 1)
    × (published.durable ≡ published.db)
publish-Public_example =
    publish-Public env 1 1005 start published (published_as 1000000 fresh_slug draft) start-IsUnique
      published_once

abbrev gone : World env
gone = (delete_badge env 1 1006 start).1

gone_once : delete_badge env 1 1006 start ≡ (ok tt, gone)
unfolding delete_badge get_badge_by_id try_delete
gone_once = refl

delete-Hidden_example :
    IsHidden env (codes "party") gone
    × (get_badge_by_id env 1 1006 gone ≡ (err badge_not_found, gone))
    × (gone.durable ≡ gone.db)
    × (gone.assets ≡ elim (full shown.logo_public_id) [
      | none ↦ start.assets
      | some p ↦ deleted p ∷ start.assets
    ])
delete-Hidden_example =
    delete-Hidden env 1 1006 start gone shown (codes "party") start-IsUnique refl refl gone_once
