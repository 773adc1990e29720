-- ===== src/Examples/Edits.antt =====
-- The draft becomes private, gets a hashtag, and is copied.
use social_badge_api.Common.{◌≡◌, inl, false, none, some, All, arith, refl, codes, [], ◌∷◌, ◌++◌}
use social_badge_api.Content.State.{Badge}
use social_badge_api.Badge.Edit.{FieldUpdates, edit_badge, duplicate_badge}
use social_badge_api.Badge.Edit.Access.{edit-IsGuarded, IsGuarded}
use social_badge_api.Content.Samples.{env, start, draft, shown}
use social_badge_api.Common.Exec.{ok}
use social_badge_api.Badge.Edit.Tags.{duplicate-Copied, tag_count}

abbrev private : FieldUpdates
private = record {
  title = none;
  canvas_data = none;
  default_caption = none;
  destination_link = none;
  thumbnail_url = none;
  access_type = some (some 1);
  access_code = some (some (codes "12345"));
}

edit-IsGuarded_example :
    All IsGuarded
      (env.badges.rows (edit_badge env 1 1005 private none false start).1.durable.badges)
edit-IsGuarded_example =
    edit-IsGuarded env 1 1005 private none false start (omega arith) refl
      (inl (refl, refl), (inl (refl, refl), tt))

duplicate-Copied_example :
    let copy : Badge = record draft {
      id = 0;
      title = draft.title ++ codes " (Copy)";
      logo_url = none;
      logo_public_id = none;
      is_published = false;
      published_at = none;
      share_slug = none;
      share_count = 0;
      creation_count = 0;
      deleted_at = none;
    } in
    let (result, w') = duplicate_badge env 1 1005 start in
    (result ≡ ok copy)
    × (w'.durable.badges ≡ copy ∷ draft ∷ shown ∷ [])
    × (tag_count env 0 (codes "fun") w' ≡ tag_count env 1005 (codes "fun") start)
    × (tag_count env 1005 (codes "fun") w' ≡ tag_count env 1005 (codes "fun") start)
    × (w'.durable ≡ w'.db)
duplicate-Copied_example =
    duplicate-Copied env 1 1005 (codes "fun") start draft refl refl refl refl refl
