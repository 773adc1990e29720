-- ===== src/Badge.antt =====
-- app/services/badge.py: the life of a badge.
pub mod Publish
pub mod Listing
pub mod Analytics
pub mod Life
pub mod Edit
pub mod Logo
pub mod Creation
pub mod Withdraw
use social_badge_api.Common.{
  ℕ, suc, ◌+◌, Bool, true, false, not, ◌&&◌, Option, none, some, ◌∷◌, ◌++◌, Text, codes, truthy,
  ltb, ◌==◌, text_eq, if◌then◌else◌,
}
use social_badge_api.Common.Exec.{
  ok, err, pure, raise, raise_if, or_raise, gets, modify, ◌>>=◌, ◌>>◌,
}
use social_badge_api.Content.Slug.{generate_share_slug, slug_length}
use social_badge_api.Content.State.{
  Env, Content, Badge, PlatformTemplate, uploaded, deleted, badge_creation, badge_data,
  badge_not_found, not_badge_owner, badge_already_published, public_badge_not_found,
  template_not_found, template_not_active, cloudinary_upload, integrity_error, database_failed,
  commit, rollback, fresh_id, on_badges, on_templates,
}
use social_badge_api.Notification.{create_notification}

abbrev pub is_none {ℓ} : {A : Type ℓ} → Option A → Bool
is_none none = true
is_none (some a) = false

-- Badge.id == id, and with Badge.deleted_at.is_(None)
abbrev pub by_badge_id : ℕ → Badge → Bool
by_badge_id id b = b.id == id

abbrev pub kept : ℕ → Badge → Bool
kept id b = (b.id == id) && is_none b.deleted_at

abbrev pub has_slug : Text → Badge → Bool
has_slug slug b = elim b.share_slug [ none ↦ false | some s ↦ text_eq s slug ]

-- Badge.share_slug == slug, and _PUBLIC_WHERE
abbrev pub public_at : Text → Badge → Bool
public_at slug b = has_slug slug b && (b.is_published && is_none b.deleted_at)

-- `canvas_data or {}`: JSON is kept as its text.
abbrev pub canvas_or_empty : Option Text → Text
canvas_or_empty none = codes "{}"
canvas_or_empty (some j) = j

abbrev pub full : Option Text → Option Text
full none = none
full (some t) = if truthy t then some t else none

abbrev pub published_as : ℕ → Text → Badge → Badge
published_as now slug b = record b {
  is_published = true;
  published_at = some now;
  share_slug = some slug;
}

abbrev pub unpublished : Badge → Badge
unpublished b = record b { is_published = false; published_at = none }

abbrev pub removed : ℕ → Badge → Badge
removed now b = record b { deleted_at = some now; is_published = false; published_at = none }

abbrev pub counted_template : PlatformTemplate → PlatformTemplate
counted_template t = record t { total_badges_made = t.total_badges_made + 1 }

module _ (e : Env) where
  unfoldable pub increment_template_badge_count : ℕ → Content e (Unit {0})
  increment_template_badge_count template_id =
      on_templates e (e.templates.update (λ t. t.id == template_id) counted_template)

  -- The badge of the organiser, or 404, or 403: the opening of most calls.
  unfoldable pub get_badge_by_id : ℕ → ℕ → Content e Badge
  get_badge_by_id organiser_id id = do
    found ← gets (λ w. e.badges.first (kept id) w.db.badges)
    badge ← or_raise found badge_not_found
    raise_if (not (badge.organiser_id == organiser_id)) not_badge_owner
    pure badge

  -- A badge made from a template.
  abbrev pub made_from : PlatformTemplate → ℕ → ℕ → Badge
  made_from template organiser_id id = record {
    id = id;
    organiser_id = organiser_id;
    platform_template_id = template.id;
    title = template.title;
    canvas_data = canvas_or_empty template.canvas_data;
    default_caption = none;
    destination_link = none;
    thumbnail_url = none;
    logo_url = none;
    logo_public_id = none;
    access_type = 0;
    access_code = none;
    is_published = false;
    published_at = none;
    share_slug = none;
    share_count = 0;
    creation_count = 0;
    deleted_at = none;
  }

  unfoldable pub create_badge : ℕ → ℕ → Content e Badge
  unfolding increment_template_badge_count
  create_badge organiser_id platform_template_id = do
    found ← gets (λ w. e.templates.first (λ t. t.id == platform_template_id) w.db.templates)
    template ← or_raise found template_not_found
    raise_if (not template.is_active) template_not_active
    id ← fresh_id e
    let instance_row = record (made_from template organiser_id id) {
      platform_template_id = platform_template_id;
    }
    on_badges e (e.badges.insert instance_row)
    increment_template_badge_count platform_template_id
    commit e
    pure instance_row

  -- The slug of a badge that has one, or a new one from twelve draws.
  unfoldable pub slug_for : Option Text → Content e Text
  slug_for (some slug) w = (ok slug, w)
  slug_for none w = (
    ok (generate_share_slug e.randbelow w.draws slug_length),
    record w { draws = w.draws + slug_length },
  )

  -- The commit fails if another badge has the slug, which is unique.
  unfoldable pub commit_unique : Badge → Text → Content e (Unit {0})
  commit_unique badge slug = do
    others ←
        gets
          (λ w. e.badges.count (λ b. has_slug slug b && not (by_badge_id badge.id b)) w.db.badges)
    if ltb 0 others then (do rollback e; raise integrity_error) else commit e

  unfoldable pub publish_badge : ℕ → ℕ → Content e Badge
  unfolding get_badge_by_id slug_for commit_unique
  publish_badge organiser_id id = do
    badge ← get_badge_by_id organiser_id id
    raise_if badge.is_published badge_already_published
    now ← gets (λ w. w.clock)
    slug ← slug_for (full badge.share_slug)
    on_badges e (e.badges.update (by_badge_id badge.id) (published_as now slug))
    commit_unique badge slug
    pure (published_as now slug badge)

  unfoldable pub unpublish_badge : ℕ → ℕ → Content e Badge
  unpublish_badge organiser_id id = do
    found ← gets (λ w. e.badges.first (by_badge_id id) w.db.badges)
    badge ← or_raise found badge_not_found
    raise_if (not (is_none badge.deleted_at)) badge_not_found
    raise_if (not (badge.organiser_id == organiser_id)) not_badge_owner
    on_badges e (e.badges.update (by_badge_id badge.id) unpublished)
    commit e
    pure (unpublished badge)

  unfoldable pub get_public_badge_by_slug : Text → Content e Badge
  get_public_badge_by_slug slug = do
    found ← gets (λ w. e.badges.first (public_at slug) w.db.badges)
    or_raise found public_badge_not_found

  unfoldable pub increment_badge_share_count : Text → Content e (Unit {0})
  increment_badge_share_count slug = do
    rowcount ← gets (λ w. e.badges.count (public_at slug) w.db.badges)
    on_badges e
        (e.badges.update (public_at slug) (λ b. record b { share_count = b.share_count + 1 }))
    commit e
    raise_if (rowcount == 0) public_badge_not_found

  -- UPDATE … RETURNING, then the notification, in one transaction.
  unfoldable pub increment_badge_creation_count : Text → Content e (Unit {0})
  unfolding create_notification
  increment_badge_creation_count slug = do
    row ← gets (λ w. e.badges.first (public_at slug) w.db.badges)
    on_badges e
        (e.badges.update (public_at slug) (λ b. record b { creation_count = b.creation_count + 1 }))
    badge ← or_raise row public_badge_not_found
    made ←
        create_notification e badge.organiser_id badge_creation
          (codes "A new participant has just created a new badge")
          (codes "A new participant just created a badge from '" ++ (badge.title ++ codes "'."))
          (some (badge_data badge.id slug))
    commit e

  -- One attempt to delete an asset; what it raises is logged and dropped.
  unfoldable pub try_delete : Option Text → Content e (Unit {0})
  try_delete none = pure tt
  try_delete (some public_id) =
      modify (λ w. record w { calls = suc w.calls; assets = deleted public_id ∷ w.assets })

  unfoldable pub delete_badge : ℕ → ℕ → Content e (Unit {0})
  unfolding get_badge_by_id try_delete
  delete_badge organiser_id id = do
    badge ← get_badge_by_id organiser_id id
    now ← gets (λ w. w.clock)
    on_badges e (e.badges.update (by_badge_id badge.id) (removed now))
    commit e
    try_delete (full badge.logo_public_id)

  -- upload_logo of app/services/cloudinary.py: the URL and the public id, or CloudinaryUploadError.
  unfoldable pub upload_logo : Content e (Text × Text)
  upload_logo w = elim (e.upload w.calls) [
    | none ↦ (err cloudinary_upload, record w { calls = suc w.calls })
    | some (url, public_id) ↦ (
      ok (url, public_id),
      record w { calls = suc w.calls; assets = uploaded public_id ∷ w.assets },
    )
  ]

  -- `fails` says whether the commit raises.
  unfoldable pub upload_badge_logo : Bool → ℕ → ℕ → Content e Text
  unfolding get_badge_by_id try_delete upload_logo
  upload_badge_logo fails id organiser_id = do
    badge ← get_badge_by_id organiser_id id
    logo ← upload_logo
    let (url, public_id) = logo
    on_badges e (
        e.badges.update (by_badge_id badge.id)
          (λ b. record b { logo_url = some url; logo_public_id = some public_id }))
    if fails
        then (do rollback e; try_delete (some public_id); raise database_failed)
        else (do commit e; try_delete (full badge.logo_public_id); pure url)
