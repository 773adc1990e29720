-- ===== src/Router/Badges.antt =====
-- app/routers/v1/badges.py: the endpoints of badges. A caller is the id of the organiser.
pub mod Status
pub mod Pages
pub mod Access
use social_badge_api.Common.{
  ℕ, zero, suc, ◌+◌, ◌-◌, ◌*◌, Bool, true, false, not, ◌&&◌, ◌||◌, Option, none, some, List, [],
  ◌∷◌, ◌++◌, map, take, length, Text, codes, text_eq, truthy, ltb, leb, ◌==◌, if◌then◌else◌,
}
use social_badge_api.Common.Exec.{
  Exec, Result, ok, err, pure, raise, raise_if, or_raise, gets, ◌>>=◌, ◌>>◌,
}
use social_badge_api.Common.Strip.{strip}
use social_badge_api.Content.State.{
  Env, World, Content, ContentError, Badge, BadgeHashtag, badge_not_found, not_badge_owner,
  badge_already_published, public_badge_not_found, template_not_found, template_not_active,
  cloudinary_upload, value_error,
}
use social_badge_api.Badge.{
  create_badge, get_badge_by_id, publish_badge, unpublish_badge, delete_badge,
  get_public_badge_by_slug, increment_badge_creation_count, increment_badge_share_count,
  upload_badge_logo,
}
use social_badge_api.Badge.Edit.{FieldUpdates, edit_badge, duplicate_badge, tags_of}
use social_badge_api.Badge.Listing.{list_badges}
use social_badge_api.Badge.Analytics.{Analytics, get_badge_analytics}
use social_badge_api.Router.{ApiError, refused, catching, owner_clauses, invalid_response}

-- 2 MB
abbrev pub max_logo_bytes : ℕ
max_logo_bytes = 2097152

abbrev pub png_magic : Text
png_magic = 137 ∷ 80 ∷ 78 ∷ 71 ∷ 13 ∷ 10 ∷ 26 ∷ 10 ∷ []

abbrev pub jpeg_magic : Text
jpeg_magic = 255 ∷ 216 ∷ 255 ∷ []

-- bytes.lstrip: the white space of ASCII
abbrev pub is_blank : ℕ → Bool
is_blank c = (leb 9 c && leb c 13) || (c == 32)

abbrev pub lstrip_bytes : List ℕ → List ℕ
lstrip_bytes [] = []
lstrip_bytes (c ∷ t) = let rest = lstrip_bytes t in if is_blank c then rest else c ∷ t

-- bytes.startswith
abbrev pub starts_with : List ℕ → List ℕ → Bool
starts_with [] t = true
starts_with (c ∷ p) [] = false
starts_with (c ∷ p) (x ∷ t) = (c == x) && starts_with p t

-- JSON is kept as its text: an object begins with a brace.
abbrev pub is_object : Text → Bool
is_object json = starts_with (codes "{") json

unfoldable pub is_valid_image : List ℕ → Bool
unfolding text_eq
is_valid_image image_data =
    let stripped_data = lstrip_bytes image_data in
    (text_eq (take 8 image_data) png_magic || text_eq (take 3 image_data) jpeg_magic)
    || (starts_with (codes "<?xml") stripped_data || starts_with (codes "<svg") stripped_data)

-- app/schemas/badge.py
pub record BadgeListResponse : Type 0 where
  pub badges : List Badge
  pub total : ℕ
  pub page : ℕ
  pub limit : ℕ
  pub prev : Option Text
  pub next : Option Text

pub record BadgeAnalyticsResponse : Type 0 where
  pub total_organiser_badges : ℕ
  pub total_active_badges : ℕ
  pub total_shares : ℕ
  pub total_badges_created : ℕ
  pub platform_template_usage : List (ℕ × ℕ)

-- The computed field; both numbers are counts, and the second is never the greater.
abbrev pub total_draft_badges : BadgeAnalyticsResponse → ℕ
total_draft_badges r = r.total_organiser_badges - r.total_active_badges

pub record PublicBadgePageResponse : Type 0 where
  pub title : Text
  pub access_type : ℕ
  pub canvas_data : Text
  pub logo_url : Option Text
  pub default_caption : Option Text
  pub destination_link : Option Text
  pub hashtags : List Text

-- except PlatformTemplateNotFoundError, except PlatformTemplateNotActiveError
abbrev pub create_clauses : ContentError → Option (ℕ × Text)
create_clauses template_not_found = some (404, codes "Platform template not found.")
create_clauses template_not_active = some (400, codes "Platform template is not active.")
create_clauses x = none

abbrev pub publish_clauses : ContentError → Option (ℕ × Text)
publish_clauses badge_already_published = some (409, codes "Badge is already published.")
publish_clauses x = owner_clauses x

-- The text of a ValueError is left out.
abbrev pub edit_clauses : ContentError → Option (ℕ × Text)
edit_clauses value_error = some (422, [])
edit_clauses x = owner_clauses x

abbrev pub logo_clauses : ContentError → Option (ℕ × Text)
logo_clauses badge_not_found = some (404, codes "Badge not found.")
logo_clauses not_badge_owner = some (403, codes "You do not have permission to modify this badge.")
logo_clauses cloudinary_upload =
    some (502, codes "Logo upload failed. The upload service is unavailable or rejected the file.")
logo_clauses x = none

abbrev pub public_clauses : ContentError → Option (ℕ × Text)
public_clauses public_badge_not_found = some (404, codes "Badge not found.")
public_clauses x = none

-- A link to a page of the list.
abbrev pub page_link : (ℕ → Text) → ℕ → ℕ → Text
page_link decimal page limit =
    codes "/api/v1/badges?page=" ++ (decimal page ++ (codes "&limit=" ++ decimal limit))

abbrev pub is_allowed_type : Text → Bool
is_allowed_type t =
    text_eq t (codes "image/png")
    || (text_eq t (codes "image/jpeg") || text_eq t (codes "image/svg+xml"))

abbrev pub unsupported : Text
unsupported = codes "Unsupported file type. Only PNG, JPG, and SVG images are allowed."

module _ (e : Env) where
  abbrev pub Api : Type 0 → Type 0
  Api A = Exec ApiError (World e) A

  unfoldable pub create_instance : ℕ → ℕ → Api Badge
  create_instance current_user platform_template_id w =
      catching create_clauses (create_badge e current_user platform_template_id w)

  -- BadgeDetailResponse.model_validate: canvas_data must be an object, and the column may hold null.
  abbrev pub detail : Badge → Api Badge
  detail badge = do raise_if (not (is_object badge.canvas_data)) invalid_response; pure badge

  unfoldable pub get_single_badge : ℕ → ℕ → Api Badge
  get_single_badge current_user id = do
    badge ← (λ w. catching owner_clauses (get_badge_by_id e current_user id w))
    detail badge

  unfoldable pub publish : ℕ → ℕ → Api Badge
  publish current_user id w = catching publish_clauses (publish_badge e current_user id w)

  unfoldable pub unpublish : ℕ → ℕ → Api Badge
  unpublish current_user id w = catching owner_clauses (unpublish_badge e current_user id w)

  unfoldable pub duplicate : ℕ → ℕ → Api Badge
  duplicate current_user id w = catching owner_clauses (duplicate_badge e current_user id w)

  unfoldable pub remove_badge : ℕ → ℕ → Api (Unit {0})
  remove_badge current_user id w = catching owner_clauses (delete_badge e current_user id w)

  unfoldable pub update_badge : ℕ → ℕ → FieldUpdates → Option (List Text) → Bool → Api Badge
  update_badge current_user id field_updates new_hashtags update_hashtags = do
    badge ← (λ w.
        catching edit_clauses
          (edit_badge e current_user id field_updates new_hashtags update_hashtags w))
    detail badge

  unfoldable pub increment_creation : Text → Api (Unit {0})
  increment_creation slug w = catching public_clauses (increment_badge_creation_count e slug w)

  -- The response, and the task that runs after it was sent.
  unfoldable pub increment_share : Text → Api (Content e (Unit {0}))
  increment_share slug = do
    badge ← (λ w. catching public_clauses (get_public_badge_by_slug e slug w))
    pure (increment_badge_share_count e slug)

  -- `decimal` is `str` of a number; the service's listing never raises.
  unfoldable pub list_instances :
      (ℕ → Text) → (ℕ → Option ℕ) → (ℕ → Option ℕ) → ℕ → ℕ → ℕ → Api BadgeListResponse
  list_instances decimal updated created current_user page limit = do
    found ← (λ w. catching (λ x. none) (list_badges e updated created current_user page limit w))
    let (badges, total) = found
    pure (record {
      badges = badges;
      total = total;
      page = page;
      limit = limit;
      prev = if ltb 1 page then some (page_link decimal (page - 1) limit) else none;
      next = if ltb (page * limit) total then some (page_link decimal (page + 1) limit) else none;
    })

  unfoldable pub get_analytics : ℕ → Api BadgeAnalyticsResponse
  get_analytics current_user = do
    a ← (λ w. catching (λ x. none) (get_badge_analytics e current_user w))
    pure (record {
      total_organiser_badges = a.total;
      total_active_badges = a.active;
      total_shares = a.total_shares;
      total_badges_created = a.total_creations;
      platform_template_usage = a.template_usage;
    })

  -- `file` is the whole content of the upload; the last argument is that of the service.
  unfoldable pub upload_logo : Text → List ℕ → Bool → ℕ → ℕ → Api Text
  upload_logo content_type file fails id current_user = do
    raise_if (not (is_allowed_type content_type)) (refused 415 unsupported)
    let image_data = take (max_logo_bytes + 1) file
    raise_if (ltb max_logo_bytes (length image_data))
        (refused 413 (codes "File size exceeds the 2 MB limit."))
    raise_if (not (is_valid_image image_data)) (refused 415 unsupported)
    (λ w. catching logo_clauses (upload_badge_logo e fails id current_user w))

  -- The access code that a private badge asks for; `lower` is str.lower.
  abbrev check_code : (Text → Text) → Badge → Option Text → Api (Unit {0})
  check_code lower badge none =
      raise (refused 401 (codes "This badge is private. Please provide an access code."))
  check_code lower badge (some access_code) = elim badge.access_code [
    | none ↦ raise (refused 403 (codes "Invalid access code."))
    | some code ↦
        raise_if
          (not (truthy code) || not (text_eq (lower (strip code)) (lower (strip access_code))))
          (refused 403 (codes "Invalid access code."))
  ]

  unfoldable pub get_participant_page :
      (Text → Text) → Text → Option Text → Api PublicBadgePageResponse
  get_participant_page lower slug access_code = do
    badge ← (λ w. catching public_clauses (get_public_badge_by_slug e slug w))
    if badge.access_type == 1 then check_code lower badge access_code else pure tt
    tags ← gets (λ w. e.hashtags.select (tags_of badge.id) w.db.hashtags)
    raise_if (not (is_object badge.canvas_data)) invalid_response
    pure (record {
      title = badge.title;
      access_type = badge.access_type;
      canvas_data = badge.canvas_data;
      logo_url = badge.logo_url;
      default_caption = badge.default_caption;
      destination_link = badge.destination_link;
      hashtags = map (λ h. h.hashtag) tags;
    })
