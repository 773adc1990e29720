-- ===== src/Badge/Edit.antt =====
-- app/services/badge.py: `edit_badge` and `duplicate_badge`.
pub mod Access
pub mod Tags
use social_badge_api.Common.{
  ℕ, suc, ◌+◌, Bool, true, false, not, ◌&&◌, ◌||◌, Option, none, some, List, [], ◌∷◌, ◌++◌, map,
  length, Text, codes, truthy, leb, ltb, ◌==◌, if◌then◌else◌,
}
use social_badge_api.Common.Exec.{ok, pure, raise, raise_if, or_raise, gets, modify, ◌>>=◌, ◌>>◌}
use social_badge_api.Content.State.{
  Env, World, Content, Badge, BadgeHashtag, badge_not_found, not_badge_owner, value_error,
  integrity_error, database_failed, commit, rollback, fresh_id, on_badges, on_hashtags,
}
use social_badge_api.Notification.{or_keep}
use social_badge_api.Badge.{is_none, by_badge_id, get_badge_by_id, increment_template_badge_count}

-- EditBadgeRequest, dumped without the fields that the request leaves out: an absent field is `none`, and
-- an explicit null `some none`.
pub record FieldUpdates : Type 0 where
  pub title : Option (Option Text)
  pub canvas_data : Option (Option Text)
  pub default_caption : Option (Option Text)
  pub destination_link : Option (Option Text)
  pub thumbnail_url : Option (Option Text)
  pub access_type : Option (Option ℕ)
  pub access_code : Option (Option Text)

-- `not target_code or len(target_code) < 4 or len(target_code) > 10` is its negation.
abbrev pub is_access_code : Option Text → Bool
is_access_code none = false
is_access_code (some code) = truthy code && (leb 4 (length code) && leb (length code) 10)

abbrev is_absent {ℓ} : {A : Type ℓ} → Option A → Bool
is_absent none = true
is_absent (some a) = false

-- The three branches on `target_type`; `none` is the ValueError.
abbrev pub with_access : Option ℕ → Option Text → FieldUpdates → Option FieldUpdates
with_access none code u = none
with_access (some kind) code u =
    if kind == 1
    then (if is_access_code code then some (record u { access_code = some code }) else none)
    else (if kind == 0 then some (record u { access_code = some none }) else none)

unfoldable pub check_access : FieldUpdates → Badge → Option FieldUpdates
check_access u badge =
    if is_absent u.access_type && is_absent u.access_code
    then some u
    else with_access (or_keep u.access_type (some badge.access_type))
        (or_keep u.access_code badge.access_code) u

-- A null in a column that is not nullable makes the commit fail, so `set_required` keeps the value.
abbrev pub set_required {ℓ} : {A : Type ℓ} → Option (Option A) → A → A
set_required none old = old
set_required (some none) old = old
set_required (some (some new)) old = new

-- A null for JSONB is stored as the JSON null.
abbrev pub json : Option Text → Text
json none = codes "null"
json (some j) = j

abbrev pub set_json : Option (Option Text) → Text → Text
set_json none old = old
set_json (some new) old = json new

-- setattr for each field of the updates
abbrev pub apply_fields : FieldUpdates → Badge → Badge
apply_fields u b = record b {
  title = set_required u.title b.title;
  canvas_data = set_json u.canvas_data b.canvas_data;
  default_caption = or_keep u.default_caption b.default_caption;
  destination_link = or_keep u.destination_link b.destination_link;
  thumbnail_url = or_keep u.thumbnail_url b.thumbnail_url;
  access_type = set_required u.access_type b.access_type;
  access_code = or_keep u.access_code b.access_code;
}

-- badges.title is not nullable.
abbrev pub nulls_title : FieldUpdates → Bool
nulls_title u = elim u.title [ none ↦ false | some t ↦ is_absent t ]

abbrev pub tags_of : ℕ → BadgeHashtag → Bool
tags_of badge_id h = h.badge_id == badge_id

-- `{original.title} (Copy)`
abbrev pub copy_of : Badge → ℕ → ℕ → Badge
copy_of original organiser_id id = record original {
  id = id;
  organiser_id = organiser_id;
  title = original.title ++ codes " (Copy)";
  logo_url = none;
  logo_public_id = none;
  is_published = false;
  published_at = none;
  share_slug = none;
  share_count = 0;
  creation_count = 0;
  deleted_at = none;
}

module _ (e : Env) where
  -- One row for each tag, in their order, with the identifiers drawn from `d` on.
  abbrev pub with_tags : ℕ → ℕ → List Text → e.hashtags.State → e.hashtags.State
  with_tags badge_id d [] s = s
  with_tags badge_id d (tag ∷ tags) s =
      let row : BadgeHashtag = record { id = e.uuid d; badge_id = badge_id; hashtag = tag } in
      with_tags badge_id (suc d) tags (e.hashtags.insert row s)

  abbrev pub add_tags : ℕ → List Text → Content e (Unit {0})
  add_tags badge_id tags w = (
    ok tt,
    record w {
      draws = w.draws + length tags;
      db = record w.db { hashtags = with_tags badge_id w.draws tags w.db.hashtags };
    },
  )

  -- badge.hashtags.clear(), whose orphans are deleted, and an append for each new tag
  abbrev pub replace_tags : Bool → ℕ → Option (List Text) → Content e (Unit {0})
  replace_tags false badge_id new_hashtags = pure tt
  replace_tags true badge_id new_hashtags = do
    on_hashtags e (e.hashtags.delete (tags_of badge_id))
    add_tags badge_id (or_keep new_hashtags [])

  unfoldable pub edit_badge : ℕ → ℕ → FieldUpdates → Option (List Text) → Bool → Content e Badge
  unfolding get_badge_by_id check_access
  edit_badge organiser_id id field_updates new_hashtags update_hashtags = do
    badge ← get_badge_by_id e organiser_id id
    updates ← or_raise (check_access field_updates badge) value_error
    on_badges e (e.badges.update (by_badge_id badge.id) (apply_fields updates))
    replace_tags update_hashtags badge.id new_hashtags
    if nulls_title updates then (do rollback e; raise integrity_error) else (do
      commit e
      refreshed ← gets (λ w. e.badges.first (by_badge_id id) w.db.badges)
      or_raise refreshed database_failed)

  -- session.add(copy) and flush: the database raises a DataError if the title is longer than its
  -- column. What else is copied fits, since it stands in the same columns.
  insert_copy : Badge → Content e (Unit {0})
  insert_copy copy =
      if ltb 255 (length copy.title)
      then (do rollback e; raise database_failed)
      else on_badges e (e.badges.insert copy)

  unfoldable pub duplicate_badge : ℕ → ℕ → Content e Badge
  unfolding get_badge_by_id increment_template_badge_count insert_copy
  duplicate_badge organiser_id id = do
    original ← get_badge_by_id e organiser_id id
    copy_id ← fresh_id e
    let copy = copy_of original organiser_id copy_id
    insert_copy copy
    tags ← gets (λ w. e.hashtags.select (tags_of original.id) w.db.hashtags)
    add_tags copy_id (map (λ h. h.hashtag) tags)
    increment_template_badge_count e original.platform_template_id
    commit e
    pure copy
