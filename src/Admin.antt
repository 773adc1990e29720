-- ===== src/Admin.antt =====
-- app/services/admin.py and app/routers/v1/admin.py: the platform templates, for administrators.
pub mod Templates
use social_badge_api.Common.{
  ℕ, ◌+◌, ◌*◌, Bool, true, false, Option, none, some, List, map, Text, codes, text_eq, take, drop,
  leb, ◌==◌, if◌then◌else◌,
}
use social_badge_api.Common.Exec.{Exec, Result, ok, err, pure, raise, or_raise, gets, ◌>>=◌, ◌>>◌}
use social_badge_api.Common.Order.{sort_by}
use social_badge_api.Common.Sets.{is_in}
use social_badge_api.Content.State.{
  Env, World, Content, ContentError, PlatformTemplate, Badge, commit, fresh_id, on_templates,
  on_badges, on_hashtags,
}
use social_badge_api.Notification.{or_keep}
use social_badge_api.Router.{ApiError, refused, catching}

-- UpdatePlatformTemplateRequest: a field that is absent or null is `none`.
pub record TemplateUpdates : Type 0 where
  pub title : Option Text
  pub category : Option Text
  pub canvas_data : Option Text
  pub thumbnail_url : Option Text
  pub is_active : Option Bool

abbrev pub by_template : ℕ → PlatformTemplate → Bool
by_template id t = t.id == id

abbrev pub made_from_template : ℕ → Badge → Bool
made_from_template id b = b.platform_template_id == id

-- `if … is not None`, for a column that may be null
abbrev pub some_or_keep : Option Text → Option Text → Option Text
some_or_keep none old = old
some_or_keep (some new) old = some new

abbrev pub with_updates : TemplateUpdates → PlatformTemplate → PlatformTemplate
with_updates u t = record t {
  title = or_keep u.title t.title;
  category = or_keep u.category t.category;
  canvas_data = some_or_keep u.canvas_data t.canvas_data;
  thumbnail_url = some_or_keep u.thumbnail_url t.thumbnail_url;
  is_active = or_keep u.is_active t.is_active;
}

-- PlatformTemplate.category == category, where one is given
abbrev pub in_category : Option Text → PlatformTemplate → Bool
in_category none t = true
in_category (some category) t = text_eq t.category category

-- .order_by(PlatformTemplate.created_at.asc())
abbrev pub oldest_first : PlatformTemplate → PlatformTemplate → Bool
oldest_first a b = leb a.created_at b.created_at

module _ (e : Env) where
  unfoldable pub create_platform_template :
      Text → Text → Option Text → Option Text → Bool → Content e PlatformTemplate
  create_platform_template title category canvas_data thumbnail_url is_active = do
    id ← fresh_id e
    now ← gets (λ w. w.clock)
    let template : PlatformTemplate = record {
      id = id;
      title = title;
      category = category;
      canvas_data = canvas_data;
      thumbnail_url = thumbnail_url;
      is_active = is_active;
      total_badges_made = 0;
      created_at = now;
    }
    on_templates e (e.templates.insert template)
    commit e
    pure template

  unfoldable pub list_platform_templates : Option Text → ℕ → ℕ → Content e (List PlatformTemplate)
  list_platform_templates category limit offset = gets (λ w. take limit (
      drop offset
        (sort_by oldest_first (e.templates.select (in_category category) w.db.templates))))

  unfoldable pub get_platform_template : ℕ → Content e (Option PlatformTemplate)
  get_platform_template template_id =
      gets (λ w. e.templates.first (by_template template_id) w.db.templates)

  -- The UPDATE of the changed attributes.
  unfoldable pub update_platform_template :
      PlatformTemplate → TemplateUpdates → Content e PlatformTemplate
  update_platform_template template updates = do
    on_templates e (e.templates.update (by_template template.id) (with_updates updates))
    commit e
    pure (with_updates updates template)

  -- The cascades of the relationships delete the template's badges and their hashtags with it.
  unfoldable pub delete_platform_template : PlatformTemplate → Content e (Unit {0})
  delete_platform_template template = do
    badges ← gets (λ w. e.badges.select (made_from_template template.id) w.db.badges)
    let ids = map (λ b. b.id) badges
    on_hashtags e (e.hashtags.delete (λ h. is_in h.badge_id ids))
    on_badges e (e.badges.delete (made_from_template template.id))
    on_templates e (e.templates.delete (by_template template.id))
    commit e

  abbrev pub AdminApi : Type 0 → Type 0
  AdminApi A = Exec ApiError (World e) A

  abbrev passing : {A : Type 0} → Content e A → AdminApi A
  passing m w = catching (λ x. none) (m w)

  abbrev pub not_found : ApiError
  not_found = refused 404 (codes "Platform template not found.")

  unfoldable pub create_template :
      Text → Text → Option Text → Option Text → Bool → AdminApi PlatformTemplate
  create_template title category canvas_data thumbnail_url is_active =
      passing (create_platform_template title category canvas_data thumbnail_url is_active)

  unfoldable pub update_template : ℕ → TemplateUpdates → AdminApi PlatformTemplate
  update_template template_id payload = do
    found ← passing (get_platform_template template_id)
    template ← or_raise found not_found
    passing (update_platform_template template payload)

  unfoldable pub delete_template : ℕ → AdminApi (Unit {0})
  delete_template template_id = do
    found ← passing (get_platform_template template_id)
    template ← or_raise found not_found
    passing (delete_platform_template template)

  unfoldable pub list_templates : Option Text → ℕ → ℕ → AdminApi (List PlatformTemplate)
  list_templates category limit offset = passing (list_platform_templates category limit offset)

  unfoldable pub get_template : ℕ → AdminApi PlatformTemplate
  get_template template_id = do
    found ← passing (get_platform_template template_id)
    or_raise found not_found
