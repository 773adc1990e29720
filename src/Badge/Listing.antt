-- ===== src/Badge/Listing.antt =====
-- app/services/badge.py: `list_badges`, `list_platform_templates`, `get_platform_template`.
use social_badge_api.Common.{
  ℕ, ◌*◌, ◌≤◌, ◌≡◌, Bool, true, false, not, ◌&&◌, ◌||◌, Option, none, some, List, [], ◌∷◌, Text,
  codes, text_eq, ltb, ◌==◌, if◌then◌else◌, arith,
}
use social_badge_api.Common.Exec.{ok, raise, or_raise, gets, ◌>>=◌}
use social_badge_api.Common.Order.{joined}
use social_badge_api.Common.Strip.{strip}
use social_badge_api.Platform.Listing.{Order, IsListing, listed, query, query-IsListing}
use social_badge_api.Content.State.{
  Env, World, Content, Badge, PlatformTemplate, value_error, template_not_found,
}
use social_badge_api.Badge.{is_none}

-- VALID_CATEGORIES
abbrev pub valid_categories : List Text
valid_categories =
    codes "festivals"
    ∷ codes "hackathons"
    ∷ codes "conferences"
    ∷ codes "community"
    ∷ codes "bootcamp"
    ∷ codes "meetups"
    ∷ codes "speakers"
    ∷ codes "summit"
    ∷ codes "trending"
    ∷ []

abbrev pub is_among : Text → List Text → Bool
is_among t [] = false
is_among t (x ∷ xs) = text_eq t x || is_among t xs

-- Badge.organiser_id == organiser_id, Badge.deleted_at.is_(None)
abbrev pub kept_of : ℕ → Badge → Bool
kept_of organiser_id b = (b.organiser_id == organiser_id) && is_none b.deleted_at

-- .desc().nulls_last(): the later of two times, and whether they are one
abbrev pub strictly_later : Option ℕ → Option ℕ → Bool
strictly_later none b = false
strictly_later (some m) none = true
strictly_later (some m) (some n) = ltb n m

abbrev pub same_time : Option ℕ → Option ℕ → Bool
same_time none none = true
same_time none (some n) = false
same_time (some m) none = false
same_time (some m) (some n) = m == n

-- `updated` and `created` are the times that the database keeps of a badge.
abbrev pub recent_first : (ℕ → Option ℕ) → (ℕ → Option ℕ) → Badge → Badge → Bool
recent_first updated created a b =
    strictly_later (updated a.id) (updated b.id)
    || (same_time (updated a.id) (updated b.id)
        && not (strictly_later (created b.id) (created a.id)))

recent_total :
    (u v c d : Option ℕ)
    → (strictly_later u v || (same_time u v && not (strictly_later d c))) ≡ false
    → (strictly_later v u || (same_time v u && not (strictly_later c d))) ≡ true
recent_total u v c d h = ground arith

recent_trans :
    (u v w c d f : Option ℕ)
    → (strictly_later u v || (same_time u v && not (strictly_later d c))) ≡ true
    → (strictly_later v w || (same_time v w && not (strictly_later f d))) ≡ true
    → (strictly_later u w || (same_time u w && not (strictly_later f c))) ≡ true
recent_trans u v w c d f h k = ground arith

pub recent_first-Order : (updated created : ℕ → Option ℕ) → Order (recent_first updated created)
recent_first-Order updated created = record {
  total = λ a b h. recent_total (updated a.id) (updated b.id) (created a.id) (created b.id) h;
  trans = λ a b c h k.
      recent_trans (updated a.id) (updated b.id) (updated c.id) (created a.id) (created b.id)
        (created c.id) h k;
}

-- PlatformTemplate.is_active.is_(True), PlatformTemplate.category == normalised
abbrev pub active_in : Option Text → PlatformTemplate → Bool
active_in none t = t.is_active
active_in (some category) t = t.is_active && text_eq t.category category

-- The database's order of texts, from the first to the last.
abbrev pub by_title : (Text → Text → Bool) → PlatformTemplate → PlatformTemplate → Bool
by_title collate a b = collate a.title b.title

-- .order_by(PlatformTemplate.category.nulls_last(), PlatformTemplate.title); a category is never null
abbrev pub by_category : (Text → Text → Bool) → PlatformTemplate → PlatformTemplate → Bool
by_category collate a b =
    not (collate b.category a.category)
    || (collate a.category b.category && collate a.title b.title)

module _ (e : Env) where
  unfoldable pub list_badges :
      (ℕ → Option ℕ) → (ℕ → Option ℕ) → ℕ → ℕ → ℕ → Content e (List Badge × ℕ)
  list_badges updated created organiser_id page limit w = (
    ok (
      query e.badges (recent_first updated created) (kept_of organiser_id) page limit w.db.badges,
      e.badges.count (kept_of organiser_id) w.db.badges,
    ),
    w,
  )

  pub list_badges-IsListing :
      (updated created : ℕ → Option ℕ) (organiser_id k limit : ℕ) (w : World e)
      → e.badges.count (kept_of organiser_id) w.db.badges ≤ k * limit
      → IsListing
          (recent_first updated created)
          (kept_of organiser_id)
          (e.badges.rows w.db.badges)
          (joined (λ i. listed (list_badges updated created organiser_id i limit w).0) k)
  unfolding list_badges
  list_badges-IsListing updated created organiser_id k limit w fits =
      query-IsListing e.badges (recent_first updated created) (recent_first-Order updated created)
        (kept_of organiser_id) k limit w.db.badges fits

  abbrev templates_page :
      (PlatformTemplate → PlatformTemplate → Bool)
      → Option Text
      → ℕ
      → ℕ
      → Content e (List PlatformTemplate × ℕ)
  templates_page le category page limit w = (
    ok (
      query e.templates le (active_in category) page limit w.db.templates,
      e.templates.count (active_in category) w.db.templates,
    ),
    w,
  )

  -- `lower` is str.lower, and `collate` the order of the database's texts.
  unfoldable pub list_platform_templates :
      (Text → Text)
      → (Text → Text → Bool)
      → Option Text
      → ℕ
      → ℕ
      → Content e (List PlatformTemplate × ℕ)
  list_platform_templates lower collate none page limit =
      templates_page (by_category collate) none page limit
  list_platform_templates lower collate (some category) page limit =
      let normalised = lower (strip category) in
      if is_among normalised valid_categories
      then templates_page (by_title collate) (some normalised) page limit
      else raise value_error

  unfoldable pub get_platform_template : ℕ → Content e PlatformTemplate
  get_platform_template id = do
    found ← gets (λ w. e.templates.first (λ t. (t.id == id) && t.is_active) w.db.templates)
    or_raise found template_not_found
