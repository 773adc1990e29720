-- ===== src/Router/Feeds.antt =====
-- app/routers/v1/notifications.py, app/routers/v1/newsletter.py and app/routers/v1/platform_templates.py.
use social_badge_api.Common.{
  ℕ, ◌+◌, ◌-◌, ◌*◌, ◌≡◌, refl, inl, inr, Bool, false, not, ◌&&◌, Option, none, some, List, [], ◌∷◌,
  ◌++◌, map, Text, codes, truthy, ltb, ◌==◌, countb, Bool-cases, if◌then◌else◌, arith,
}
use social_badge_api.Common.Exec.{Exec, Result, ok, err, pure, raise, raise_if, ◌>>=◌, ◌>>◌}
use social_badge_api.Common.Strip.{strip}
use social_badge_api.Content.State.{
  Env, World, Content, ContentError, Notification, Preference, PlatformTemplate, value_error,
  template_not_found,
}
use social_badge_api.Notification.{
  Updates, get_notification_preferences, update_notification_preferences, get_unread_count,
  mark_notification_read, mark_all_notifications_read, unread_of, mark_read,
}
use social_badge_api.Notification.Listing.{list_notifications}
use social_badge_api.Badge.{is_none}
use social_badge_api.Badge.Listing.{list_platform_templates, get_platform_template}
use social_badge_api.Newsletter.{Subscriber, NewsletterError, subscribe, unsubscribe}
use social_badge_api.Newsletter as News
use social_badge_api.Router.{ApiError, refused, catching}
use social_badge_api.Router.Badges.{Api}

-- INVALID_PREFERENCE_ERROR; its text is left out.
abbrev pub invalid_preference : ApiError
invalid_preference = refused 400 []

-- `if not updates`, where the absent toggles are left out
abbrev pub is_empty : Updates → Bool
is_empty u =
    is_none u.email_template_published
    && (is_none u.email_new_signin
        && (is_none u.notify_badge_creation
            && (is_none u.notify_daily_digest && is_none u.notify_weekly_report)))

-- A page with the links before and after it.
pub record Page (A : Type 0) : Type 0 where
  pub items : List A
  pub total : ℕ
  pub page : ℕ
  pub limit : ℕ
  pub prev : Option Text
  pub next : Option Text

abbrev pub page_with : {A : Type 0} → (ℕ → Text) → ℕ → ℕ → List A × ℕ → Page A
page_with link page limit (items, total) = record {
  items = items;
  total = total;
  page = page;
  limit = limit;
  prev = if ltb 1 page then some (link (page - 1)) else none;
  next = if ltb (page * limit) total then some (link (page + 1)) else none;
}

-- except ValueError; its text is left out.
abbrev pub gallery_clauses : ContentError → Option (ℕ × Text)
gallery_clauses value_error = some (400, [])
gallery_clauses x = none

abbrev pub template_clauses : ContentError → Option (ℕ × Text)
template_clauses template_not_found = some (404, codes "Platform template not found.")
template_clauses x = none

-- category.strip().lower(), and none for what is then empty
abbrev pub normalised : (Text → Text) → Option Text → Option Text
normalised lower none = none
normalised lower (some category) =
    if truthy (lower (strip category)) then some (lower (strip category)) else none

module _ (e : Env) where
  abbrev passing : {A : Type 0} → Content e A → Api e A
  passing m w = catching (λ x. none) (m w)

  unfoldable pub get_preferences : ℕ → Api e Preference
  get_preferences current_user = passing (get_notification_preferences e current_user)

  unfoldable pub patch_preferences : ℕ → Option Updates → Api e Preference
  patch_preferences current_user none = raise invalid_preference
  patch_preferences current_user (some updates) = do
    raise_if (is_empty updates) invalid_preference
    passing (update_notification_preferences e current_user updates)

  unfoldable pub list_user_notifications : (ℕ → Text) → ℕ → ℕ → ℕ → Api e (Page Notification)
  list_user_notifications decimal current_user page limit = do
    found ← passing (list_notifications e current_user page limit)
    pure (
        page_with
          (λ p.
            codes "/api/v1/organiser/notifications/list?page="
            ++ (decimal p ++ (codes "&limit=" ++ decimal limit)))
          page limit found)

  unfoldable pub get_unread_notifications_count : ℕ → Api e ℕ
  get_unread_notifications_count current_user = passing (get_unread_count e current_user)

  unfoldable pub mark_one_read : ℕ → ℕ → Api e (Unit {0})
  mark_one_read current_user notification_id = do
    found ← passing (mark_notification_read e current_user notification_id)
    raise_if (not found) (refused 404 (codes "Notification not found."))

  unfoldable pub mark_all_read : ℕ → Api e ℕ
  mark_all_read current_user = passing (mark_all_notifications_read e current_user)

  -- `link` is the URL of a page, with urlencode; the category is part of it.
  unfoldable pub list_templates :
      (Text → Text)
      → (Text → Text → Bool)
      → (ℕ → Option Text → ℕ → Text)
      → Option Text
      → ℕ
      → ℕ
      → Api e (Page PlatformTemplate)
  list_templates lower collate link category page limit = do
    let kind = normalised lower category
    found ←
        (λ w. catching gallery_clauses (list_platform_templates e lower collate kind page limit w))
    pure (page_with (λ p. link p kind limit) page limit found)

  unfoldable pub get_template : ℕ → Api e PlatformTemplate
  get_template id w = catching template_clauses (get_platform_template e id w)

others_unread :
    (u v id : ℕ) (rows : List Notification)
    → (v == u) ≡ false
    → countb
        (unread_of v)
        (map (λ n. if (n.id == id) && (n.user_id == u) then mark_read n else n) rows)
      ≡ countb (unread_of v) rows
others_unread u v id [] other = refl
others_unread u v id (n ∷ rows) other = ground (arith, other, others_unread u v id rows other)

module _ (e : Env) where
  -- A notification of the caller is marked and committed, any other is 404; what others have not read stays.
  pub mark_one_read_lem :
      (current_user other id : ℕ) (w : World e)
      → (other == current_user) ≡ false
      → let rows = e.notifications.rows w.db.notifications in
        let mine = countb (λ n. (n.id == id) && (n.user_id == current_user)) rows in
        let (result, w') = mark_one_read e current_user id w in
        (result
          ≡ (if ltb 0 mine then ok tt else err (refused 404 (codes "Notification not found."))))
        × (w'.durable ≡ w'.db)
        × ((get_unread_notifications_count e other w').0
            ≡ (get_unread_notifications_count e other w).0)
  unfolding mark_one_read get_unread_notifications_count mark_notification_read get_unread_count
  mark_one_read_lem current_user other id w different =
      let rows = e.notifications.rows w.db.notifications in
      let count =
        e.notifications.count-rows (λ n. (n.id == id) && (n.user_id == current_user))
          w.db.notifications in
      let same = others_unread current_user other id rows different in
      elim (Bool-cases (ltb 0 (countb (λ n. (n.id == id) && (n.user_id == current_user)) rows))) [
        | inl there ↦ (
          ground (arith, count, there),
          refl,
          rw
              (
                e.notifications.count-rows, e.notifications.rows-update, same,
                e.notifications.count-rows,
              )
              refl,
        )
        | inr gone ↦ (
          ground (arith, count, gone),
          refl,
          rw
              (
                e.notifications.count-rows, e.notifications.rows-update, same,
                e.notifications.count-rows,
              )
              refl,
        )
      ]

-- HTTPException, or an exception of the newsletter that an endpoint lets through.
pub data NewsApiError : Type 0 where
  http : ℕ → Text → NewsApiError
  raised : NewsletterError → NewsApiError

abbrev pub through : {W A : Type 0} → Result NewsletterError A × W → Result NewsApiError A × W
through (ok a, w) = (ok a, w)
through (err x, w) = (err (raised x), w)

module _ (e : News.Env) (race : e.subscribers.State → e.subscribers.State) where
  -- The message, the address and the time of the answer.
  unfoldable pub subscribe_to_newsletter : Text → Exec NewsApiError (News.World e) (Text × Text × ℕ)
  subscribe_to_newsletter email = do
    answer ← (λ w. through (subscribe e race email w))
    let (subscriber, created) = answer
    pure (
      if created
          then codes "You have successfully subscribed to the newsletter."
          else codes "This email address is already subscribed.",
      subscriber.email,
      subscriber.subscribed_at,
    )

module _ (e : News.Env) where
  unfoldable pub unsubscribe_from_newsletter : Text → Exec NewsApiError (News.World e) (Unit {0})
  unsubscribe_from_newsletter token = do
    found ← (λ w. through (unsubscribe e token w))
    raise_if (not found) (http 404 (codes "Unsubscribe token not found."))
