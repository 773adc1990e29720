-- ===== src/Badge/Creation.antt =====
-- `increment_badge_creation_count` and `create_badge`.
use social_badge_api.Common.{
  ℕ, ◌+◌, ◌≡◌, inl, inr, true, false, none, some, ◌⊎◌, ◌∷◌, ◌++◌, Text, codes, Option-cases,
  Bool-cases, arith, map, if◌then◌else◌, ◌==◌,
}
use social_badge_api.Common.Exec.{ok, err}
use social_badge_api.Content.State.{
  Env, World, Badge, Notification, Preference, PlatformTemplate, badge_creation, badge_data,
  public_badge_not_found, template_not_found, template_not_active,
}
use social_badge_api.Notification.{prefs_of, create_notification, toggle}
use social_badge_api.Notification.Preferences.{in_force}
use social_badge_api.Badge.{
  public_at, made_from, counted_template, create_badge, increment_template_badge_count,
  increment_badge_creation_count,
}

module _ (e : Env) where
  -- The notification of a badge made by a participant.
  abbrev pub creation_note : Text → Badge → World e → Notification
  creation_note slug b w = record {
    id = e.uuid w.draws;
    user_id = b.organiser_id;
    kind = badge_creation;
    title = codes "A new participant has just created a new badge";
    body = codes "A new participant just created a badge from '" ++ (b.title ++ codes "'.");
    is_read = false;
    extra_data = some (badge_data b.id slug);
    created_at = w.clock;
  }

  -- An unknown link raises.
  pub creation_unknown :
      (slug : Text) (w : World e)
      → e.badges.first (public_at slug) w.db.badges ≡ none
      → let (result, w') = increment_badge_creation_count e slug w in
        (result ≡ err public_badge_not_found) × (w'.durable ≡ w.durable)
  unfolding increment_badge_creation_count
  creation_unknown slug w gone = (ground (arith, gone), ground (arith, gone))

  -- A badge made under a link that shows a public badge is counted on it, and its organiser is
  -- notified unless they turned that off; both are committed together.
  pub creation_counted :
      (slug : Text) (w : World e) (b : Badge)
      → e.badges.first (public_at slug) w.db.badges ≡ some b
      → let (result, w') = increment_badge_creation_count e slug w in
        let n = creation_note slug b w in
        (result ≡ ok tt)
        × (w'.durable.badges
            ≡ e.badges.update
                (public_at slug)
                (λ x. record x { creation_count = x.creation_count + 1 })
                w.db.badges)
        × (e.notifications.rows w'.durable.notifications ≡ (
            if toggle badge_creation (in_force e b.organiser_id w)
            then n ∷ e.notifications.rows w.db.notifications
            else e.notifications.rows w.db.notifications))
  unfolding increment_badge_creation_count create_notification
  creation_counted slug w b found =
      elim (Option-cases (e.preferences.first (prefs_of b.organiser_id) w.db.preferences)) [
        | inl gone ↦ (
          ground (arith, found, gone),
          ground (arith, found, gone),
          rw (inserted (inl gone), gone) (e.notifications.rows-insert _ _),
        )
        | inr (p, prefs) ↦ elim (Bool-cases p.notify_badge_creation) [
          | inl on ↦ (
            ground (arith, found, prefs, on),
            ground (arith, found, prefs, on),
            rw (inserted (inr (p, prefs, on)), prefs, on) (e.notifications.rows-insert _ _),
          )
          | inr off ↦ (
            ground (arith, found, prefs, off),
            ground (arith, found, prefs, off),
            ground (arith, found, prefs, off),
          )
        ]
      ]
    where
      inserted :
          (e.preferences.first (prefs_of b.organiser_id) w.db.preferences ≡ none)
            ⊎ ((p : Preference) × (e.preferences.first (prefs_of b.organiser_id) w.db.preferences
                  ≡ some p)
                × (p.notify_badge_creation ≡ true))
          → (increment_badge_creation_count e slug w).1.durable.notifications
            ≡ e.notifications.insert (creation_note slug b w) w.db.notifications
      inserted (inl gone) = ground (arith, found, gone)
      inserted (inr (p, prefs, on)) = ground (arith, found, prefs, on)

  -- From an active template, `create_badge` makes an unpublished badge of the organiser and adds
  -- one to the template's count, in one commit.
  pub create-Made :
      (organiser_id template_id : ℕ) (w : World e) (t : PlatformTemplate)
      → e.templates.first (λ t. t.id == template_id) w.db.templates ≡ some t
      → t.is_active ≡ true
      → let (result, w') = create_badge e organiser_id template_id w in
        let new = record (made_from e t organiser_id (e.uuid w.draws)) {
          platform_template_id = template_id;
        } in
        (result ≡ ok new)
        × (e.badges.rows w'.durable.badges ≡ new ∷ e.badges.rows w.db.badges)
        × (e.templates.rows w'.durable.templates
            ≡ map
                (λ x. if x.id == template_id then counted_template x else x)
                (e.templates.rows w.db.templates))
        × (w'.durable ≡ w'.db)
  unfolding create_badge increment_template_badge_count
  create-Made organiser_id template_id w t found on = (
    ground (arith, found, on),
    rw (found, on) (e.badges.rows-insert _ _),
    rw (found, on) (e.templates.rows-update _ _ _),
    ground (arith, found, on),
  )

  -- From no template, or one that is not active: nothing.
  pub create_refused :
      (organiser_id template_id : ℕ) (w : World e)
      → let (result, w') = create_badge e organiser_id template_id w in
        ((b : Badge) × (result ≡ ok b)
          × (t : PlatformTemplate) × (e.templates.first (λ t. t.id == template_id) w.db.templates
              ≡ some t)
          × (t.is_active ≡ true))
        ⊎ (((result ≡ err template_not_found) ⊎ (result ≡ err template_not_active)) × (w' ≡ w))
  unfolding create_badge increment_template_badge_count
  create_refused organiser_id template_id w =
      elim (Option-cases (e.templates.first (λ t. t.id == template_id) w.db.templates)) [
        | inl gone ↦ inr (inl (ground (arith, gone)), ground (arith, gone))
        | inr (t, found) ↦ elim (Bool-cases t.is_active) [
          | inl on ↦ inl (
            record (made_from e t organiser_id (e.uuid w.draws)) {
              platform_template_id = template_id;
            },
            ground (arith, found, on),
            t,
            found,
            on,
          )
          | inr off ↦ inr (inr (ground (arith, found, off)), ground (arith, found, off))
        ]
      ]
