-- ===== src/Badge/Life/Effects.antt =====
-- What each call of app/services/badge.py leaves committed in the table of badges.
use social_badge_api.Common.{
  ℕ, ◌+◌, ◌≤◌, ◌≡◌, refl, inl, inr, ◌⊎◌, Bool, true, false, some, Text, Option-cases, Bool-cases,
  ◌==◌, arith,
}
use social_badge_api.Content.State.{Env, World, Badge}
use social_badge_api.Notification.{create_notification, prefs_of}
use social_badge_api.Badge.{
  kept, by_badge_id, public_at, unpublished, removed, full, get_badge_by_id, try_delete,
  upload_logo, unpublish_badge, upload_badge_logo, increment_badge_share_count,
  increment_badge_creation_count, delete_badge,
}

module _ (e : Env) where
  -- The commit changed rows one by one, or there was none.
  abbrev pub IsUpdate : (Badge → Bool) → (Badge → Badge) → World e → World e → Type 0
  IsUpdate p f w w' =
      (w.draws ≤ w'.draws)
      × ((w'.durable ≡ w.durable) ⊎ (w'.durable.badges ≡ e.badges.update p f w.db.badges))

  pub share_effect :
      (slug : Text) (w : World e)
      → IsUpdate
          (public_at slug)
          (λ b. record b { share_count = b.share_count + 1 })
          w
          (increment_badge_share_count e slug w).1
  unfolding increment_badge_share_count
  share_effect slug w = (omega arith, inr refl)

  pub make_effect :
      (slug : Text) (w : World e)
      → IsUpdate
          (public_at slug)
          (λ b. record b { creation_count = b.creation_count + 1 })
          w
          (increment_badge_creation_count e slug w).1
  unfolding increment_badge_creation_count create_notification
  make_effect slug w = elim (Option-cases (e.badges.first (public_at slug) w.db.badges)) [
    | inl gone ↦ (ground (arith, gone), inl (ground (arith, gone)))
    | inr (b, found) ↦
        elim (Option-cases (e.preferences.first (prefs_of b.organiser_id) w.db.preferences)) [
          | inl free ↦ (ground (arith, found, free), inr (ground (arith, found, free)))
          | inr (p, prefs) ↦ elim (Bool-cases p.notify_badge_creation) [
            | inl on ↦ (ground (arith, found, prefs, on), inr (ground (arith, found, prefs, on)))
            | inr off ↦ (ground (arith, found, prefs, off), inr (ground (arith, found, prefs, off)))
          ]
        ]
  ]

  pub unpublish_step :
      (organiser_id id : ℕ) (w : World e)
      → IsUpdate (by_badge_id id) unpublished w (unpublish_badge e organiser_id id w).1
  unfolding unpublish_badge
  unpublish_step organiser_id id w =
      elim (Option-cases (e.badges.first (by_badge_id id) w.db.badges)) [
        | inl gone ↦ (ground (arith, gone), inl (ground (arith, gone)))
        | inr (b, found) ↦
            let own = (e.badges.first-some (by_badge_id id) w.db.badges b found).0 in
            elim (Option-cases b.deleted_at) [
              | inr (at, dead) ↦ (ground (arith, found, dead), inl (ground (arith, found, dead)))
              | inl alive ↦ elim (Bool-cases (b.organiser_id == organiser_id)) [
                | inr other ↦
                    (ground (arith, found, alive, other), inl (ground (arith, found, alive, other)))
                | inl mine ↦ (
                  ground (arith, found, alive, mine),
                  inr (ground (arith, found, alive, mine, own)),
                )
              ]
            ]
      ]

  pub remove_step :
      (organiser_id id : ℕ) (w : World e)
      → IsUpdate (by_badge_id id) (removed w.clock) w (delete_badge e organiser_id id w).1
  unfolding delete_badge get_badge_by_id try_delete
  remove_step organiser_id id w = elim (Option-cases (e.badges.first (kept id) w.db.badges)) [
    | inl gone ↦ (ground (arith, gone), inl (ground (arith, gone)))
    | inr (b, found) ↦
        let own = (e.badges.first-some (kept id) w.db.badges b found).0 in
        elim (Bool-cases (b.organiser_id == organiser_id)) [
          | inr other ↦ (ground (arith, found, other), inl (ground (arith, found, other)))
          | inl mine ↦ elim (Option-cases (full b.logo_public_id)) [
            | inl bare ↦
                (ground (arith, found, mine, bare), inr (ground (arith, found, mine, own, bare)))
            | inr (logo, has) ↦
                (ground (arith, found, mine, has), inr (ground (arith, found, mine, own, has)))
          ]
        ]
  ]

  -- The new logo of the badge, if the upload succeeded.
  pub logo_step :
      (fails : Bool) (organiser_id id : ℕ) (w : World e)
      → let w' = (upload_badge_logo e fails id organiser_id w).1 in
        (w.draws ≤ w'.draws)
        × ((w'.durable ≡ w.durable)
            ⊎ ((url public_id : Text) × (w'.durable.badges
                  ≡ e.badges.update
                      (by_badge_id id)
                      (λ x. record x { logo_url = some url; logo_public_id = some public_id })
                      w.db.badges)))
  unfolding upload_badge_logo get_badge_by_id upload_logo try_delete
  logo_step fails organiser_id id w = elim (Option-cases (e.badges.first (kept id) w.db.badges)) [
    | inl gone ↦ (ground (arith, gone), inl (ground (arith, gone)))
    | inr (b, found) ↦
        let own = (e.badges.first-some (kept id) w.db.badges b found).0 in
        elim (Bool-cases (b.organiser_id == organiser_id)) [
          | inr other ↦ (ground (arith, found, other), inl (ground (arith, found, other)))
          | inl mine ↦ elim (Option-cases (e.upload w.calls)) [
            | inl down ↦
                (ground (arith, found, mine, down), inl (ground (arith, found, mine, down)))
            | inr ((url, public_id), up) ↦ by_commit fails b url public_id found own mine up
          ]
        ]
  ]
    where
      by_commit :
          (fails : Bool) (b : Badge) (url public_id : Text)
          → e.badges.first (kept id) w.db.badges ≡ some b
          → kept id b ≡ true
          → (b.organiser_id == organiser_id) ≡ true
          → e.upload w.calls ≡ some (url, public_id)
          → let w' = (upload_badge_logo e fails id organiser_id w).1 in
            (w.draws ≤ w'.draws)
            × ((w'.durable ≡ w.durable)
                ⊎ ((url public_id : Text) × (w'.durable.badges
                      ≡ e.badges.update
                          (by_badge_id id)
                          (λ x. record x { logo_url = some url; logo_public_id = some public_id })
                          w.db.badges)))
      by_commit true b url public_id found own mine up =
          (ground (arith, found, mine, up), inl (ground (arith, found, mine, up)))
      by_commit false b url public_id found own mine up =
          elim (Option-cases (full b.logo_public_id)) [
            | inl bare ↦ (
              ground (arith, found, mine, up, bare),
              inr (url, public_id, ground (arith, found, mine, up, own, bare)),
            )
            | inr (logo, has) ↦ (
              ground (arith, found, mine, up, has),
              inr (url, public_id, ground (arith, found, mine, up, own, has)),
            )
          ]
