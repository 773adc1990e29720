-- ===== src/Badge/Life/Additions.antt =====
-- What `create_badge`, `duplicate_badge`, `edit_badge` and `publish_badge` leave committed.
use social_badge_api.Common.{
  ℕ, ◌≤◌, ◌<◌, ◌≡◌, refl, inl, inr, ◌⊎◌, Bool, true, false, Option, none, some, List, Text,
  Option-cases, Bool-cases, ◌==◌, arith, ltb, length, ◌++◌, codes,
}
use social_badge_api.Common.Exec.{ok, err}
use social_badge_api.Content.State.{Env, World, Badge, ContentError}
use social_badge_api.Badge.{
  kept, made_from, get_badge_by_id, increment_template_badge_count, create_badge, publish_badge,
  slug_for, commit_unique,
}
use social_badge_api.Badge.Edit.{
  FieldUpdates, edit_badge, duplicate_badge, copy_of, check_access, nulls_title,
}

module _ (e : Env) where
  -- A new draft with the identifier that was drawn first.
  abbrev pub IsDraft : Badge → Type 0
  IsDraft b = (b.is_published ≡ false) × (b.share_slug ≡ none)

  pub create_step :
      (organiser_id template_id : ℕ) (w : World e)
      → let w' = (create_badge e organiser_id template_id w).1 in
        ((w'.draws ≡ w.draws) × (w'.durable ≡ w.durable))
        ⊎ ((b : Badge) × IsDraft b
            × (b.id ≡ e.uuid w.draws)
            × (w.draws < w'.draws)
            × (b.access_type ≡ 0)
            × (b.access_code ≡ none)
            × (w'.durable.badges ≡ e.badges.insert b w.db.badges))
  unfolding create_badge increment_template_badge_count
  create_step organiser_id template_id w =
      elim (Option-cases (e.templates.first (λ t. t.id == template_id) w.db.templates)) [
        | inl gone ↦ inl (ground (arith, gone), ground (arith, gone))
        | inr (t, found) ↦ elim (Bool-cases t.is_active) [
          | inr off ↦ inl (ground (arith, found, off), ground (arith, found, off))
          | inl on ↦ inr (
            record (made_from e t organiser_id (e.uuid w.draws)) {
              platform_template_id = template_id;
            },
            (refl, refl),
            refl,
            ground (arith, found, on),
            refl,
            refl,
            ground (arith, found, on),
          )
        ]
      ]

  pub duplicate_step :
      (organiser_id id : ℕ) (w : World e)
      → let w' = (duplicate_badge e organiser_id id w).1 in
        ((w.draws ≤ w'.draws) × (w'.durable ≡ w.durable))
        ⊎ ((old : Badge) × (e.badges.first (kept id) w.db.badges ≡ some old)
            × (w.draws < w'.draws)
            × (w'.durable.badges
                ≡ e.badges.insert (copy_of old organiser_id (e.uuid w.draws)) w.db.badges))
  unfolding duplicate_badge get_badge_by_id increment_template_badge_count
  duplicate_step organiser_id id w = elim (Option-cases (e.badges.first (kept id) w.db.badges)) [
    | inl gone ↦ inl (ground (arith, gone), ground (arith, gone))
    | inr (b, found) ↦ elim (Bool-cases (b.organiser_id == organiser_id)) [
      | inr other ↦ inl (ground (arith, found, other), ground (arith, found, other))
      | inl mine ↦ elim (Bool-cases (ltb 255 (length (b.title ++ codes " (Copy)")))) [
        | inl long ↦ inl (ground (arith, found, mine, long), ground (arith, found, mine, long))
        | inr fits ↦
            inr (b, found, ground (arith, found, mine, fits), ground (arith, found, mine, fits))
      ]
    ]
  ]

  pub edit_draws :
      (organiser_id id : ℕ) (u : FieldUpdates) (tags : Option (List Text)) (replace : Bool)
      (w : World e)
      → w.draws ≤ (edit_badge e organiser_id id u tags replace w).1.draws
  unfolding edit_badge get_badge_by_id
  edit_draws organiser_id id u tags replace w =
      elim (Option-cases (e.badges.first (kept id) w.db.badges)) [
        | inl gone ↦ ground (arith, gone)
        | inr (b, found) ↦ elim (Bool-cases (b.organiser_id == organiser_id)) [
          | inr other ↦ ground (arith, found, other)
          | inl mine ↦ elim (Option-cases (check_access u b)) [
            | inl bad ↦ ground (arith, found, mine, bad)
            | inr (v, good) ↦ elim (Bool-cases (nulls_title v)) [
              | inl null ↦ by_tags replace b v found mine good (inl null)
              | inr fine ↦ by_tags replace b v found mine good (inr fine)
            ]
          ]
        ]
      ]
    where
      by_tags :
          (r : Bool) (b : Badge) (v : FieldUpdates)
          → e.badges.first (kept id) w.db.badges ≡ some b
          → (b.organiser_id == organiser_id) ≡ true
          → check_access u b ≡ some v
          → (nulls_title v ≡ true) ⊎ (nulls_title v ≡ false)
          → w.draws ≤ (edit_badge e organiser_id id u tags r w).1.draws
      by_tags true b v found mine good (inl null) = ground (arith, found, mine, good, null)
      by_tags true b v found mine good (inr fine) = ground (arith, found, mine, good, fine)
      by_tags false b v found mine good (inl null) = ground (arith, found, mine, good, null)
      by_tags false b v found mine good (inr fine) = ground (arith, found, mine, good, fine)

  -- A publication that raises commits nothing, and no publication takes draws back.
  pub publish_refused :
      (organiser_id id : ℕ) (w w' : World e) (x : ContentError)
      → publish_badge e organiser_id id w ≡ (err x, w')
      → (w.draws ≤ w'.draws) × (w'.durable ≡ w.durable)
  unfolding publish_badge get_badge_by_id slug_for commit_unique
  publish_refused organiser_id id w w' x h = ground arith

  pub publish_draws :
      (organiser_id id : ℕ) (w w' : World e) (b : Badge)
      → publish_badge e organiser_id id w ≡ (ok b, w')
      → w.draws ≤ w'.draws
  unfolding publish_badge get_badge_by_id slug_for commit_unique
  publish_draws organiser_id id w w' b h = ground arith
