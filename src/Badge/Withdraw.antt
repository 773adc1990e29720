-- ===== src/Badge/Withdraw.antt =====
-- `unpublish_badge`, `delete_badge` and who may call them; the counters of a public badge.
use social_badge_api.Common.{
  ℕ, ◌+◌, ◌≤◌, ◌≡◌, ◌≢◌, refl, inl, inr, Bool, true, false, none, some, List, [], ◌∷◌, map, Text,
  text_eq_refl, countb, countb_none, All-intro, All-map, Member, unique-Member, Option-cases,
  Bool-cases, if◌then◌else◌, ◌==◌, ==_refl, arith,
}
use social_badge_api.Common.Exec.{ok, err}
use social_badge_api.Platform.Table.{first_none_of}
use social_badge_api.Content.State.{
  Env, World, Badge, deleted, public_badge_not_found, badge_not_found, not_badge_owner,
}
use social_badge_api.Badge.{
  kept, by_badge_id, has_slug, public_at, removed, unpublished, full, get_badge_by_id, try_delete,
  publish_badge, unpublish_badge, delete_badge, get_public_badge_by_slug,
  increment_badge_share_count, upload_badge_logo,
}
use social_badge_api.Badge.Publish.{IsUnique, badges_of}

abbrev on_badge : ℕ → (Badge → Badge) → Badge → Badge
on_badge id f b = if by_badge_id id b then f b else b

-- Nothing is public under a slug once the badge that has it is hidden.
none_public :
    (slug : Text) (f : Badge → Badge) (old : Badge) (rows : List Badge)
    → ((b : Badge) → ((f b).is_published ≡ false) × ((f b).share_slug ≡ b.share_slug))
    → countb (has_slug slug) rows ≤ 1
    → Member old rows
    → has_slug slug old ≡ true
    → countb (public_at slug) (map (on_badge old.id f) rows) ≡ 0
none_public slug f old rows hides one m own =
    countb_none (public_at slug) (map (on_badge old.id f) rows) (
      All-map (λ b. Member b rows) (λ b. public_at slug b ≡ false) (on_badge old.id f) rows each
        (All-intro (λ b. Member b rows) rows (λ b n. n)))
  where
    each : (b : Badge) → Member b rows → public_at slug (on_badge old.id f b) ≡ false
    each b n = elim (Bool-cases (has_slug slug b)) [
      | inl same ↦
          rw (unique-Member (has_slug slug) b old rows one n m same own)
            (ground (arith, hides old, ==_refl old.id))
      | inr other ↦ ground (arith, hides b, other)
    ]

-- Nor is a removed badge kept.
none_kept :
    (id now : ℕ) (rows : List Badge) → countb (kept id) (map (on_badge id (removed now)) rows) ≡ 0
none_kept id now [] = refl
none_kept id now (b ∷ rows) = ground (arith, none_kept id now rows)

pub kept_id : (id : ℕ) (b : Badge) → kept id b ≡ true → b.id ≡ id
kept_id id b h = ground arith

abbrev pub shares : List Badge → ℕ
shares [] = 0
shares (b ∷ rows) = b.share_count + shares rows

shares_counted :
    (p : Badge → Bool) (rows : List Badge)
    → shares (map (λ b. if p b then record b { share_count = b.share_count + 1 } else b) rows)
      ≡ countb p rows + shares rows
shares_counted p [] = refl
shares_counted p (b ∷ rows) = ground (arith, shares_counted p rows)

module _ (e : Env) where
  -- No public badge is left under the slug.
  abbrev pub IsHidden : Text → World e → Type 0
  IsHidden slug w = get_public_badge_by_slug e slug w ≡ (err public_badge_not_found, w)

  IsHidden-of_count :
      (slug : Text) (w : World e) → countb (public_at slug) (badges_of e w) ≡ 0 → IsHidden slug w
  unfolding get_public_badge_by_slug
  IsHidden-of_count slug w h = rw (first_none_of e.badges (public_at slug) w.db.badges h) refl

  -- The badge of an unpublication that succeeds, and the table after it.
  unpublish_effect :
      (organiser_id id : ℕ) (w w' : World e) (b : Badge)
      → unpublish_badge e organiser_id id w ≡ (ok b, w')
      → (old : Badge) × (e.badges.first (by_badge_id id) w.db.badges ≡ some old)
        × (b ≡ unpublished old)
        × (old.organiser_id ≡ organiser_id)
        × (w'.db.badges ≡ e.badges.update (by_badge_id old.id) unpublished w.db.badges)
        × (w'.durable ≡ w'.db)
  unfolding unpublish_badge
  unpublish_effect organiser_id id w w' b h =
      elim (Option-cases (e.badges.first (by_badge_id id) w.db.badges)) [
        | inl gone ↦ absurd (ground (arith, gone))
        | inr (old, found) ↦ (
          old,
          found,
          ground (arith, found),
          ground (arith, found),
          ground (arith, found),
          ground (arith, found),
        )
      ]

  delete_effect :
      (organiser_id id : ℕ) (w w' : World e) (old : Badge)
      → e.badges.first (kept id) w.db.badges ≡ some old
      → delete_badge e organiser_id id w ≡ (ok tt, w')
      → (w'.db.badges ≡ e.badges.update (by_badge_id old.id) (removed w.clock) w.db.badges)
        × (w'.durable ≡ w'.db)
        × (w'.assets
            ≡ elim (full old.logo_public_id) [ none ↦ w.assets | some p ↦ deleted p ∷ w.assets ])
  unfolding delete_badge get_badge_by_id try_delete
  delete_effect organiser_id id w w' old found h = ground (arith, found)

  module _ (organiser_id id : ℕ) (w w' : World e) where
    -- If slugs are unique, then after a badge that keeps a slug was unpublished its link finds no
    -- public badge; the change is committed.
    pub unpublish-Hidden :
        (b : Badge) (slug : Text)
        → IsUnique (badges_of e w)
        → unpublish_badge e organiser_id id w ≡ (ok b, w')
        → b.share_slug ≡ some slug
        → IsHidden slug w' × (w'.durable ≡ w'.db)
    unpublish-Hidden b slug u h own =
        let (old, found, new, owner, stored, committed) =
          unpublish_effect organiser_id id w w' b h in
        let (k, m) = e.badges.first-some (by_badge_id id) w.db.badges old found in
        (
          IsHidden-of_count slug w' (
              rw (stored, e.badges.rows-update)
                (none_public slug unpublished old (badges_of e w) (λ x. (refl, refl)) (u.slugs slug)
                  m (ground (arith, new, own, text_eq_refl slug)))),
          committed,
        )

    -- If slugs are unique, deleting a kept badge that has a slug commits, and then its link finds
    -- no public badge, its organiser finds no badge by its identifier, and one attempt was made to
    -- delete its logo, if it had one.
    pub delete-Hidden :
        (old : Badge) (slug : Text)
        → IsUnique (badges_of e w)
        → e.badges.first (kept id) w.db.badges ≡ some old
        → old.share_slug ≡ some slug
        → delete_badge e organiser_id id w ≡ (ok tt, w')
        → IsHidden slug w'
          × (get_badge_by_id e organiser_id id w' ≡ (err badge_not_found, w'))
          × (w'.durable ≡ w'.db)
          × (w'.assets
              ≡ elim (full old.logo_public_id) [ none ↦ w.assets | some p ↦ deleted p ∷ w.assets ])
    unfolding get_badge_by_id
    delete-Hidden old slug u found own h =
        let (stored, committed, assets) = delete_effect organiser_id id w w' old found h in
        let (k, m) = e.badges.first-some (kept id) w.db.badges old found in
        let gone = first_none_of e.badges (kept id) w'.db.badges (
          rw (stored, e.badges.rows-update, kept_id id old k)
            (none_kept id w.clock (badges_of e w))) in
        (
          IsHidden-of_count slug w' (
              rw (stored, e.badges.rows-update)
                (none_public slug (removed w.clock) old (badges_of e w) (λ x. (refl, refl))
                  (u.slugs slug) m (ground (arith, own, text_eq_refl slug)))),
          ground (arith, gone),
          committed,
          assets,
        )

  -- Publishing, deleting, reading and giving a logo to a kept badge of another organiser are each
  -- refused as such, and change nothing.
  pub denied :
      (organiser_id id : ℕ) (w : World e) (b : Badge) (fails : Bool)
      → e.badges.first (kept id) w.db.badges ≡ some b
      → b.organiser_id ≢ organiser_id
      → (publish_badge e organiser_id id w ≡ (err not_badge_owner, w))
        × (delete_badge e organiser_id id w ≡ (err not_badge_owner, w))
        × (get_badge_by_id e organiser_id id w ≡ (err not_badge_owner, w))
        × (upload_badge_logo e fails id organiser_id w ≡ (err not_badge_owner, w))
  unfolding publish_badge delete_badge get_badge_by_id upload_badge_logo
  denied organiser_id id w b fails found ne = (
    ground (arith, found, ne),
    ground (arith, found, ne),
    ground (arith, found, ne),
    ground (arith, found, ne),
  )

  -- A share raises the sum of all share counts by the number of public badges with the slug, and is
  -- committed; the call raises exactly if there is none.
  pub increment_share :
      (slug : Text) (w : World e)
      → let (result, w') = increment_badge_share_count e slug w in
        let shown = countb (public_at slug) (badges_of e w) in
        (result ≡ (if shown == 0 then err public_badge_not_found else ok tt))
        × (shares (badges_of e w') ≡ shown + shares (badges_of e w))
        × (w'.durable ≡ w'.db)
  unfolding increment_badge_share_count
  increment_share slug w =
      let shown = countb (public_at slug) (badges_of e w) in
      (
        rw e.badges.count-rows (ground arith),
        rw e.badges.rows-update (shares_counted (public_at slug) (badges_of e w)),
        ground arith,
      )
