-- ===== src/Badge/Publish.antt =====
-- `publish_badge`, and what the public sees of a badge.
use social_badge_api.Common.{
  ℕ, ◌+◌, ◌≤◌, ◌≡◌, sym, refl, inl, inr, false, not, ◌&&◌, Option, none, some, List, [], ◌∷◌, map,
  Text, text_eq, text_eq_iff, text_eq_refl, countb, Member, Member-map, Option-cases, Bool-cases,
  if◌then◌else◌, ==_refl, arith,
}
use mathlib.Core.Path.{subst}
use social_badge_api.Common.Exec.{ok}
use social_badge_api.Platform.Table.{first_is}
use social_badge_api.Content.State.{Env, World, Badge}
use social_badge_api.Content.Slug.{generate_share_slug, slug_length}
use social_badge_api.Badge.{
  kept, by_badge_id, has_slug, public_at, published_as, full, slug_for, commit_unique,
  get_badge_by_id, publish_badge, get_public_badge_by_slug,
}

-- No two badges share an identifier or a slug: the constraints of the table.
pub record IsUnique (rows : List Badge) : Type 0 where
  pub ids : (id : ℕ) → countb (by_badge_id id) rows ≤ 1
  pub slugs : (slug : Text) → countb (has_slug slug) rows ≤ 1

-- Changing rows one by one without their identifiers keeps these unique.
pub ids_map :
    (id : ℕ) (g : Badge → Badge) (rows : List Badge)
    → ((b : Badge) → (g b).id ≡ b.id)
    → countb (by_badge_id id) (map g rows) ≡ countb (by_badge_id id) rows
ids_map id g [] same = refl
ids_map id g (b ∷ rows) same = ground (arith, same b, ids_map id g rows same)

-- Nor do changes that keep the slugs repeat one.
pub slugs_map :
    (slug : Text) (g : Badge → Badge) (rows : List Badge)
    → ((b : Badge) → (g b).share_slug ≡ b.share_slug)
    → countb (has_slug slug) (map g rows) ≡ countb (has_slug slug) rows
slugs_map slug g [] same = refl
slugs_map slug g (b ∷ rows) same = ground (arith, same b, slugs_map slug g rows same)

slug_split :
    (id : ℕ) (slug : Text) (rows : List Badge)
    → countb (has_slug slug) rows
      ≤ countb (λ b. has_slug slug b && not (by_badge_id id b)) rows + countb (by_badge_id id) rows
slug_split id slug [] = omega arith
slug_split id slug (b ∷ rows) = ground (arith, slug_split id slug rows)

other_slug :
    (id now : ℕ) (slug s : Text) (rows : List Badge)
    → text_eq slug s ≡ false
    → countb (has_slug s) (map (λ b. if by_badge_id id b then published_as now slug b else b) rows)
      ≤ countb (has_slug s) rows
other_slug id now slug s [] ne = omega arith
other_slug id now slug s (b ∷ rows) ne = ground (arith, other_slug id now slug s rows ne)

public_le :
    (slug : Text) (rows : List Badge) → countb (public_at slug) rows ≤ countb (has_slug slug) rows
public_le slug [] = omega arith
public_le slug (b ∷ rows) = ground (arith, public_le slug rows)

module _ (e : Env) where
  abbrev pub badges_of : World e → List Badge
  badges_of w = e.badges.rows w.db.badges

  -- The slug that a badge is published under.
  abbrev pub slug_of : Option Text → World e → Text
  slug_of none w = generate_share_slug e.randbelow w.draws slug_length
  slug_of (some slug) w = slug

  -- What a publication that succeeds does.
  pub record Published (organiser_id id : ℕ) (w w' : World e) (b : Badge) : Type 0 where
    pub old : Badge
    pub slug : Text
    pub chosen : slug ≡ slug_of (full old.share_slug) w
    pub found : e.badges.first (kept id) w.db.badges ≡ some old
    pub owner : old.organiser_id ≡ organiser_id
    pub hidden : old.is_published ≡ false
    pub new : b ≡ published_as w.clock slug old
    pub stored :
        w'.db.badges ≡ e.badges.update (by_badge_id old.id) (published_as w.clock slug) w.db.badges
    pub alone : e.badges.count (λ x. has_slug slug x && not (by_badge_id old.id x)) w'.db.badges ≡ 0
    pub committed : w'.durable ≡ w'.db

  pub publish-Published :
      (organiser_id id : ℕ) (w w' : World e) (b : Badge)
      → publish_badge e organiser_id id w ≡ (ok b, w')
      → Published organiser_id id w w' b
  unfolding publish_badge get_badge_by_id slug_for commit_unique
  publish-Published organiser_id id w w' b h =
      elim (Option-cases (e.badges.first (kept id) w.db.badges)) [
        | inl gone ↦ absurd (ground (arith, gone))
        | inr (old, found) ↦ record {
          old = old;
          slug = slug_of (full old.share_slug) w;
          chosen = refl;
          found = found;
          owner = ground (arith, found);
          hidden = ground (arith, found);
          new = ground (arith, found);
          stored = ground (arith, found);
          alone = ground (arith, found);
          committed = ground (arith, found);
        }
      ]

  module _ (organiser_id id : ℕ) (w w' : World e) (b : Badge) where
    -- A publication that succeeds keeps the identifiers and the share slugs of badges unique, if
    -- they were, whatever slug was drawn.
    pub publish-IsUnique :
        IsUnique (badges_of w)
        → publish_badge e organiser_id id w ≡ (ok b, w')
        → IsUnique (badges_of w')
    publish-IsUnique u h =
        let d = publish-Published organiser_id id w w' b h in
        let g : Badge → Badge =
          λ x. if by_badge_id d.old.id x then published_as w.clock d.slug x else x in
        let new = rw (e.badges.count-rows, d.stored, e.badges.rows-update) at d.alone in
        rw (d.stored, e.badges.rows-update)
          (record {
            ids = λ i. omega (arith, u.ids i, ids_map i g (badges_of w) (λ x. ground arith));
            slugs = λ s. elim (Bool-cases (text_eq d.slug s)) [
              | inl own ↦ rw (sym ((text_eq_iff d.slug s).0 own)) (
                  omega (
                    arith,
                    new,
                    slug_split d.old.id d.slug (map g (badges_of w)),
                    ids_map d.old.id g (badges_of w) (λ x. ground arith),
                    u.ids d.old.id,
                  ))
              | inr other ↦
                  omega (arith, u.slugs s, other_slug d.old.id w.clock d.slug s (badges_of w) other)
            ];
          })

    -- If identifiers and slugs are unique, a badge that was published has a slug, under which the
    -- public lookup finds that badge; it is the caller's, and the publication is committed.
    pub publish-Public :
        IsUnique (badges_of w)
        → publish_badge e organiser_id id w ≡ (ok b, w')
        → (slug : Text) × (b.share_slug ≡ some slug)
          × (get_public_badge_by_slug e slug w' ≡ (ok b, w'))
          × (b.organiser_id ≡ organiser_id)
          × (w'.durable ≡ w'.db)
    unfolding get_public_badge_by_slug
    publish-Public u h =
        let d = publish-Published organiser_id id w w' b h in
        let (k, m) = e.badges.first-some (kept id) w.db.badges d.old d.found in
        let g : Badge → Badge =
          λ x. if by_badge_id d.old.id x then published_as w.clock d.slug x else x in
        let is_new : g d.old ≡ b = ground (arith, d.new, ==_refl d.old.id) in
        let stays : Member b (badges_of w') =
          rw (d.stored, e.badges.rows-update)
            (subst (λ x. Member x (map g (badges_of w))) is_new
              (Member-map g d.old (badges_of w) m)) in
        let found =
          first_is e.badges (public_at d.slug) w'.db.badges b
            (omega (arith, public_le d.slug (badges_of w'), (publish-IsUnique u h).slugs d.slug))
            stays (ground (arith, d.new, text_eq_refl d.slug, k)) in
        (
          d.slug,
          ground (arith, d.new),
          ground (arith, found),
          ground (arith, d.new, d.owner),
          d.committed,
        )
