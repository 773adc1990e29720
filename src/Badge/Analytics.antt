-- ===== src/Badge/Analytics.antt =====
-- app/services/badge.py: `get_badge_analytics`.
use social_badge_api.Common.{
  ℕ, ◌≤◌, ◌≡◌, ◌∙◌, ap, refl, Bool, true, false, ◌&&◌, List, map, countb, countb-le-length, leb,
  ◌==◌, arith,
}
use social_badge_api.Common.Exec.{Result, ok, err}
use social_badge_api.Common.Order.{sort_by, IsOrdered, sort_by-IsOrdered, countb-sort_by}
use social_badge_api.Common.Groups.{
  tally, is_row, once, sum, sizes, tally-rows, sizes-tally, sizes-sort_by, countb-map, length-map,
}
use social_badge_api.Platform.Listing.{length-select}
use social_badge_api.Content.State.{Env, World, Content, ContentError, Badge}
use social_badge_api.Badge.Listing.{kept_of}

-- The five parts of the answer.
pub record Analytics : Type 0 where
  pub total : ℕ
  pub active : ℕ
  pub total_shares : ℕ
  pub total_creations : ℕ
  pub template_usage : List (ℕ × ℕ)

-- .order_by(func.count(Badge.id).desc())
abbrev pub most_first : ℕ × ℕ → ℕ × ℕ → Bool
most_first a b = leb b.1 a.1

abbrev pub uses : ℕ → Badge → Bool
uses template_id b = b.platform_template_id == template_id

abbrev template_of : Badge → ℕ
template_of b = b.platform_template_id

-- The call succeeds with an answer of which P holds, and changes nothing.
abbrev pub Answers :
    (e : Env) → Result ContentError Analytics × World e → World e → (Analytics → Type 0) → Type 0
Answers e (ok a, w') w P = P a × (w' ≡ w)
Answers e (err x, w') w P = ⊥

module _ (e : Env) where
  unfoldable pub get_badge_analytics : ℕ → Content e Analytics
  get_badge_analytics organiser_id w =
      let mine = e.badges.select (kept_of organiser_id) w.db.badges in
      (
        ok (record {
          total = e.badges.count (kept_of organiser_id) w.db.badges;
          active = countb (λ b. b.is_published) mine;
          total_shares = sum (map (λ b. b.share_count) mine);
          total_creations = sum (map (λ b. b.creation_count) mine);
          template_usage = sort_by most_first (tally (map template_of mine));
        }),
        w,
      )

  most_first_total : (a b : ℕ × ℕ) → most_first a b ≡ false → most_first b a ≡ true
  most_first_total (i, m) (j, n) h = ground arith

  most_first_trans :
      (a b c : ℕ × ℕ) → most_first a b ≡ true → most_first b c ≡ true → most_first a c ≡ true
  most_first_trans (i, l) (j, m) (k, n) h q = ground arith

  -- The analytics change nothing; they count the kept badges of the organiser and the published
  -- ones among them, which are no more; the uses of the templates add up to that total, stand with
  -- the most used first, and have one entry for each template that is used, with the number of its
  -- badges, and no other.
  pub get_badge_analytics_lem :
      (organiser_id : ℕ) (w : World e)
      → let rows = e.badges.rows w.db.badges in
        Answers e (get_badge_analytics organiser_id w) w (λ a.
          (a.total ≡ countb (kept_of organiser_id) rows)
          × (a.active ≡ countb (λ b. kept_of organiser_id b && b.is_published) rows)
          × (a.active ≤ a.total)
          × (sizes a.template_usage ≡ a.total)
          × IsOrdered most_first a.template_usage
          × ((t n : ℕ)
              → countb (is_row t n) a.template_usage
                ≡ once n (countb (λ b. kept_of organiser_id b && uses t b) rows)))
  unfolding get_badge_analytics
  get_badge_analytics_lem organiser_id w =
      let mine = e.badges.select (kept_of organiser_id) w.db.badges in
      let keys = map template_of mine in
      let total = e.badges.count-rows (kept_of organiser_id) w.db.badges in
      let size = length-select e.badges (kept_of organiser_id) w.db.badges in
      let sizes_total =
        sizes-sort_by most_first (tally keys)
        ∙ (sizes-tally keys ∙ (length-map template_of mine ∙ size)) in
      let active = countb-le-length (λ (b : Badge). b.is_published) mine in
      (
        (
          total,
          e.badges.count-select (kept_of organiser_id) (λ b. b.is_published) w.db.badges,
          omega (arith, active, size),
          sizes_total,
          sort_by-IsOrdered most_first most_first_total most_first_trans (tally keys),
          λ t n.
              countb-sort_by most_first (is_row t n) (tally keys)
              ∙ (tally-rows t n keys
                  ∙ ap (once n) (
                      countb-map (λ j. j == t) template_of mine
                      ∙ e.badges.count-select (kept_of organiser_id) (uses t) w.db.badges)),
        ),
        refl,
      )
