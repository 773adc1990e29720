-- ===== src/Badge/Edit/Tags.antt =====
-- The hashtags that `edit_badge` replaces and `duplicate_badge` copies. A badge's hashtags are compared
-- by how often each occurs, since their rows have no order.
use social_badge_api.Common.{
  ℕ, suc, ◌+◌, ◌≡◌, ◌∙◌, countb, refl, inl, inr, Bool, true, false, not, ◌&&◌, Option, some, List,
  [], ◌∷◌, map, filterb, Text, text_eq, ◌==◌, ==_refl, Option-cases, Bool-cases, if◌then◌else◌,
  arith, ltb, length, ◌++◌, codes, none, length-append,
}
use social_badge_api.Common.Exec.{ok}
use social_badge_api.Content.State.{Env, World, Badge, BadgeHashtag}
use social_badge_api.Notification.{or_keep}
use social_badge_api.Badge.{kept, get_badge_by_id, increment_template_badge_count}
use social_badge_api.Badge.Withdraw.{kept_id}
use social_badge_api.Badge.Edit.{
  FieldUpdates, check_access, edit_badge, duplicate_badge, copy_of, tags_of, with_tags, nulls_title,
}

abbrev pub is_tag : ℕ → Text → BadgeHashtag → Bool
is_tag badge_id tag h = (h.badge_id == badge_id) && text_eq h.hashtag tag

abbrev pub occurrences : Text → List Text → ℕ
occurrences tag tags = countb (λ t. text_eq t tag) tags

own_gone :
    (id : ℕ) (tag : Text) (rows : List BadgeHashtag)
    → countb (is_tag id tag) (filterb (λ h. not (tags_of id h)) rows) ≡ 0
own_gone id tag [] = refl
own_gone id tag (h ∷ rows) = ground (arith, own_gone id tag rows)

others_stay :
    (id other : ℕ) (tag : Text) (rows : List BadgeHashtag)
    → (id == other) ≡ false
    → countb (is_tag other tag) (filterb (λ h. not (tags_of id h)) rows)
      ≡ countb (is_tag other tag) rows
others_stay id other tag [] ne = refl
others_stay id other tag (h ∷ rows) ne = ground (arith, others_stay id other tag rows ne)

occurrences-map :
    (tag : Text) (rows : List BadgeHashtag)
    → occurrences tag (map (λ h. h.hashtag) rows) ≡ countb (λ h. text_eq h.hashtag tag) rows
occurrences-map tag [] = refl
occurrences-map tag (h ∷ rows) = ground (arith, occurrences-map tag rows)

module _ (e : Env) where
  -- How often the badge has the tag.
  abbrev pub tag_count : ℕ → Text → World e → ℕ
  tag_count badge_id tag w = countb (is_tag badge_id tag) (e.hashtags.rows w.db.hashtags)

  with_tags-count :
      (badge_id id d : ℕ) (tag : Text) (tags : List Text) (s : e.hashtags.State)
      → countb (is_tag id tag) (e.hashtags.rows (with_tags e badge_id d tags s))
        ≡ (if badge_id == id then occurrences tag tags else 0)
          + countb (is_tag id tag) (e.hashtags.rows s)
  with_tags-count badge_id id d tag [] s = ground arith
  with_tags-count badge_id id d tag (t ∷ tags) s =
      let row : BadgeHashtag = record { id = e.uuid d; badge_id = badge_id; hashtag = t } in
      with_tags-count badge_id id (suc d) tag tags (e.hashtags.insert row s)
      ∙ rw e.hashtags.rows-insert (ground arith)

  replaced :
      (organiser_id id : ℕ) (u : FieldUpdates) (tags : Option (List Text)) (w w' : World e)
      (b : Badge)
      → edit_badge e organiser_id id u tags true w ≡ (ok b, w')
      → (w'.db.hashtags
          ≡ with_tags e id w.draws (or_keep tags []) (e.hashtags.delete (tags_of id) w.db.hashtags))
        × (w'.durable ≡ w'.db)
  unfolding edit_badge get_badge_by_id
  replaced organiser_id id u tags w w' b h =
      elim (Option-cases (e.badges.first (kept id) w.db.badges)) [
        | inl gone ↦ absurd (ground (arith, gone))
        | inr (old, found) ↦
            let own = (e.badges.first-some (kept id) w.db.badges old found).0 in
            elim (Option-cases (check_access u old)) [
              | inl bad ↦ absurd (ground (arith, found, bad))
              | inr (v, good) ↦ elim (Bool-cases (nulls_title v)) [
                | inl null ↦ absurd (ground (arith, found, good, null))
                | inr fine ↦
                    (ground (arith, found, good, fine, own), ground (arith, found, good, fine))
              ]
            ]
      ]

  -- An edit that replaces the hashtags and succeeds leaves the badge with exactly the new ones,
  -- each as often as it is listed, leaves every other badge's as they were, and is committed.
  pub edit-Tagged :
      (organiser_id id other : ℕ) (u : FieldUpdates) (tags : Option (List Text)) (tag : Text)
      (w w' : World e) (b : Badge)
      → (id == other) ≡ false
      → edit_badge e organiser_id id u tags true w ≡ (ok b, w')
      → (tag_count id tag w' ≡ occurrences tag (or_keep tags []))
        × (tag_count other tag w' ≡ tag_count other tag w)
        × (w'.durable ≡ w'.db)
  edit-Tagged organiser_id id other u tags tag w w' b ne h =
      let (stored, committed) = replaced organiser_id id u tags w w' b h in
      let left = e.hashtags.delete (tags_of id) w.db.hashtags in
      let rows = e.hashtags.rows w.db.hashtags in
      (
        rw stored (
            with_tags-count id id w.draws tag (or_keep tags []) left
            ∙ rw e.hashtags.rows-delete (ground (arith, own_gone id tag rows, ==_refl id))),
        rw stored (
            with_tags-count id other w.draws tag (or_keep tags []) left
            ∙ rw e.hashtags.rows-delete (ground (arith, others_stay id other tag rows ne, ne))),
        committed,
      )

  -- Duplicating a kept badge of the caller, where the drawn identifier is not that of the original,
  -- no hashtag row with the tag refers to it, and the title fits its column with ` (Copy)`,
  -- succeeds and commits: the copy has the title with ` (Copy)` and the texts, template and access
  -- of the original, is unpublished, without slug and logo and with its counters at zero, it has
  -- each hashtag as often as the original, and the original keeps its own.
  pub duplicate-Copied :
      (organiser_id id : ℕ) (tag : Text) (w : World e) (old : Badge)
      → e.badges.first (kept id) w.db.badges ≡ some old
      → old.organiser_id ≡ organiser_id
      → (id == e.uuid w.draws) ≡ false
      → tag_count (e.uuid w.draws) tag w ≡ 0
      → ltb 255 (length old.title + 7) ≡ false
      → let copy : Badge = record {
        id = e.uuid w.draws;
        organiser_id = organiser_id;
        platform_template_id = old.platform_template_id;
        title = old.title ++ codes " (Copy)";
        canvas_data = old.canvas_data;
        default_caption = old.default_caption;
        destination_link = old.destination_link;
        thumbnail_url = old.thumbnail_url;
        logo_url = none;
        logo_public_id = none;
        access_type = old.access_type;
        access_code = old.access_code;
        is_published = false;
        published_at = none;
        share_slug = none;
        share_count = 0;
        creation_count = 0;
        deleted_at = none;
      } in
        let (result, w') = duplicate_badge e organiser_id id w in
        (result ≡ ok copy)
        × (e.badges.rows w'.durable.badges ≡ copy ∷ e.badges.rows w.db.badges)
        × (tag_count copy.id tag w' ≡ tag_count id tag w)
        × (tag_count id tag w' ≡ tag_count id tag w)
        × (w'.durable ≡ w'.db)
  unfolding duplicate_badge get_badge_by_id increment_template_badge_count
  duplicate-Copied organiser_id id tag w old found own fresh no_tags short =
      let copy_id = e.uuid w.draws in
      let tags =
        map (λ (h : BadgeHashtag). h.hashtag) (e.hashtags.select (tags_of old.id) w.db.hashtags) in
      let copy = copy_of old organiser_id copy_id in
      let fits : ltb 255 (length (old.title ++ codes " (Copy)")) ≡ false =
        rw (length-append old.title (codes " (Copy)")) short in
      let after = (duplicate_badge e organiser_id id w).1 in
      let badges : after.durable.badges ≡ e.badges.insert copy w.db.badges =
        ground (arith, found, own, fits) in
      let stored : after.db.hashtags ≡ with_tags e copy_id (suc w.draws) tags w.db.hashtags =
        ground (arith, found, own, fits) in
      let same : old.id ≡ id =
        kept_id id old (e.badges.first-some (kept id) w.db.badges old found).0 in
      let copied : occurrences tag tags ≡ tag_count id tag w =
        occurrences-map tag _
        ∙ (e.hashtags.count-select (tags_of old.id) (λ h. text_eq h.hashtag tag) w.db.hashtags
            ∙ rw same refl) in
      (
        ground (arith, found, own, fits),
        rw badges (e.badges.rows-insert copy w.db.badges),
        rw stored (
            with_tags-count copy_id copy_id (suc w.draws) tag tags w.db.hashtags
            ∙ ground (arith, copied, no_tags, ==_refl copy_id)),
        rw stored (
            with_tags-count copy_id id (suc w.draws) tag tags w.db.hashtags
            ∙ ground (arith, fresh)),
        ground (arith, found, own, fits),
      )
