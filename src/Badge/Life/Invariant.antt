-- ===== src/Badge/Life/Invariant.antt =====
-- Every reachable table of badges is tidy.
use social_badge_api.Common.{
  ℕ, ◌≤◌, ◌<◌, ◌≡◌, refl, inl, inr, Bool, true, false, not, ◌&&◌, ◌||◌, Option, none, some, List,
  [], ◌∷◌, map, Text, countb, All, All-imp, All-intro, All-map, All-Member, Member, Bool-cases,
  if◌then◌else◌, ◌==◌, arith,
}
use social_badge_api.Content.State.{Env, World, Badge}
use social_badge_api.Content.Slug.{generate_share_slug}
use social_badge_api.Badge.{is_none, by_badge_id, full}
use social_badge_api.Badge.Publish.{IsUnique, badges_of, ids_map, slugs_map, slug_of}
use social_badge_api.Badge.Edit.Access.{IsGuarded}
use social_badge_api.Badge.Life.Effects.{IsUpdate}

-- A published badge has a time of publication and a slug, and is not deleted.
abbrev pub consistent : Badge → Bool
consistent b =
    not b.is_published
    || (not (is_none b.published_at) && (not (is_none (full b.share_slug)) && is_none b.deleted_at))

abbrev pub IsSane : Badge → Type 0
IsSane b = IsGuarded b × (consistent b ≡ true)

pub IsSane-map :
    (p : Badge → Bool) (f : Badge → Badge) (rows : List Badge)
    → ((b : Badge) → Member b rows → p b ≡ true → IsSane b → IsSane (f b))
    → All IsSane rows
    → All IsSane (map (λ b. if p b then f b else b) rows)
IsSane-map p f rows keeps good =
    All-map (λ b. Member b rows) IsSane (λ b. if p b then f b else b) rows each
      (All-intro (λ b. Member b rows) rows (λ b n. n))
  where
    each : (b : Badge) → Member b rows → IsSane (if p b then f b else b)
    each b n = elim (Bool-cases (p b)) [
      | inl own ↦ rw own (keeps b n own (All-Member IsSane rows b good n))
      | inr other ↦ rw other (All-Member IsSane rows b good n)
    ]

pub slug_full :
    (e : Env) (o : Option Text) (w : World e) → is_none (full (some (slug_of e (full o) w))) ≡ false
unfolding generate_share_slug
slug_full e o w = ground arith

module _ (e : Env) where
  -- The identifier was one of those drawn so far.
  abbrev pub IsDrawn : ℕ → Badge → Type 0
  IsDrawn n b = (d : ℕ) × (d < n) × (b.id ≡ e.uuid d)

  pub record IsTidy (w : World e) : Type 0 where
    pub unique : IsUnique (badges_of e w)
    pub sane : All IsSane (badges_of e w)
    pub drawn : All (IsDrawn w.draws) (badges_of e w)
    pub settled : w.durable ≡ w.db

  more_draws-IsDrawn :
      (n m : ℕ) (rows : List Badge) → n ≤ m → All (IsDrawn n) rows → All (IsDrawn m) rows
  more_draws-IsDrawn n m rows le =
      All-imp (IsDrawn n) (IsDrawn m) rows (λ b h. (h.0, omega (arith, h.1), h.2))

  pub kept-IsTidy :
      (w w' : World e)
      → IsTidy w
      → w.draws ≤ w'.draws
      → w'.durable ≡ w.durable
      → IsTidy (record w' { db = w'.durable })
  kept-IsTidy w w' h le same = record {
    unique = rw (same, h.settled) h.unique;
    sane = rw (same, h.settled) h.sane;
    drawn = rw (same, h.settled) (more_draws-IsDrawn w.draws w'.draws (badges_of e w) le h.drawn);
    settled = refl;
  }

  pub changed-IsTidy :
      (p : Badge → Bool) (f : Badge → Badge) (w w' : World e)
      → IsTidy w
      → w.draws ≤ w'.draws
      → ((b : Badge) → (f b).id ≡ b.id)
      → ((b : Badge) → (f b).share_slug ≡ b.share_slug)
      → ((b : Badge) → Member b (badges_of e w) → p b ≡ true → IsSane b → IsSane (f b))
      → w'.durable.badges ≡ e.badges.update p f w.db.badges
      → IsTidy (record w' { db = w'.durable })
  changed-IsTidy p f w w' h le ids slugs keeps stored =
      let rows = badges_of e w in
      let g : Badge → Badge = λ b. if p b then f b else b in
      record {
        unique =
            rw (stored, e.badges.rows-update)
              (record {
                ids = λ i.
                    omega (arith, h.unique.ids i, ids_map i g rows (λ b. ground (arith, ids b)));
                slugs = λ s.
                    omega
                      (arith, h.unique.slugs s, slugs_map s g rows (λ b. ground (arith, slugs b)));
              });
        sane = rw (stored, e.badges.rows-update) (IsSane-map p f rows keeps h.sane);
        drawn =
            rw (stored, e.badges.rows-update)
              (All-map (IsDrawn w.draws) (IsDrawn w'.draws) g rows
                (λ b d. (d.0, omega (arith, d.1), ground (arith, ids b, d.2))) h.drawn);
        settled = refl;
      }

  pub update-IsTidy :
      (p : Badge → Bool) (f : Badge → Badge) (w w' : World e)
      → IsTidy w
      → ((b : Badge) → (f b).id ≡ b.id)
      → ((b : Badge) → (f b).share_slug ≡ b.share_slug)
      → ((b : Badge) → IsSane b → IsSane (f b))
      → IsUpdate e p f w w'
      → IsTidy (record w' { db = w'.durable })
  update-IsTidy p f w w' h ids slugs keeps (le, inl same) = kept-IsTidy w w' h le same
  update-IsTidy p f w w' h ids slugs keeps (le, inr stored) =
      changed-IsTidy p f w w' h le ids slugs (λ b m own s. keeps b s) stored

  no_id :
      (n i : ℕ) (rows : List Badge)
      → ((a b : ℕ) → e.uuid a ≡ e.uuid b → a ≡ b)
      → All (IsDrawn n) rows
      → i ≡ e.uuid n
      → countb (by_badge_id i) rows ≡ 0
  no_id n i [] distinct h q = refl
  no_id n i (b ∷ rows) distinct ((d, lt, own), h) q =
      ground (arith, no_id n i rows distinct h q, distinct d n, own, q, lt)

  pub added-IsTidy :
      (b : Badge) (w w' : World e)
      → ((a c : ℕ) → e.uuid a ≡ e.uuid c → a ≡ c)
      → IsTidy w
      → w.draws < w'.draws
      → b.id ≡ e.uuid w.draws
      → b.share_slug ≡ none
      → IsSane b
      → w'.durable.badges ≡ e.badges.insert b w.db.badges
      → IsTidy (record w' { db = w'.durable })
  added-IsTidy b w w' distinct h lt own bare sane stored =
      let rows = badges_of e w in
      record {
        unique =
            rw (stored, e.badges.rows-insert)
              (record {
                ids = λ i. elim (Bool-cases (b.id == i)) [
                  | inl same ↦ ground (
                    arith,
                    same,
                    no_id w.draws i rows distinct h.drawn (ground (arith, same, own)),
                  )
                  | inr other ↦ ground (arith, other, h.unique.ids i)
                ];
                slugs = λ s. ground (arith, bare, h.unique.slugs s);
              });
        sane = rw (stored, e.badges.rows-insert) (sane, h.sane);
        drawn =
            rw (stored, e.badges.rows-insert)
              (
                (w.draws, lt, own),
                more_draws-IsDrawn w.draws w'.draws rows (omega (arith, lt)) h.drawn,
              );
        settled = refl;
      }
