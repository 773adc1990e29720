-- ===== src/Badge/Edit/Access.antt =====
-- Who may open a badge: `access_type` and `access_code` always agree.
use social_badge_api.Common.{
  ℕ, ◌≡◌, ◌≤◌, countb, Member, All-intro, All-Member, unique-Member, ==_refl, inl, inr, ◌⊎◌, Bool,
  true, false, Option, none, some, List, map, Text, ◌==◌, All, All-map, Option-cases, Bool-cases,
  if◌then◌else◌, arith,
}
use social_badge_api.Content.State.{Env, World, Badge}
use social_badge_api.Badge.{kept, by_badge_id, get_badge_by_id}
use social_badge_api.Badge.Withdraw.{kept_id}
use social_badge_api.Badge.Publish.{badges_of}
use social_badge_api.Badge.Edit.{
  FieldUpdates, is_access_code, check_access, apply_fields, nulls_title, edit_badge,
}

-- A public badge has no code, and a private one has a code of 4 to 10 characters.
abbrev pub IsGuarded : Badge → Type 0
IsGuarded b =
    ((b.access_type ≡ 0) × (b.access_code ≡ none))
    ⊎ ((b.access_type ≡ 1) × (is_access_code b.access_code ≡ true))

-- Updates that are accepted for a badge leave it guarded.
pub check_access-IsGuarded :
    (u v : FieldUpdates) (b : Badge)
    → IsGuarded b
    → check_access u b ≡ some v
    → IsGuarded (apply_fields v b)
unfolding check_access
check_access-IsGuarded u v b g h = ground arith

IsGuarded-at :
    (id : ℕ) (v : FieldUpdates) (old : Badge) (u : FieldUpdates) (rows : List Badge)
    → check_access u old ≡ some v
    → countb (by_badge_id old.id) rows ≤ 1
    → Member old rows
    → All IsGuarded rows
    → All IsGuarded (map (λ b. if by_badge_id old.id b then apply_fields v b else b) rows)
IsGuarded-at id v old u rows h one m good =
    All-map (λ b. Member b rows) IsGuarded
      (λ b. if by_badge_id old.id b then apply_fields v b else b) rows each
      (All-intro (λ b. Member b rows) rows (λ b n. n))
  where
    each :
        (b : Badge)
        → Member b rows
        → IsGuarded (if by_badge_id old.id b then apply_fields v b else b)
    each b n = elim (Bool-cases (by_badge_id old.id b)) [
      | inl own ↦ rw own (
          rw (unique-Member (by_badge_id old.id) b old rows one n m own (==_refl old.id))
            (check_access-IsGuarded u v old (All-Member IsGuarded rows old good m) h))
      | inr other ↦ rw other (All-Member IsGuarded rows b good n)
    ]

module _ (e : Env) where
  pub edit_effect :
      (organiser_id id : ℕ) (u : FieldUpdates) (tags : Option (List Text)) (replace : Bool)
      (w : World e)
      → let (result, w') = edit_badge e organiser_id id u tags replace w in
        (w'.durable ≡ w.durable)
        ⊎ ((old : Badge) × (v : FieldUpdates) × (e.badges.first (kept id) w.db.badges ≡ some old)
            × (check_access u old ≡ some v)
            × (w'.durable.badges
                ≡ e.badges.update (by_badge_id old.id) (apply_fields v) w.db.badges))
  unfolding edit_badge get_badge_by_id
  edit_effect organiser_id id u tags replace w =
      elim (Option-cases (e.badges.first (kept id) w.db.badges)) [
        | inl gone ↦ inl (ground (arith, gone))
        | inr (old, found) ↦ elim (Option-cases (check_access u old)) [
          | inl bad ↦ inl (ground (arith, found, bad))
          | inr (v, good) ↦ elim (Bool-cases (old.organiser_id == organiser_id)) [
            | inr other ↦ inl (ground (arith, found, good, other))
            | inl own ↦ elim (Bool-cases (nulls_title v)) [
              | inl null ↦ inl (by_tags replace old v found good own null)
              | inr fine ↦ inr (old, v, found, good, written replace old v found good own fine)
            ]
          ]
        ]
      ]
    where
      by_tags :
          (r : Bool) (old : Badge) (v : FieldUpdates)
          → e.badges.first (kept id) w.db.badges ≡ some old
          → check_access u old ≡ some v
          → (old.organiser_id == organiser_id) ≡ true
          → nulls_title v ≡ true
          → (edit_badge e organiser_id id u tags r w).1.durable ≡ w.durable
      by_tags true old v found good own null = ground (arith, found, good, own, null)
      by_tags false old v found good own null = ground (arith, found, good, own, null)

      written :
          (r : Bool) (old : Badge) (v : FieldUpdates)
          → e.badges.first (kept id) w.db.badges ≡ some old
          → check_access u old ≡ some v
          → (old.organiser_id == organiser_id) ≡ true
          → nulls_title v ≡ false
          → (edit_badge e organiser_id id u tags r w).1.durable.badges
            ≡ e.badges.update (by_badge_id old.id) (apply_fields v) w.db.badges
      written true old v found good own fine = ground (arith, found, good, own, fine)
      written false old v found good own fine = ground (arith, found, good, own, fine)

  -- If the identifier is that of at most one badge, nothing is uncommitted, and every badge is
  -- public without a code or private with a code of 4 to 10 characters, then the committed badges
  -- are so after `edit_badge`, whatever was asked for and however it ended.
  pub edit-IsGuarded :
      (organiser_id id : ℕ) (u : FieldUpdates) (tags : Option (List Text)) (replace : Bool)
      (w : World e)
      → countb (by_badge_id id) (badges_of e w) ≤ 1
      → w.durable ≡ w.db
      → All IsGuarded (badges_of e w)
      → All IsGuarded
          (e.badges.rows (edit_badge e organiser_id id u tags replace w).1.durable.badges)
  edit-IsGuarded organiser_id id u tags replace w one clean good =
      elim (edit_effect organiser_id id u tags replace w) [
        | inl kept_all ↦ rw (kept_all, clean) good
        | inr (old, v, found, checked, stored) ↦
            let (k, m) = e.badges.first-some (kept id) w.db.badges old found in
            rw (stored, e.badges.rows-update)
              (IsGuarded-at id v old u (badges_of e w) checked (rw (kept_id id old k) one) m good)
      ]
