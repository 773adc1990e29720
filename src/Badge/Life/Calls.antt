-- ===== src/Badge/Life/Calls.antt =====
-- After any sequence of calls the table of badges is tidy.
use social_badge_api.Common.{
  ℕ, ◌+◌, ◌≡◌, refl, inl, inr, Bool, true, false, Option, some, List, Text, All-map, All-Member,
  unique-Member, if◌then◌else◌, ==_refl, arith,
}
use social_badge_api.Common.Exec.{Result, ok, err}
use social_badge_api.Content.State.{Env, World, Badge, ContentError, close}
use social_badge_api.Badge.{
  is_none, kept, by_badge_id, full, published_as, publish_badge, create_badge, public_at,
  unpublished, removed, upload_badge_logo, unpublish_badge, delete_badge,
  increment_badge_share_count, increment_badge_creation_count,
}
use social_badge_api.Badge.Publish.{badges_of, publish-Published, publish-IsUnique}
use social_badge_api.Badge.Edit.{FieldUpdates, apply_fields, edit_badge, copy_of, duplicate_badge}
use social_badge_api.Badge.Edit.Access.{IsGuarded, edit_effect, check_access-IsGuarded}
use social_badge_api.Badge.Life.{
  Step, Reach, create, publish, unpublish, remove, edit, duplicate, logo, share, make, wait, here,
  next,
}
use social_badge_api.Badge.Life.Effects.{
  share_effect, make_effect, unpublish_step, remove_step, logo_step,
}
use social_badge_api.Badge.Life.Additions.{
  create_step, duplicate_step, edit_draws, publish_refused, publish_draws,
}
use social_badge_api.Badge.Life.Invariant.{
  IsSane, IsDrawn, IsTidy, IsSane-map, slug_full, kept-IsTidy, changed-IsTidy, update-IsTidy,
  added-IsTidy,
}

apply_fields-IsSane :
    (u v : FieldUpdates) (b : Badge)
    → IsSane b
    → IsGuarded (apply_fields v b)
    → IsSane (apply_fields v b)
apply_fields-IsSane u v b s g = (g, s.1)

module _ (e : Env) (w : World e) (h : IsTidy e w) where
  edit-IsTidy :
      (organiser_id id : ℕ) (u : FieldUpdates) (tags : Option (List Text)) (replace : Bool)
      → IsTidy e (close e (edit_badge e organiser_id id u tags replace) w).1
  edit-IsTidy organiser_id id u tags replace =
      let w' = (edit_badge e organiser_id id u tags replace w).1 in
      let le = edit_draws e organiser_id id u tags replace w in
      elim (edit_effect e organiser_id id u tags replace w) [
        | inl same ↦ kept-IsTidy e w w' h le same
        | inr (old, v, found, checked, stored) ↦
            let (k, m) = e.badges.first-some (kept id) w.db.badges old found in
            changed-IsTidy e (by_badge_id old.id) (apply_fields v) w w' h le (λ b. refl) (λ b. refl)
              (λ b n own s.
                let same : b ≡ old =
                  unique-Member (by_badge_id old.id) b old (badges_of e w) (h.unique.ids old.id) n m
                    own (==_refl old.id) in
                (check_access-IsGuarded u v b s.0 (rw same checked), s.1))
              stored
      ]

  publish-IsTidy : (organiser_id id : ℕ) → IsTidy e (close e (publish_badge e organiser_id id) w).1
  publish-IsTidy organiser_id id = by_result (publish_badge e organiser_id id w) refl
    where
      by_result :
          (out : Result ContentError Badge × World e)
          → publish_badge e organiser_id id w ≡ out
          → IsTidy e (close e (publish_badge e organiser_id id) w).1
      by_result (err x, w') r =
          let (le, same) = publish_refused e organiser_id id w w' x r in
          rw r (kept-IsTidy e w w' h le same)
      by_result (ok b, w') r =
          let d = publish-Published e organiser_id id w w' b r in
          let (k, m) = e.badges.first-some (kept id) w.db.badges d.old d.found in
          let le = publish_draws e organiser_id id w w' b r in
          let p = by_badge_id d.old.id in
          let f = published_as w.clock d.slug in
          rw r (record {
            unique = rw d.committed (publish-IsUnique e organiser_id id w w' b h.unique r);
            sane =
                rw (d.committed, d.stored, e.badges.rows-update)
                  (IsSane-map p f (badges_of e w)
                    (λ x n own s.
                      let same : x ≡ d.old =
                        unique-Member p x d.old (badges_of e w) (h.unique.ids d.old.id) n m own
                          (==_refl d.old.id) in
                      let named : is_none (full (some d.slug)) ≡ false =
                        rw d.chosen (slug_full e d.old.share_slug w) in
                      let alive : is_none x.deleted_at ≡ true = rw same (ground (arith, k)) in
                      (s.0, ground (arith, named, alive)))
                    h.sane);
            drawn =
                rw (d.committed, d.stored, e.badges.rows-update)
                  (All-map (IsDrawn e w.draws) (IsDrawn e w'.draws) (λ x. if p x then f x else x)
                    (badges_of e w) (λ x q. (q.0, omega (arith, q.1), ground (arith, q.2)))
                    h.drawn);
            settled = refl;
          })

  logo-IsTidy :
      (fails : Bool) (organiser_id id : ℕ)
      → IsTidy e (close e (upload_badge_logo e fails id organiser_id) w).1
  logo-IsTidy fails organiser_id id =
      let w' = (upload_badge_logo e fails id organiser_id w).1 in
      elim (logo_step e fails organiser_id id w).1 [
        | inl same ↦ kept-IsTidy e w w' h (logo_step e fails organiser_id id w).0 same
        | inr (url, public_id, stored) ↦
            changed-IsTidy e (by_badge_id id)
              (λ x. record x { logo_url = some url; logo_public_id = some public_id }) w w' h
              (logo_step e fails organiser_id id w).0 (λ b. refl) (λ b. refl) (λ b m own s. s)
              stored
      ]

  module _ (distinct : (a b : ℕ) → e.uuid a ≡ e.uuid b → a ≡ b) where
    create-IsTidy :
        (organiser_id template_id : ℕ)
        → IsTidy e (close e (create_badge e organiser_id template_id) w).1
    create-IsTidy organiser_id template_id =
        let w' = (create_badge e organiser_id template_id w).1 in
        elim (create_step e organiser_id template_id w) [
          | inl (draws, same) ↦ kept-IsTidy e w w' h (omega (arith, draws)) same
          | inr (b, draft, own, lt, kind, code, stored) ↦
              added-IsTidy e b w w' distinct h lt own draft.1
                (inl (kind, code), ground (arith, draft)) stored
        ]

    duplicate-IsTidy :
        (organiser_id id : ℕ) → IsTidy e (close e (duplicate_badge e organiser_id id) w).1
    duplicate-IsTidy organiser_id id =
        let w' = (duplicate_badge e organiser_id id w).1 in
        elim (duplicate_step e organiser_id id w) [
          | inl (draws, same) ↦ kept-IsTidy e w w' h draws same
          | inr (old, found, lt, stored) ↦
              let m = (e.badges.first-some (kept id) w.db.badges old found).1 in
              let s = All-Member IsSane (badges_of e w) old h.sane m in
              added-IsTidy e (copy_of old organiser_id (e.uuid w.draws)) w w' distinct h lt refl
                refl (s.0, refl) stored
        ]

module _ (e : Env) (distinct : (a b : ℕ) → e.uuid a ≡ e.uuid b → a ≡ b) where
  Step-IsTidy : {v w : World e} → Step e v w → IsTidy e v → IsTidy e w
  Step-IsTidy {v} (create o t) h = create-IsTidy e v h distinct o t
  Step-IsTidy {v} (publish o i) h = publish-IsTidy e v h o i
  Step-IsTidy {v} (unpublish o i) h =
      update-IsTidy e (by_badge_id i) unpublished v (unpublish_badge e o i v).1 h (λ b. refl)
        (λ b. refl) (λ b s. (s.0, refl)) (unpublish_step e o i v)
  Step-IsTidy {v} (remove o i) h =
      update-IsTidy e (by_badge_id i) (removed v.clock) v (delete_badge e o i v).1 h (λ b. refl)
        (λ b. refl) (λ b s. (s.0, refl)) (remove_step e o i v)
  Step-IsTidy {v} (edit o i u tags replace) h = edit-IsTidy e v h o i u tags replace
  Step-IsTidy {v} (duplicate o i) h = duplicate-IsTidy e v h distinct o i
  Step-IsTidy {v} (logo fails o i) h = logo-IsTidy e v h fails o i
  Step-IsTidy {v} (share slug) h =
      update-IsTidy e (public_at slug) (λ b. record b { share_count = b.share_count + 1 }) v
        (increment_badge_share_count e slug v).1 h (λ b. refl) (λ b. refl) (λ b s. s)
        (share_effect e slug v)
  Step-IsTidy {v} (make slug) h =
      update-IsTidy e (public_at slug) (λ b. record b { creation_count = b.creation_count + 1 }) v
        (increment_badge_creation_count e slug v).1 h (λ b. refl) (λ b. refl) (λ b s. s)
        (make_effect e slug v)
  Step-IsTidy {v} (wait later le) h = record {
    unique = h.unique;
    sane = h.sane;
    drawn = h.drawn;
    settled = h.settled;
  }

  -- If identifiers of different draws differ, then after any sequence of the calls that create,
  -- publish, unpublish, delete, edit, duplicate, count or give a logo to badges, and of waits, each
  -- call in its own request, from a tidy state, the state is tidy: identifiers and share slugs are
  -- unique, a published badge has a time, a nonempty slug and no deletion, a public badge has no
  -- access code and a private one has one of 4 to 10 characters, each identifier was drawn before,
  -- and nothing is left uncommitted.
  pub Reach-IsTidy : {v w : World e} → IsTidy e v → Reach e v w → IsTidy e w
  Reach-IsTidy h here = h
  Reach-IsTidy h (next r s) = Step-IsTidy s (Reach-IsTidy h r)
