-- ===== src/Digest/Targets.antt =====
-- app/workers/digest_jobs.py: who is a target of a job.
use social_badge_api.Common.{
  ℕ, ◌≤◌, ◌≡◌, ◌∙◌, sym, ap, refl, inl, inr, Bool, true, false, not, ◌&&◌, ◌||◌, map, countb, ltb,
  ◌==◌, Option-cases, Bool-cases, if◌then◌else◌, countb-pos, arith,
}
use social_badge_api.Common.Sets.{
  is_in, minus, is_in-append, is_in-distinct, is_in-minus, is_in-map, countb-distinct,
  countb-outside, countb-not_in, countb-and-lt,
}
use social_badge_api.Platform.Table.{Table}
use social_badge_api.Content.State.{Env, World, Preference, NotificationType}
use social_badge_api.Notification.{prefs_of, toggle, is_muted}
use social_badge_api.Digest.{user_of, organiser_of, candidates, target_users}

module _ {Row : Type 0} (t : Table Row) where
  -- The keys of the rows that a query finds.
  is_in-select :
      (u : ℕ) (p : Row → Bool) (f : Row → ℕ) (s : t.State)
      → is_in u (map f (t.select p s)) ≡ ltb 0 (countb (λ r. p r && (f r == u)) (t.rows s))
  is_in-select u p f s =
      is_in-map u f (t.select p s) ∙ ap (ltb 0) (t.count-select p (λ r. f r == u) s)

module _ (e : Env) where
  -- The user has a row whose toggle is on, or has a badge and no row.
  abbrev pub wanted : (Preference → Bool) → World e → ℕ → Bool
  wanted is_on w u =
      let prefs = e.preferences.rows w.db.preferences in
      let owned = countb (λ b. true && (organiser_of b == u)) (e.badges.rows w.db.badges) in
      ltb 0 (countb (λ p. is_on p && prefs_of u p) prefs)
      || (ltb 0 owned && not (ltb 0 (countb (λ p. true && prefs_of u p) prefs)))

  candidates-wanted :
      (is_on : Preference → Bool) (w : World e) (u : ℕ)
      → is_in u (candidates e is_on w) ≡ wanted is_on w u
  candidates-wanted is_on w u =
      let opted_in = map user_of (e.preferences.select is_on w.db.preferences) in
      let owners = map organiser_of (e.badges.select (λ b. true) w.db.badges) in
      let with_prefs = map user_of (e.preferences.select (λ p. true) w.db.preferences) in
      let a = is_in-select e.preferences u is_on user_of w.db.preferences in
      let b = is_in-select e.badges u (λ b. true) organiser_of w.db.badges in
      let c = is_in-select e.preferences u (λ p. true) user_of w.db.preferences in
      is_in-append u opted_in (minus owners with_prefs)
      ∙ rw (is_in-minus u owners with_prefs) (rw (a, b, c) refl)

  pub is_target :
      (is_on : Preference → Bool) (w : World e) (u : ℕ)
      → is_in u (target_users e is_on w) ≡ wanted is_on w u
  unfolding target_users
  is_target is_on w u = is_in-distinct u (candidates e is_on w) ∙ candidates-wanted is_on w u

  -- Of the users that pass a test, one is a target once if it is wanted and passes, and else not at all.
  pub target_users-wanted :
      (is_on : Preference → Bool) (q : ℕ → Bool) (w : World e) (u : ℕ)
      → countb (λ x. q x && (x == u)) (target_users e is_on w)
        ≡ (if wanted is_on w u && q u then 1 else 0)
  unfolding target_users
  target_users-wanted is_on q w u =
      countb-distinct q u (candidates e is_on w)
      ∙ ap (λ b. if b && q u then 1 else 0) (candidates-wanted is_on w u)

  pub all_wanted :
      (is_on : Preference → Bool) (w : World e)
      → countb (λ u. not (wanted is_on w u)) (target_users e is_on w) ≡ 0
  unfolding target_users
  all_wanted is_on w =
      countb-outside (candidates e is_on w) (λ u. not (wanted is_on w u))
        (countb-not_in (candidates e is_on w) (wanted is_on w)
          (λ u m. sym (candidates-wanted is_on w u) ∙ m))

  -- Where a user has at most one row, a wanted user has not muted the notification.
  pub wanted-unmuted :
      (kind : NotificationType) (w : World e) (u : ℕ)
      → countb (prefs_of u) (e.preferences.rows w.db.preferences) ≤ 1
      → wanted (toggle kind) w u ≡ true
      → is_muted kind (e.preferences.first (prefs_of u) w.db.preferences) ≡ false
  wanted-unmuted kind w u one h =
      elim (Option-cases (e.preferences.first (prefs_of u) w.db.preferences)) [
        | inl gone ↦ rw gone refl
        | inr (p, found) ↦
            let (mine, m) = e.preferences.first-some (prefs_of u) w.db.preferences p found in
            let rows = e.preferences.rows w.db.preferences in
            elim (Bool-cases (toggle kind p)) [
              | inl on ↦ rw found (ground (arith, on))
              | inr off ↦
                  let few = countb-and-lt (prefs_of u) (toggle kind) p rows m mine off in
                  let some_row = countb-pos (prefs_of u) p rows m mine in
                  absurd (ground (arith, few, some_row, one, h))
            ]
      ]
