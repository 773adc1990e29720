-- ===== src/Digest/Outcome.antt =====
-- app/workers/digest_jobs.py: what a job has done when it ends.
use social_badge_api.Common.{
  ℕ, ◌+◌, ◌≡◌, ◌∙◌, ap, refl, inl, inr, Bool, true, not, ◌&&◌, Option, List, [], ◌∷◌, length,
  countb, ◌==◌, if◌then◌else◌, Bool-cases, arith,
}
use social_badge_api.Common.Exec.{Result, ok, err}
use social_badge_api.Common.Sets.{is_in}
use social_badge_api.Content.State.{
  Env, World, ContentError, Notification, NotificationType, Extra, Preference, close,
}
use social_badge_api.Notification.{toggle}
use social_badge_api.Digest.{Totals, target_users, counts_by_user, created_for}
use social_badge_api.Digest.Targets.{wanted, target_users-wanted, is_target}
use social_badge_api.Digest.Loop.{sent_to, LoopSends}

countb-not : (p : ℕ → Bool) (xs : List ℕ) → countb p xs + countb (λ x. not (p x)) xs ≡ length xs
countb-not p [] = refl
countb-not p (x ∷ xs) = ground (arith, countb-not p xs)

countb_same :
    {A : Type 0} (p q : A → Bool) (xs : List A) → ((a : A) → p a ≡ q a) → countb p xs ≡ countb q xs
countb_same p q [] h = refl
countb_same p q (x ∷ xs) h = ground (arith, h x, countb_same p q xs h)

-- An order in which a set is gone through: every element, each as often.
abbrev pub Iterates : (List ℕ → List ℕ) → Type 0
Iterates iterate = (q : ℕ → Bool) (xs : List ℕ) → countb q (iterate xs) ≡ countb q xs

module _ (e : Env) where
  -- How many badges of the user were created from `from` on and before `to`.
  abbrev pub creations : ℕ → ℕ → World e → ℕ → ℕ
  creations from to w u = countb (created_for from to u) (e.notifications.rows w.db.notifications)

  abbrev pub busy : ℕ → ℕ → World e → ℕ → Bool
  busy from to w u = not (creations from to w u == 0)

  same_test :
      (from to u : ℕ) (targets : List ℕ) (n : Notification)
      → is_in u targets ≡ true
      → (created_for from to u n && is_in n.user_id targets) ≡ created_for from to u n
  same_test from to u targets n h = elim (Bool-cases (n.user_id == u)) [
    | inl same ↦ let one : n.user_id ≡ u = ground (arith, same) in rw one (ground (arith, h))
    | inr other ↦ ground (arith, other)
  ]

  -- The counts of the grouped query are those of each wanted user.
  pub counts-creations :
      (is_on : Preference → Bool) (from to : ℕ) (w : World e) (u : ℕ)
      → wanted e is_on w u ≡ true
      → counts_by_user e from to (target_users e is_on w) w u ≡ creations from to w u
  counts-creations is_on from to w u h =
      let targets = target_users e is_on w in
      let there = is_target e is_on w u ∙ h in
      e.notifications.count-rows _ w.db.notifications
      ∙ countb_same (λ n. created_for from to u n && is_in n.user_id targets)
          (created_for from to u) (e.notifications.rows w.db.notifications)
          (λ n. same_test from to u targets n there)

  module _ (kind : NotificationType) (fits : ℕ → Option Extra → Bool) (from to : ℕ)
      (w : World e) where
    -- The job ends with totals that add up; each wanted user with a creation has one fitting
    -- notification more, and no other user; nothing is left uncommitted.
    abbrev pub Delivers : Result ContentError Totals × World e → Type 0
    Delivers (ok t, w') =
        (t.sent + t.skipped ≡ t.total_targets)
        × (t.sent ≡ countb (busy from to w) (target_users e (toggle kind) w))
        × (w'.durable ≡ w'.db)
        × (w'.db.preferences ≡ w.db.preferences)
        × (w'.db.badges ≡ w.db.badges)
        × ((v : ℕ)
            → sent_to e kind fits v w'
              ≡ sent_to e kind fits v w
                + (if wanted e (toggle kind) w v && busy from to w v then 1 else 0))
    Delivers (err x, w') = ⊥

    module _ (iterate : List ℕ → List ℕ) (fair : Iterates iterate) where
      pub finish :
          (r : Result ContentError (ℕ × ℕ) × World e)
          → LoopSends e kind fits from to w
              (busy from to w)
              (wanted e (toggle kind) w)
              (iterate (target_users e (toggle kind) w))
              0
              0
              w
              r
          → Delivers (
              close e
                (λ (w0 : World e). elim r.0 [
                  | ok (sent, skipped) ↦ (
                    ok (record {
                      sent = sent;
                      skipped = skipped;
                      total_targets = length (target_users e (toggle kind) w);
                    }),
                    r.1,
                  )
                  | err x ↦ (err x, r.1)
                ])
                w)
      finish (ok (s, k), w') l =
          let targets = target_users e (toggle kind) w in
          let inv = l.2 in
          let sent = fair (busy from to w) targets in
          let skipped = fair (λ u. not (busy from to w u)) targets in
          (
            omega (arith, l.0, l.1, sent, skipped, countb-not (busy from to w) targets),
            omega (arith, l.0, sent),
            refl,
            rw inv.clean (inv.same_preferences),
            rw inv.clean (inv.same_badges),
            λ v. rw inv.clean (
                l.3 v
                ∙ ap (λ n. sent_to e kind fits v w + n)
                    (fair (λ u. busy from to w u && (u == v)) targets
                      ∙ target_users-wanted e (toggle kind) (busy from to w) w v)),
          )
      finish (err x, w') l = l
