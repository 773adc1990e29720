-- ===== src/Digest/Daily.antt =====
-- app/workers/digest_jobs.py: what `send_daily_digests` sends.
use social_badge_api.Common.{
  ℕ, ◌+◌, ◌≤◌, ◌≡◌, ◌∙◌, ap, refl, inl, inr, Bool, true, false, not, ◌&&◌, Option, none, some, List,
  Text, countb, ◌==◌, Bool-cases, codes, arith,
}
use social_badge_api.Content.State.{
  Env, World, Extra, daily_digest, daily_data, badge_data, weekly_data,
}
use social_badge_api.Notification.{prefs_of, toggle}
use social_badge_api.Digest.{
  day, day_start, daily_body, target_users, counts_by_user, for_each, daily_step,
  send_daily_digests,
}
use social_badge_api.Digest.Targets.{wanted, all_wanted, wanted-unmuted}
use social_badge_api.Digest.Loop.{Holds, StepSends, for_each-Sends, send-Sends, idle-Sends}
use social_badge_api.Digest.Outcome.{Iterates, creations, busy, counts-creations, Delivers, finish}

-- The data has the number of the user's creations and the period.
abbrev pub is_daily : (ℕ → ℕ) → ℕ → ℕ → ℕ → Option Extra → Bool
is_daily counts from to v none = false
is_daily counts from to v (some (daily_data n a b)) = (n == counts v) && ((a == from) && (b == to))
is_daily counts from to v (some (badge_data n t)) = false
is_daily counts from to v (some (weekly_data n t l a b)) = false

is_daily_itself :
    (counts : ℕ → ℕ) (from to u : ℕ)
    → is_daily counts from to u (some (daily_data (counts u) from to)) ≡ true
is_daily_itself counts from to u = ground arith

module _ (e : Env) (decimal : ℕ → Text) (w : World e)
    (one : (u : ℕ) → countb (prefs_of u) (e.preferences.rows w.db.preferences) ≤ 1) where
  step_lem :
      (from to u : ℕ) (v : World e)
      → wanted e (toggle daily_digest) w u ≡ true
      → Holds e daily_digest (is_daily (creations e from to w) from to) from to w v
      → StepSends e daily_digest
          (is_daily (creations e from to w) from to)
          from
          to
          w
          (busy e from to w)
          (wanted e (toggle daily_digest) w)
          u
          v
          (daily_step e decimal from to
            (counts_by_user e from to (target_users e (toggle daily_digest) w) w)
            u
            v)
  unfolding daily_step
  step_lem from to u v h inv =
      let all = wanted e (toggle daily_digest) w in
      let fits = is_daily (creations e from to w) from to in
      let same = counts-creations e (toggle daily_digest) from to w u h in
      let loud = wanted-unmuted e daily_digest w u (one u) h in
      elim (Bool-cases (creations e from to w u == 0)) [
        | inl idle ↦ rw same (
            rw idle (
              idle-Sends e daily_digest fits from to w (busy e from to w) all u v (ap not idle)
                inv))
        | inr active ↦ rw same (
            rw active (
              send-Sends e daily_digest fits from to w (busy e from to w) all u
                (codes "Daily digest") (daily_body e decimal (creations e from to w u))
                (daily_data (creations e from to w u) from to) v refl refl
                (is_daily_itself (creations e from to w) from to u) (ap not active)
                (rw inv.same_preferences loud) inv))
      ]

  -- If each user has at most one row of preferences, nothing is uncommitted, and the set of targets
  -- is gone through in some order, each once, then `send_daily_digests` ends with all committed,
  -- the numbers of sent and skipped users add up to that of the targets, and as many were sent as
  -- targets had a badge creation that day; each user who is opted in, or owns a badge and has no
  -- preferences, and has a creation that day, gets one unread digest with the number of their
  -- creations and the period, and nobody else any.
  pub send_daily_digests_lem :
      (iterate : List ℕ → List ℕ)
      → Iterates iterate
      → w.durable ≡ w.db
      → let from = day_start w.clock in
        Delivers e daily_digest
          (is_daily (creations e from (from + day) w) from (from + day))
          from
          (from + day)
          w
          (send_daily_digests e decimal iterate w)
  unfolding send_daily_digests
  send_daily_digests_lem iterate fair clean =
      let from = day_start w.clock in
      let to = from + day in
      let targets = target_users e (toggle daily_digest) w in
      let fits = is_daily (creations e from to w) from to in
      finish e daily_digest fits from to w iterate fair
        (for_each e (daily_step e decimal from to (counts_by_user e from to targets w))
          (iterate targets) 0 0 w)
        (for_each-Sends e daily_digest fits from to w (busy e from to w)
          (wanted e (toggle daily_digest) w)
          (daily_step e decimal from to (counts_by_user e from to targets w)) (step_lem from to)
          (iterate targets) 0 0 w
          (fair (λ u. not (wanted e (toggle daily_digest) w u)) targets
            ∙ all_wanted e (toggle daily_digest) w)
          (record {
            clean = clean;
            same_badges = refl;
            same_preferences = refl;
            same_creations = λ u. refl;
          }))
