-- ===== src/Digest/Loop.antt =====
-- app/workers/digest_jobs.py: the loop over the targets, and the notification that a step sends.
use social_badge_api.Common.{
  ℕ, suc, ◌+◌, ◌≡◌, refl, sym, Bool, true, false, not, ◌&&◌, Option, some, List, [], ◌∷◌, Text,
  countb, ◌==◌, if◌then◌else◌, arith,
}
use mathlib.Core.Path.{subst}
use social_badge_api.Common.Exec.{Result, ok, err, ◌>>=◌}
use social_badge_api.Content.State.{
  Env, World, Content, ContentError, Notification, NotificationType, badge_creation, daily_digest,
  weekly_report, Extra,
}
use social_badge_api.Notification.{prefs_of, is_muted, create_notification}
use social_badge_api.Digest.{is_creation, created_for, settle, for_each}

abbrev pub same_kind : NotificationType → NotificationType → Bool
same_kind badge_creation badge_creation = true
same_kind daily_digest daily_digest = true
same_kind weekly_report weekly_report = true
same_kind a b = false

-- An unread notification of a kind for a user, with data that fits.
abbrev pub is_sent : NotificationType → (ℕ → Option Extra → Bool) → ℕ → Notification → Bool
is_sent kind fits v n =
    same_kind kind n.kind && ((n.user_id == v) && (not n.is_read && fits v n.extra_data))

module _ (e : Env) where
  -- The state after a notification was added and committed.
  abbrev added : Notification → World e → World e
  added n w =
      let db' = record w.db { notifications = e.notifications.insert n w.db.notifications } in
      record w { db = db'; durable = db'; draws = suc w.draws }

  sending_lem :
      (u : ℕ) (kind : NotificationType) (title body : Text) (extra : Extra) (w : World e)
      → is_muted kind (e.preferences.first (prefs_of u) w.db.preferences) ≡ false
      → (create_notification e u kind title body (some extra) >>= settle e) w ≡ (
        ok true,
        added
            (record {
              id = e.uuid w.draws;
              user_id = u;
              kind = kind;
              title = title;
              body = body;
              is_read = false;
              extra_data = some extra;
              created_at = w.clock;
            })
            w,
      )
  unfolding create_notification
  sending_lem u kind title body extra w loud = ground (arith, loud)

module _ (e : Env) (kind : NotificationType) (fits : ℕ → Option Extra → Bool) where
  -- How many notifications of the kind a user has.
  abbrev pub sent_to : ℕ → World e → ℕ
  sent_to v w = countb (is_sent kind fits v) (e.notifications.rows w.db.notifications)

  module _ (from to : ℕ) (w0 : World e) where
    -- What holds between two users: everything is committed, and no preference and no creation changed.
    pub record Holds (w : World e) : Type 0 where
      pub clean : w.durable ≡ w.db
      pub same_badges : w.db.badges ≡ w0.db.badges
      pub same_preferences : w.db.preferences ≡ w0.db.preferences
      pub same_creations :
          (u : ℕ)
          → countb (created_for from to u) (e.notifications.rows w.db.notifications)
            ≡ countb (created_for from to u) (e.notifications.rows w0.db.notifications)

    module _ (busy wanted : ℕ → Bool) where
      -- The step sends one notification to its user, if it is busy, and none to others.
      abbrev pub StepSends : ℕ → World e → Result ContentError Bool × World e → Type 0
      StepSends u w (ok b, w') =
          (b ≡ busy u)
          × Holds w'
          × ((v : ℕ) → sent_to v w' ≡ sent_to v w + (if busy u && (u == v) then 1 else 0))
      StepSends u w (err x, w') = ⊥

      abbrev pub LoopSends :
          List ℕ → ℕ → ℕ → World e → Result ContentError (ℕ × ℕ) × World e → Type 0
      LoopSends us sent skipped w (ok (s, k), w') =
          (s ≡ sent + countb busy us)
          × (k ≡ skipped + countb (λ u. not (busy u)) us)
          × Holds w'
          × ((v : ℕ) → sent_to v w' ≡ sent_to v w + countb (λ u. busy u && (u == v)) us)
      LoopSends us sent skipped w (err x, w') = ⊥

      module _ (step : ℕ → Content e Bool)
          (good : (u : ℕ) (w : World e)
            → wanted u ≡ true
            → Holds w
            → StepSends u w (step u w)) where
        prepend :
            (u : ℕ) (us : List ℕ) (sent skipped : ℕ) (b : Bool) (w w1 : World e)
            (r : Result ContentError (ℕ × ℕ) × World e)
            → StepSends u w (ok b, w1)
            → LoopSends us (if b then suc sent else sent) (if b then skipped else suc skipped) w1 r
            → LoopSends (u ∷ us) sent skipped w r
        prepend u us sent skipped b w w1 (ok (s, k), w') h l = (
          ground (arith, h.0, l.0),
          ground (arith, h.0, l.1),
          l.2,
          λ v. ground (arith, h.2 v, l.3 v),
        )
        prepend u us sent skipped b w w1 (err x, w') h l = l

        after_step :
            (u : ℕ) (us : List ℕ) (sent skipped : ℕ) (w : World e)
            (r : Result ContentError Bool × World e)
            → StepSends u w r
            → ((s k : ℕ) (w1 : World e)
                → Holds w1
                → LoopSends us s k w1 (for_each e step us s k w1))
            → LoopSends (u ∷ us) sent skipped w (elim r.0 [
              | ok b ↦
                  for_each e step us
                    (if b then suc sent else sent)
                    (if b then skipped else suc skipped)
                    r.1
              | err x ↦ (err x, r.1)
            ])
        after_step u us sent skipped w (ok b, w1) h rest =
            prepend u us sent skipped b w w1
              (for_each e step us (if b then suc sent else sent)
                (if b then skipped else suc skipped) w1)
              h (rest _ _ w1 h.1)
        after_step u us sent skipped w (err x, w1) h rest = h

        pub for_each-Sends :
            (us : List ℕ) (sent skipped : ℕ) (w : World e)
            → countb (λ u. not (wanted u)) us ≡ 0
            → Holds w
            → LoopSends us sent skipped w (for_each e step us sent skipped w)
        unfolding for_each
        for_each-Sends [] sent skipped w all inv = (omega arith, omega arith, inv, λ v. omega arith)
        for_each-Sends (u ∷ us) sent skipped w all inv =
            after_step u us sent skipped w (step u w) (good u w (ground (arith, all)) inv)
              (λ s k w1 h. for_each-Sends us s k w1 (ground (arith, all)) h)

      -- Passing over a user who is not busy.
      pub idle-Sends :
          (u : ℕ) (w : World e) → busy u ≡ false → Holds w → StepSends u w (ok false, w)
      idle-Sends u w idle inv = (sym idle, inv, λ v. rw idle (omega arith))

      -- Sending to a busy user who has not muted the kind.
      pub send-Sends :
          (u : ℕ) (title body : Text) (extra : Extra) (w : World e)
          → is_creation kind ≡ false
          → same_kind kind kind ≡ true
          → fits u (some extra) ≡ true
          → busy u ≡ true
          → is_muted kind (e.preferences.first (prefs_of u) w.db.preferences) ≡ false
          → Holds w
          → StepSends u w ((create_notification e u kind title body (some extra) >>= settle e) w)
      send-Sends u title body extra w other same fit is_busy loud inv =
          subst (λ r. StepSends u w r) (sym (sending_lem e u kind title body extra w loud))
            (
              sym is_busy,
              record {
                clean = refl;
                same_badges = inv.same_badges;
                same_preferences = inv.same_preferences;
                same_creations = λ v.
                    rw e.notifications.rows-insert (ground (arith, other, inv.same_creations v));
              },
              λ v. rw e.notifications.rows-insert (ground (arith, is_busy, same, fit)),
            )
