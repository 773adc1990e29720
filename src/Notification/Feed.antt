-- ===== src/Notification/Feed.antt =====
-- Reading and marking notifications.
use social_badge_api.Common.{
  ℕ, ◌≡◌, ◌∙◌, ap, sym, refl, false, ◌&&◌, List, [], ◌∷◌, map, countb, ◌==◌, if◌then◌else◌, arith,
}
use social_badge_api.Common.Exec.{ok}
use social_badge_api.Content.State.{Env, World, Notification}
use social_badge_api.Notification.{
  unread_of, mark_read, get_unread_count, mark_notification_read, mark_all_notifications_read,
}

all_read :
    (user_id : ℕ) (rows : List Notification)
    → countb (unread_of user_id) (map (λ n. if unread_of user_id n then mark_read n else n) rows)
      ≡ 0
all_read user_id [] = refl
all_read user_id (n ∷ rows) = ground (arith, all_read user_id rows)

others_unread :
    (user_id other : ℕ) (rows : List Notification)
    → (user_id == other) ≡ false
    → countb (unread_of other) (map (λ n. if unread_of user_id n then mark_read n else n) rows)
      ≡ countb (unread_of other) rows
others_unread user_id other [] ne = refl
others_unread user_id other (n ∷ rows) ne = ground (arith, others_unread user_id other rows ne)

module _ (e : Env) where
  abbrev notes : World e → List Notification
  notes w = e.notifications.rows w.db.notifications

  -- Marking all notifications of a user read returns the number of unread ones, leaves the user
  -- none, changes no other user's number, and is committed.
  pub mark_all-Read :
      (user_id other : ℕ) (w : World e)
      → (user_id == other) ≡ false
      → let (result, w') = mark_all_notifications_read e user_id w in
        (result ≡ (get_unread_count e user_id w).0)
        × ((get_unread_count e user_id w').0 ≡ ok 0)
        × ((get_unread_count e other w').0 ≡ (get_unread_count e other w).0)
        × (w'.durable ≡ w'.db)
  unfolding mark_all_notifications_read get_unread_count
  mark_all-Read user_id other w ne = (
    refl,
    rw (e.notifications.count-rows, e.notifications.rows-update, all_read user_id (notes w)) refl,
    ap ok (
        e.notifications.count-rows _ _
        ∙ rw e.notifications.rows-update
            (others_unread user_id other (notes w) ne ∙ sym (e.notifications.count-rows _ _))),
    refl,
  )

  mine-false :
      (user_id id : ℕ) (rows : List Notification)
      → countb (λ n. (n.id == id) && (n.user_id == user_id)) rows ≡ 0
      → map (λ n. if (n.id == id) && (n.user_id == user_id) then mark_read n else n) rows ≡ rows
  mine-false user_id id [] h = refl
  mine-false user_id id (n ∷ rows) h = ground (arith, mine-false user_id id rows)

  -- A notification that is not the user's is not marked: the answer is false, and no row changes.
  pub mark_read_denied :
      (user_id id : ℕ) (w : World e)
      → countb (λ n. (n.id == id) && (n.user_id == user_id)) (notes w) ≡ 0
      → let (result, w') = mark_notification_read e user_id id w in
        (result ≡ ok false) × (notes w' ≡ notes w)
  unfolding mark_notification_read
  mark_read_denied user_id id w h = (
    rw (e.notifications.count-rows, h) refl,
    rw e.notifications.rows-update (mine-false user_id id (notes w) h),
  )
