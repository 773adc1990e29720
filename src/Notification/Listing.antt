-- ===== src/Notification/Listing.antt =====
-- `list_notifications` of app/services/notification.py.
use social_badge_api.Common.{ℕ, ◌*◌, ◌≤◌, Bool, ◌&&◌, ◌||◌, List, countb, ltb, leb, ◌==◌, arith}
use social_badge_api.Common.Exec.{ok}
use social_badge_api.Common.Order.{joined}
use social_badge_api.Platform.Listing.{Order, IsListing, listed, query, query-IsListing}
use social_badge_api.Content.State.{Env, World, Content, Notification}
use social_badge_api.Notification.{addressed_to}

-- .order_by(Notification.created_at.desc(), Notification.id.desc())
abbrev pub newest_first : Notification → Notification → Bool
newest_first n m =
    ltb m.created_at n.created_at || ((n.created_at == m.created_at) && leb m.id n.id)

newest_first-Order : Order newest_first
newest_first-Order = record { total = λ n m h. ground arith; trans = λ n m o h k. ground arith }

module _ (e : Env) where
  unfoldable pub list_notifications : ℕ → ℕ → ℕ → Content e (List Notification × ℕ)
  list_notifications user_id page limit w = (
    ok (
      query e.notifications newest_first (addressed_to user_id) page limit w.db.notifications,
      e.notifications.count (addressed_to user_id) w.db.notifications,
    ),
    w,
  )

  -- As many pages as hold the user's notifications show each once, the newest first.
  pub list_notifications-IsListing :
      (user_id k limit : ℕ) (w : World e)
      → countb (addressed_to user_id) (e.notifications.rows w.db.notifications) ≤ k * limit
      → IsListing newest_first
          (addressed_to user_id)
          (e.notifications.rows w.db.notifications)
          (joined (λ i. listed (list_notifications user_id i limit w).0) k)
  unfolding list_notifications
  list_notifications-IsListing user_id k limit w fits =
      query-IsListing e.notifications newest_first newest_first-Order (addressed_to user_id) k limit
        w.db.notifications (rw e.notifications.count-rows fits)
