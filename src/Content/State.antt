-- ===== src/Content/State.antt =====
-- The rows and the world of app/services/badge.py, app/services/notification.py, app/services/admin.py
-- and app/workers/digest_jobs.py. Times are microseconds; a call reads one time.
use social_badge_api.Common.{ℕ, suc, Bool, Option, List, Text}
use social_badge_api.Common.Exec.{Exec, ok, modify}
use social_badge_api.Platform.Table.{Table}

-- app/models/badges.py. The database sets `updated_at` by itself; JSON is kept as its text.
pub record Badge : Type 0 where
  pub id : ℕ
  pub organiser_id : ℕ
  pub platform_template_id : ℕ
  pub title : Text
  pub canvas_data : Text
  pub default_caption : Option Text
  pub destination_link : Option Text
  pub thumbnail_url : Option Text
  pub logo_url : Option Text
  pub logo_public_id : Option Text
  pub access_type : ℕ
  pub access_code : Option Text
  pub is_published : Bool
  pub published_at : Option ℕ
  pub share_slug : Option Text
  pub share_count : ℕ
  pub creation_count : ℕ
  pub deleted_at : Option ℕ

pub record BadgeHashtag : Type 0 where
  pub id : ℕ
  pub badge_id : ℕ
  pub hashtag : Text

-- app/models/templates.py
pub record PlatformTemplate : Type 0 where
  pub id : ℕ
  pub title : Text
  pub category : Text
  pub canvas_data : Option Text
  pub thumbnail_url : Option Text
  pub is_active : Bool
  pub total_badges_made : ℕ
  pub created_at : ℕ

-- app/models/notifications.py
pub data NotificationType : Type 0 where
  badge_creation daily_digest weekly_report : NotificationType

-- `extra_data` of the three kinds; a period is its first and its last instant.
pub data Extra : Type 0 where
  badge_data : ℕ → Text → Extra
  daily_data : ℕ → ℕ → ℕ → Extra
  weekly_data : ℕ → Text → List (ℕ × ℕ) → ℕ → ℕ → Extra

pub record Notification : Type 0 where
  pub id : ℕ
  pub user_id : ℕ
  pub kind : NotificationType
  pub title : Text
  pub body : Text
  pub is_read : Bool
  pub extra_data : Option Extra
  pub created_at : ℕ

pub record Preference : Type 0 where
  pub user_id : ℕ
  pub email_template_published : Bool
  pub email_new_signin : Bool
  pub notify_badge_creation : Bool
  pub notify_daily_digest : Bool
  pub notify_weekly_report : Bool

-- app/core/exceptions/base.py, and what the database raises.
pub data ContentError : Type 0 where
  badge_not_found not_badge_owner badge_already_published public_badge_not_found : ContentError
  template_not_found template_not_active : ContentError
  cloudinary_upload value_error integrity_error database_failed index_error : ContentError

-- What the services call. `upload` and `destroy` are the answers of Cloudinary to the n-th call.
pub record Env : Type 1 where
  pub badges : Table Badge
  pub hashtags : Table BadgeHashtag
  pub templates : Table PlatformTemplate
  pub notifications : Table Notification
  pub preferences : Table Preference
  pub uuid : ℕ → ℕ
  pub randbelow : ℕ → ℕ → ℕ
  pub upload : ℕ → Option (Text × Text)
  pub destroy : ℕ → Text → Bool

-- What was asked of Cloudinary: an upload that succeeded, or an attempt to delete.
pub data Asset : Type 0 where
  uploaded deleted : Text → Asset

module _ (e : Env) where
  pub record Db : Type 0 where
    pub badges : e.badges.State
    pub hashtags : e.hashtags.State
    pub templates : e.templates.State
    pub notifications : e.notifications.State
    pub preferences : e.preferences.State

  -- `assets` is the newest first, and `calls` counts the calls made to Cloudinary.
  pub record World : Type 0 where
    pub db : Db
    pub durable : Db
    pub clock : ℕ
    pub draws : ℕ
    pub calls : ℕ
    pub assets : List Asset

  abbrev pub Content : Type 0 → Type 0
  Content A = Exec ContentError World A

module _ (e : Env) where
  abbrev pub commit : Content e (Unit {0})
  commit = modify (λ w. record w { durable = w.db })

  abbrev pub rollback : Content e (Unit {0})
  rollback = modify (λ w. record w { db = w.durable })

  -- A fresh identifier.
  abbrev pub fresh_id : Content e ℕ
  fresh_id w = (ok (e.uuid w.draws), record w { draws = suc w.draws })

  abbrev pub on_badges : (e.badges.State → e.badges.State) → Content e (Unit {0})
  on_badges f = modify (λ w. record w { db = record w.db { badges = f w.db.badges } })

  abbrev pub on_hashtags : (e.hashtags.State → e.hashtags.State) → Content e (Unit {0})
  on_hashtags f = modify (λ w. record w { db = record w.db { hashtags = f w.db.hashtags } })

  abbrev pub on_templates : (e.templates.State → e.templates.State) → Content e (Unit {0})
  on_templates f = modify (λ w. record w { db = record w.db { templates = f w.db.templates } })

  abbrev pub on_notifications :
      (e.notifications.State → e.notifications.State) → Content e (Unit {0})
  on_notifications f =
      modify (λ w. record w { db = record w.db { notifications = f w.db.notifications } })

  abbrev pub on_preferences : (e.preferences.State → e.preferences.State) → Content e (Unit {0})
  on_preferences f =
      modify (λ w. record w { db = record w.db { preferences = f w.db.preferences } })

  -- app/db/session.py: the session of a request closes without a commit.
  abbrev pub close : {A : Type 0} → Content e A → Content e A
  close m w = let (result, w') = m w in (result, record w' { db = w'.durable })
