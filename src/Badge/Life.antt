-- ===== src/Badge/Life.antt =====
-- Sequences of calls of app/services/badge.py, each in its own request.
pub mod Effects
pub mod Additions
pub mod Invariant
pub mod Calls
use social_badge_api.Common.{ℕ, ◌≤◌, Bool, Option, List, Text}
use social_badge_api.Content.State.{Env, World, close}
use social_badge_api.Badge.{
  create_badge, publish_badge, unpublish_badge, upload_badge_logo, increment_badge_share_count,
  increment_badge_creation_count, delete_badge,
}
use social_badge_api.Badge.Edit.{FieldUpdates, edit_badge, duplicate_badge}

module _ (e : Env) where
  pub data Step (w : World e) : World e → Type 0 where
    create :
        (organiser_id template_id : ℕ)
        → Step w (close e (create_badge e organiser_id template_id) w).1
    publish : (organiser_id id : ℕ) → Step w (close e (publish_badge e organiser_id id) w).1
    unpublish : (organiser_id id : ℕ) → Step w (close e (unpublish_badge e organiser_id id) w).1
    remove : (organiser_id id : ℕ) → Step w (close e (delete_badge e organiser_id id) w).1
    edit :
        (organiser_id id : ℕ) (u : FieldUpdates) (tags : Option (List Text)) (replace : Bool)
        → Step w (close e (edit_badge e organiser_id id u tags replace) w).1
    duplicate : (organiser_id id : ℕ) → Step w (close e (duplicate_badge e organiser_id id) w).1
    logo :
        (fails : Bool) (organiser_id id : ℕ)
        → Step w (close e (upload_badge_logo e fails id organiser_id) w).1
    share : (slug : Text) → Step w (close e (increment_badge_share_count e slug) w).1
    make : (slug : Text) → Step w (close e (increment_badge_creation_count e slug) w).1
    wait : (later : ℕ) → w.clock ≤ later → Step w (record w { clock = later })

  pub data Reach (w : World e) : World e → Type 0 where
    here : Reach w w
    next : {u v : World e} → Reach w u → Step u v → Reach w v
