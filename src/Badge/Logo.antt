-- ===== src/Badge/Logo.antt =====
-- `upload_badge_logo`: the logo of a badge and the assets that Cloudinary keeps.
use social_badge_api.Common.{
  ℕ, ◌≡◌, Bool, true, false, Option, none, some, List, [], ◌∷◌, ◌++◌, Text, arith,
}
use social_badge_api.Common.Exec.{ok, err}
use social_badge_api.Content.State.{
  Env, World, Badge, Asset, uploaded, deleted, cloudinary_upload, database_failed,
}
use social_badge_api.Badge.{
  kept, by_badge_id, full, get_badge_by_id, try_delete, upload_logo, upload_badge_logo,
}

-- The deletion that is attempted, as an entry of the log.
abbrev pub old_logo : Option Text → List Asset
old_logo none = []
old_logo (some public_id) = deleted public_id ∷ []

module _ (e : Env) (id organiser_id : ℕ) (w : World e) (b : Badge) where
  -- An upload that Cloudinary refuses changes no row, committed or not.
  pub upload_refused :
      (fails : Bool)
      → e.badges.first (kept id) w.db.badges ≡ some b
      → b.organiser_id ≡ organiser_id
      → e.upload w.calls ≡ none
      → let (result, w') = upload_badge_logo e fails id organiser_id w in
        (result ≡ err cloudinary_upload)
        × (w'.db ≡ w.db)
        × (w'.durable ≡ w.durable)
        × (w'.assets ≡ w.assets)
  unfolding upload_badge_logo get_badge_by_id upload_logo
  upload_refused fails found own no_answer = (
    ground (arith, found, own, no_answer),
    ground (arith, found, own, no_answer),
    ground (arith, found, own, no_answer),
    ground (arith, found, own, no_answer),
  )

  -- If the commit of a logo that Cloudinary took fails, for a kept badge of the caller, the call
  -- raises, the rows are as committed before, and the new asset's deletion is attempted.
  pub upload_rolled_back :
      (url public_id : Text)
      → e.badges.first (kept id) w.db.badges ≡ some b
      → b.organiser_id ≡ organiser_id
      → e.upload w.calls ≡ some (url, public_id)
      → let (result, w') = upload_badge_logo e true id organiser_id w in
        (result ≡ err database_failed)
        × (w'.db ≡ w.durable)
        × (w'.durable ≡ w.durable)
        × (w'.assets ≡ deleted public_id ∷ uploaded public_id ∷ w.assets)
  unfolding upload_badge_logo get_badge_by_id upload_logo try_delete
  upload_rolled_back url public_id found own answer = (
    ground (arith, found, own, answer),
    ground (arith, found, own, answer),
    ground (arith, found, own, answer),
    ground (arith, found, own, answer),
  )

  -- If the commit succeeds, for a kept badge of the caller and an upload that Cloudinary took, the
  -- badge has the new logo, and the old logo's deletion is attempted, if it had one.
  pub upload-Done :
      (url public_id : Text)
      → e.badges.first (kept id) w.db.badges ≡ some b
      → b.organiser_id ≡ organiser_id
      → e.upload w.calls ≡ some (url, public_id)
      → let (result, w') = upload_badge_logo e false id organiser_id w in
        (result ≡ ok url)
        × (w'.db.badges
            ≡ e.badges.update
                (by_badge_id b.id)
                (λ x. record x { logo_url = some url; logo_public_id = some public_id })
                w.db.badges)
        × (w'.durable ≡ w'.db)
        × (w'.assets ≡ old_logo (full b.logo_public_id) ++ (uploaded public_id ∷ w.assets))
  unfolding upload_badge_logo get_badge_by_id upload_logo try_delete
  upload-Done url public_id found own answer = (
    ground (arith, found, own, answer),
    ground (arith, found, own, answer),
    ground (arith, found, own, answer),
    ground (arith, found, own, answer),
  )
