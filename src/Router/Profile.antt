-- ===== src/Router/Profile.antt =====
-- app/routers/v1/profile.py: the endpoints of a profile.
pub mod Upload
use social_badge_api.Common.{
  ℕ, zero, suc, ◌+◌, ◌/◌, Bool, true, false, not, ◌&&◌, ◌||◌, Option, none, some, List, [], ◌∷◌,
  ◌++◌, Text, codes, take, drop, length, ltb, if◌then◌else◌,
}
use social_badge_api.Common.Exec.{
  Exec, Result, ok, err, pure, raise, raise_if, or_raise, ◌>>=◌, ◌>>◌,
}
use social_badge_api.Auth.State.{User, AuthError, invalid_credentials}
use social_badge_api.Auth.State as Accounts
use social_badge_api.Content.State.{ContentError, cloudinary_upload}
use social_badge_api.Content.State as Contents
use social_badge_api.Badge.{is_none}
use social_badge_api.Profile.{
  ProfileUpdates, ProfileWorld, update_profile, change_password, update_profile_photo,
  remove_profile_photo, delete_profile,
}
use social_badge_api.Router.{ApiError, refused, catching}
use social_badge_api.Router.Badges.{starts_with}

abbrev pub max_file_size : ℕ
max_file_size = 10485760

abbrev pub chunk_size : ℕ
chunk_size = 8192

-- IMAGE_MAGIC_BYTES
abbrev pub image_magic_bytes : List (List ℕ × Text)
image_magic_bytes =
    (255 ∷ 216 ∷ 255 ∷ [], codes "image/jpeg")
    ∷ (137 ∷ 80 ∷ 78 ∷ 71 ∷ [], codes "image/png")
    ∷ (71 ∷ 73 ∷ 70 ∷ 56 ∷ [], codes "image/gif")
    ∷ []

abbrev pub mime_of : List (List ℕ × Text) → List ℕ → Option Text
mime_of [] content = none
mime_of ((magic, mime) ∷ rest) content =
    let other = mime_of rest content in if starts_with magic content then some mime else other

unfoldable pub validate_image_content : List ℕ → Result ApiError Text
validate_image_content content =
    if ltb (length content) 4
    then err (refused 400 (codes "File is too small to be a valid image"))
    else (elim (mime_of image_magic_bytes content) [
      | none ↦
          err (refused 400 (codes "Invalid file format. Only JPEG, PNG, and GIF are supported."))
      | some mime ↦ ok mime
    ])

-- The loop of `_read_file_with_size_check`: `none` is out of fuel, and `some none` a file that is too
-- large. `file` is what is left to read.
abbrev pub read_on :
    (List ℕ → ℕ → List ℕ → Option (Option (List ℕ)))
    → ℕ
    → List ℕ
    → List ℕ
    → ℕ
    → List ℕ
    → Option (Option (List ℕ))
read_on again max_size [] file total_size chunks = some (some chunks)
read_on again max_size (c ∷ chunk) file total_size chunks =
    if ltb max_size (total_size + length (c ∷ chunk))
    then some none
    else again file (total_size + length (c ∷ chunk)) (chunks ++ c ∷ chunk)

unfoldable pub read_file : ℕ → ℕ → ℕ → List ℕ → ℕ → List ℕ → Option (Option (List ℕ))
read_file zero size max_size file total_size chunks = none
read_file (suc fuel) size max_size file total_size chunks =
    read_on (read_file fuel size max_size) max_size (take size file) (drop size file) total_size
      chunks

-- Each round reads a byte or ends, so a round for each byte and one more is enough fuel.
abbrev pub read_file_with_size_check : List ℕ → Option (Option (List ℕ))
read_file_with_size_check file = read_file (suc (length file)) chunk_size max_file_size file 0 []

abbrev pub photo_clauses : ContentError → Option (ℕ × Text)
photo_clauses cloudinary_upload = some (400, codes "Failed to upload image to Cloudinary")
photo_clauses x = none

-- HTTPException, or an exception of the accounts that an endpoint lets through.
pub data AccountError : Type 0 where
  http : ℕ → Text → AccountError
  raised : AuthError → AccountError

abbrev pub password_refusal : AuthError → AccountError
password_refusal invalid_credentials = http 401 (codes "Current password is incorrect")
password_refusal x = raised x

abbrev pub catching_auth :
    {W A : Type 0} → (AuthError → AccountError) → Result AuthError A × W → Result AccountError A × W
catching_auth refusal (ok a, w) = (ok a, w)
catching_auth refusal (err x, w) = (err (refusal x), w)

module _ (a : Accounts.Env) where
  abbrev pub AccountApi : Type 0 → Type 0
  AccountApi A = Exec AccountError (Accounts.World a) A

  unfoldable pub update_user_profile : User → ProfileUpdates → AccountApi User
  update_user_profile current_user payload = do
    raise_if
        (is_none payload.first_name
          && (is_none payload.last_name && (is_none payload.email && is_none payload.role)))
        (http 400 (codes "At least one field must be provided"))
    (λ w. catching_auth raised (update_profile a current_user payload w))

  unfoldable pub change_user_password :
      User → Text → Text → Option Text → Option Text → AccountApi (Unit {0})
  change_user_password current_user current_password new_password access_token refresh_token w =
      catching_auth password_refusal
        (change_password a current_user current_password new_password access_token refresh_token w)

module _ (a : Accounts.Env) (c : Contents.Env) (public_id_of : Text → Option Text) where
  abbrev pub ProfileApi : Type 0 → Type 0
  ProfileApi A = Exec ApiError (ProfileWorld a c) A

  -- What was read, or the refusal of a file that is too large.
  abbrev read_or_raise : Option (Option (List ℕ)) → ProfileApi (List ℕ)
  read_or_raise (some (some content)) = pure content
  read_or_raise r = raise (refused 400 (codes "File size exceeds maximum allowed size of 10 MB"))

  abbrev of_result : {A : Type 0} → Result ApiError A → ProfileApi A
  of_result r w = (r, w)

  unfoldable pub upload_profile_photo_endpoint : User → List ℕ → ProfileApi User
  unfolding validate_image_content
  upload_profile_photo_endpoint current_user file = do
    content ← read_or_raise (read_file_with_size_check file)
    mime ← of_result (validate_image_content content)
    (λ w. catching photo_clauses (update_profile_photo a c public_id_of current_user w))

  unfoldable pub remove_profile_photo_endpoint : User → ProfileApi User
  remove_profile_photo_endpoint current_user w =
      catching (λ x. none) (remove_profile_photo a c public_id_of current_user w)

  -- The identifier in the response; both cookies are deleted.
  unfoldable pub delete_user_profile : User → Option Text → Option Text → ProfileApi ℕ
  delete_user_profile current_user access_token refresh_token = do
    (λ w.
        catching (λ x. none)
          (delete_profile a c public_id_of current_user.id access_token refresh_token w))
    pure current_user.id
