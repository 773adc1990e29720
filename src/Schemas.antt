-- ===== src/Schemas.antt =====
-- The validators of app/schemas/auth.py and app/schemas/profile.py. `none` is a ValueError, which
-- answers 422. `lower` is str.lower, and `email_str` what pydantic's EmailStr makes of an address.
pub mod Stable
use social_badge_api.Common.{
  ℕ, Bool, true, false, Option, none, some, Text, [], truthy, ltb, text_eq, if◌then◌else◌, ◌||◌,
  not,
}
use social_badge_api.Common.Strip.{strip}
use social_badge_api.Platform.Crypto.{Crypto}
use social_badge_api.Security.{validate_password_strength}
use social_badge_api.Sanitizer.{validate_no_html}
use social_badge_api.Auth.Signup.{SignupRequest}
use social_badge_api.Auth.Signin.{LoginRequest}

-- What the validators call that is not defined here.
pub record Library : Type 0 where
  pub crypto : Crypto
  pub is_digit : ℕ → Bool
  pub is_word : ℕ → Bool
  pub lower : Text → Text
  pub email_str : Text → Option Text

abbrev pub bound : {A B : Type 0} → Option A → (A → Option B) → Option B
bound none f = none
bound (some a) f = f a

module _ (l : Library) where
  -- SignupRequest.validate_first_name
  unfoldable pub validate_first_name : Text → Option Text
  validate_first_name val =
      if truthy (strip val) then validate_no_html l.is_word (strip val) else none

  -- SignupRequest.validate_last_name, which keeps an empty text.
  unfoldable pub validate_last_name : Option Text → Option (Option Text)
  validate_last_name none = some none
  validate_last_name (some val) =
      if truthy (strip val)
      then bound (validate_no_html l.is_word (strip val)) (λ v. some (some v))
      else some (some (strip val))

  -- UpdateProfileRequest.validate_last_name and validate_role, which make an empty text None.
  unfoldable pub validate_optional : Option Text → Option (Option Text)
  validate_optional none = some none
  validate_optional (some val) =
      if truthy (strip val)
      then bound (validate_no_html l.is_word (strip val)) (λ v. some (some v))
      else some none

  -- normalize_email, and then the type of the field.
  unfoldable pub validate_email : Text → Option Text
  validate_email val = l.email_str (l.lower (strip val))

  within_bytes : Text → Bool
  within_bytes val = not (ltb 500 (l.crypto.utf8_len val))

  -- SignupRequest.validate_password, ResetPasswordRequest.validate_new_password
  unfoldable pub validate_password : Text → Option Text
  unfolding within_bytes
  validate_password val =
      if within_bytes val
      then (elim (validate_password_strength l.crypto l.is_digit val) [
        | none ↦ some val
        | some weakness ↦ none
      ])
      else none

  unfoldable pub validate_signup : SignupRequest → Option SignupRequest
  validate_signup r = bound (validate_first_name r.first_name) (λ first_name.
      bound (validate_last_name r.last_name) (λ last_name. bound (validate_email r.email) (λ email.
        bound (validate_password r.password) (λ password. some (record {
          first_name = first_name;
          last_name = last_name;
          email = email;
          password = password;
        })))))

  -- LoginRequest: the address is not stripped and not made lower.
  unfoldable pub validate_login : LoginRequest → Option LoginRequest
  unfolding within_bytes
  validate_login r =
      if within_bytes r.password
      then bound (l.email_str r.email)
          (λ email. some (record { email = email; password = r.password }))
      else none

  -- ResetPasswordRequest: the new password, where the confirmation is the same.
  unfoldable pub validate_reset : Text → Text → Text → Option Text
  validate_reset token new_password confirm_password =
      if truthy token
      then bound (validate_password new_password)
          (λ password. if text_eq password confirm_password then some password else none)
      else none

  -- ChangePasswordRequest: the current and the new password.
  unfoldable pub validate_change : Text → Text → Text → Option (Text × Text)
  unfolding within_bytes
  validate_change current_password new_password confirm_password =
      if within_bytes current_password
      then bound (validate_password new_password) (λ password.
        if within_bytes confirm_password
        then (if text_eq password confirm_password
            then (if text_eq current_password password
                then none
                else some (current_password, password))
            else none)
        else none)
      else none
