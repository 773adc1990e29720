-- ===== src/Schemas/Stable.antt =====
-- What a request holds once it is validated.
use social_badge_api.Common.{◌≡◌, refl, true, false, Option, none, some, Text, truthy, arith}
use social_badge_api.Common.Strip.{strip, strip-strip}
use social_badge_api.Security.{validate_password_strength}
use social_badge_api.Sanitizer.{contains_html, validate_no_html}
use social_badge_api.Auth.Signup.{SignupRequest}
use social_badge_api.Schemas.{
  Library, validate_first_name, validate_last_name, validate_email, validate_password,
  validate_signup,
}

module _ (l : Library) where
  first-stable : (t v : Text) → validate_first_name l t ≡ some v → validate_first_name l v ≡ some v
  unfolding validate_first_name validate_no_html
  first-stable t v h =
      let again = strip-strip t in
      let same : v ≡ strip t = ground (arith, h) in rw (same, again) (ground (arith, h))

  last-stable :
      (t v : Option Text) → validate_last_name l t ≡ some v → validate_last_name l v ≡ some v
  unfolding validate_last_name validate_no_html
  last-stable none none h = refl
  last-stable none (some v) h = cc
  last-stable (some t) none h = ground (arith, h)
  last-stable (some t) (some v) h =
      let again = strip-strip t in
      let same : v ≡ strip t = ground (arith, h) in rw (same, again) (ground (arith, h))

  password-stable : (t v : Text) → validate_password l t ≡ some v → validate_password l v ≡ some v
  unfolding validate_password
  password-stable t v h = let same : v ≡ t = ground (arith, h) in rw same (ground (arith, h))

  signup-parts :
      (r s : SignupRequest)
      → validate_signup l r ≡ some s
      → (validate_first_name l r.first_name ≡ some s.first_name)
        × (validate_last_name l r.last_name ≡ some s.last_name)
        × (validate_email l r.email ≡ some s.email)
        × (validate_password l r.password ≡ some s.password)
  unfolding validate_signup
  signup-parts r s h = (ground (arith, h), ground (arith, h), ground (arith, h), ground (arith, h))

  first-clean :
      (t v : Text)
      → validate_first_name l t ≡ some v
      → (truthy v ≡ true) × (contains_html l.is_word v ≡ false)
  unfolding validate_first_name validate_no_html
  first-clean t v h = (ground (arith, h), ground (arith, h))

  password-strong :
      (t v : Text)
      → validate_password l t ≡ some v
      → validate_password_strength l.crypto l.is_digit v ≡ none
  unfolding validate_password
  password-strong t v h = ground (arith, h)

  -- If validating an address again changes nothing, then a sign-up that was validated has a first
  -- name that is not empty and has no HTML, and a strong password, and is the same when it is
  -- validated again.
  pub validate_signup-stable :
      ((t v : Text) → validate_email l t ≡ some v → validate_email l v ≡ some v)
      → (r s : SignupRequest) → validate_signup l r ≡ some s
      → (validate_signup l s ≡ some s)
        × (truthy s.first_name ≡ true)
        × (contains_html l.is_word s.first_name ≡ false)
        × (validate_password_strength l.crypto l.is_digit s.password ≡ none)
  unfolding validate_signup
  validate_signup-stable email-stable r s h =
      let (first, last, email, password) = signup-parts r s h in
      let first' = first-stable r.first_name s.first_name first in
      let last' = last-stable r.last_name s.last_name last in
      let email' = email-stable r.email s.email email in
      let password' = password-stable r.password s.password password in
      let (nonempty, clean) = first-clean r.first_name s.first_name first in
      (
        rw (first', last', email', password') refl,
        nonempty,
        clean,
        password-strong r.password s.password password,
      )
