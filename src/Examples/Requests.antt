-- ===== src/Examples/Requests.antt =====
-- A sign-up with spaces around its texts.
use social_badge_api.Security.{has}
use social_badge_api.Common.{
  ◌≡◌, refl, true, false, none, some, Text, truthy, arith, codes, ◌&&◌, leb, [],
}
use social_badge_api.Common.Strip.{strip, strip-strip}
use social_badge_api.Security.{validate_password_strength}
use social_badge_api.Sanitizer.{contains_html, validate_no_html}
use social_badge_api.Auth.Signup.{SignupRequest}
use social_badge_api.Schemas.{
  Library, validate_first_name, validate_last_name, validate_email, validate_password,
  validate_signup,
}
use social_badge_api.Schemas.Stable.{validate_signup-stable}
use social_badge_api.Auth.Samples.{sample_crypto}

abbrev library : Library
library = record {
  crypto = sample_crypto;
  is_digit = λ c. leb 48 c && leb c 57;
  is_word = λ c. leb 48 c;
  lower = λ t. t;
  email_str = λ t. some t;
}

abbrev request : SignupRequest
request = record {
  first_name = codes " Bob ";
  last_name = some (codes " ");
  email = codes " bob@example.com ";
  password = codes "Secret1!";
}

abbrev validated : SignupRequest
validated = record {
  first_name = codes "Bob";
  last_name = some [];
  email = codes "bob@example.com";
  password = codes "Secret1!";
}

validated_once : validate_signup library request ≡ some validated
unfolding validate_signup validate_first_name strip validate_no_html validate_last_name
    validate_email validate_password validate_password_strength has
validated_once = refl

email_again : (t v : Text) → validate_email library t ≡ some v → validate_email library v ≡ some v
unfolding validate_email
email_again t v h =
    let again = strip-strip t in let same : v ≡ strip t = ground (arith, h) in rw (same, again) refl

validate_signup-stable_example :
    (validate_signup library validated ≡ some validated)
    × (truthy (codes "Bob") ≡ true)
    × (contains_html library.is_word (codes "Bob") ≡ false)
    × (validate_password_strength sample_crypto library.is_digit (codes "Secret1!") ≡ none)
validate_signup-stable_example =
    validate_signup-stable library email_again request validated validated_once
