-- ===== src/Security.antt =====
-- app/core/security.py: passwords.
use social_badge_api.Common.{
  ℕ, Bool, false, ◌&&◌, ◌||◌, not, Option, none, some, Text, codes, [], ◌∷◌, length, ltb, leb, ◌==◌,
  if◌then◌else◌,
}
use social_badge_api.Platform.Crypto.{Crypto}

-- `checkpw` is false where bcrypt raises ValueError, as the `except` makes it.
unfoldable pub verify_password : Crypto → Text → Text → Bool
verify_password c plain hashed = if ltb 72 (c.utf8_len plain) then false else c.checkpw plain hashed

-- re.search of a class of characters.
unfoldable pub has : (ℕ → Bool) → Text → Bool
has p [] = false
has p (c ∷ t) = p c || has p t

abbrev pub is_upper : ℕ → Bool
is_upper c = leb b'A' c && leb c b'Z'

abbrev pub is_lower : ℕ → Bool
is_lower c = leb b'a' c && leb c b'z'

abbrev pub is_special : ℕ → Bool
is_special c = has (λ d. c == d) (codes "!@#$%^&*(),.?\":{}|<>")

-- The messages of `validate_password_strength`.
pub data Weakness : Type 0 where
  too_long too_short no_upper no_lower no_number no_special : Weakness

-- `\d` matches every decimal digit of Unicode, `is_digit`.
unfoldable pub validate_password_strength : Crypto → (ℕ → Bool) → Text → Option Weakness
validate_password_strength c is_digit val =
    if ltb 72 (c.utf8_len val)
    then some too_long
    else if ltb (length val) 8
    then some too_short
    else if not (has is_upper val)
    then some no_upper
    else if not (has is_lower val)
    then some no_lower
    else if not (has is_digit val)
    then some no_number
    else if not (has is_special val)
    then some no_special
    else none
