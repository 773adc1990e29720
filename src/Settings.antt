-- ===== src/Settings.antt =====
-- app/core/config.py: the settings that the modelled code reads. The Redis key prefixes stand at their
-- defaults.
use social_badge_api.Common.{ℕ, ◌≡◌, refl, Bool, false, Text, codes, text_eq, ◌++◌}

pub record Settings : Type 0 where
  pub access_token_expire_minutes : ℕ
  pub refresh_token_expire_days : ℕ
  pub verification_token_ttl_minutes : ℕ
  pub password_reset_token_ttl_minutes : ℕ
  pub max_login_attempts : ℕ
  pub lockout_window : ℕ
  pub google_oauth_state_ttl_minutes : ℕ
  pub refresh_reuse_grace_seconds : ℕ

abbrev pub defaults : Settings
defaults = record {
  access_token_expire_minutes = 15;
  refresh_token_expire_days = 7;
  verification_token_ttl_minutes = 30;
  password_reset_token_ttl_minutes = 30;
  max_login_attempts = 5;
  lockout_window = 900;
  google_oauth_state_ttl_minutes = 10;
  refresh_reuse_grace_seconds = 5;
}

-- The keys that the code writes into Redis, f"{settings.TOKEN_PREFIX}{token_hash}" and the like.
pub data Key : Type 0 where
  token token_user password_reset google_state blacklist failed_login : Text → Key

abbrev pub prefix : Key → Text
prefix (token _) = codes "verify:"
prefix (token_user _) = codes "verify_user:"
prefix (password_reset _) = codes "pwd_reset:"
prefix (google_state _) = codes "oauth:google:state:"
prefix (blacklist _) = codes "blacklist:jti:"
prefix (failed_login _) = codes "failed_login:"

abbrev pub subject : Key → Text
subject (token t) = t
subject (token_user t) = t
subject (password_reset t) = t
subject (google_state t) = t
subject (blacklist t) = t
subject (failed_login t) = t

unfoldable pub render : Key → Text
render k = prefix k ++ subject k

abbrev pub key_eq : Key → Key → Bool
key_eq (token a) (token b) = text_eq a b
key_eq (token_user a) (token_user b) = text_eq a b
key_eq (password_reset a) (password_reset b) = text_eq a b
key_eq (google_state a) (google_state b) = text_eq a b
key_eq (blacklist a) (blacklist b) = text_eq a b
key_eq (failed_login a) (failed_login b) = text_eq a b
key_eq _ _ = false

-- Two rendered keys are one text exactly when they are one key: the namespaces do not meet.
pub text_eq-render : (a b : Key) → text_eq (render a) (render b) ≡ key_eq a b
unfolding render text_eq
text_eq-render (token a) (token b) = refl
text_eq-render (token_user a) (token_user b) = refl
text_eq-render (password_reset a) (password_reset b) = refl
text_eq-render (google_state a) (google_state b) = refl
text_eq-render (blacklist a) (blacklist b) = refl
text_eq-render (failed_login a) (failed_login b) = refl
text_eq-render _ _ = refl
