-- ===== src/Platform/Crypto.antt =====
-- Hashes, random numbers, identifiers and JSON Web Tokens: hashlib, bcrypt, secrets, uuid, python-jose.
use social_badge_api.Common.{ℕ, Bool, Option, Text}

-- The claims that app/core/token.py writes and the application reads. `exp` is in seconds.
pub record Claims : Type 0 where
  pub sub : Option Text
  pub exp : Option ℕ
  pub iat : Option ℕ
  pub kind : Option Text
  pub jti : Option Text

-- What is random is a function of the number of draws made so far.
pub record Crypto : Type 0 where
  -- hashlib.sha256(token.encode()).hexdigest()
  pub sha256 : Text → Text
  -- bcrypt.hashpw under the salt of a draw, bcrypt.checkpw
  pub hashpw : ℕ → Text → Text
  pub checkpw : Text → Text → Bool
  -- len(password.encode("utf-8"))
  pub utf8_len : Text → ℕ
  -- secrets.token_urlsafe(32), secrets.token_hex, uuid.uuid4 and uuid.uuid7
  pub token_urlsafe : ℕ → Text
  pub token_hex : ℕ → Text
  pub uuid : ℕ → ℕ
  -- str(id), and UUID(text), which may raise ValueError
  pub uuid_text : ℕ → Text
  pub parse_uuid : Text → Option ℕ
  -- jwt.encode; jwt.decode at a time in microseconds, and with verify_exp off
  pub jwt_encode : Claims → Text
  pub jwt_decode : ℕ → Text → Option Claims
  pub jwt_decode_any : Text → Option Claims
