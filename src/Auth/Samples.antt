-- ===== src/Auth/Samples.antt =====
-- A small environment: tables as lists, Redis as a function, and hashes that are easy to follow.
use social_badge_api.Common.{
  ℕ, true, false, Option, none, some, [], ◌∷◌, Text, codes, text_eq, length,
}
use social_badge_api.Platform.Crypto.{Crypto}
use social_badge_api.Platform.Samples.{list_table, key_redis, store}
use social_badge_api.Settings.{defaults, render, password_reset, token}
use social_badge_api.Auth.Answers.{GoogleUser}
use social_badge_api.Auth.State.{Env, User, AuthProvider, RefreshToken, Db, World}

abbrev sample_parse : Text → Option ℕ
sample_parse [] = none
sample_parse (n ∷ []) = some n
sample_parse (n ∷ m ∷ t) = none

-- A text stands for itself under every hash, and a number for its one-letter text.
abbrev pub sample_crypto : Crypto
sample_crypto = record {
  sha256 = λ t. t;
  hashpw = λ d t. t;
  checkpw = text_eq;
  utf8_len = length;
  token_urlsafe = λ d. 500 ∷ d ∷ [];
  token_hex = λ d. d ∷ [];
  uuid = λ d. d;
  uuid_text = λ n. n ∷ [];
  parse_uuid = sample_parse;
  jwt_encode = λ c. elim c.jti [ none ↦ [] | some t ↦ 600 ∷ t ];
  jwt_decode = λ now t. none;
  jwt_decode_any = λ t. none;
}

abbrev pub env : Env
env = record {
  cfg = defaults;
  crypto = sample_crypto;
  redis = key_redis;
  users = list_table User;
  providers = list_table AuthProvider;
  tokens = list_table RefreshToken;
  smtp = λ sent m. true;
}

abbrev pub jane : User
jane = record {
  id = 1000;
  first_name = codes "Jane";
  last_name = none;
  email = codes "jane@example.com";
  password_hash = some (codes "Secret1!");
  is_email_verified = true;
  profile_photo_url = none;
  role = none;
}

abbrev pub tables : Db env
tables = record { users = jane ∷ []; providers = []; tokens = [] }

abbrev pub start : World env
start = record {
  db = tables;
  durable = tables;
  redis = λ k. none;
  clock = 1000000;
  draws = 0;
  outbox = [];
}

-- A refresh token of Jane's, whose text is "raw", live and revoked.
abbrev pub session : RefreshToken
session = record {
  id = 7;
  user_id = 1000;
  token_hash = codes "raw";
  created_at = 0;
  expires_at = 1000000000000;
  is_revoked = false;
  family_id = 3;
  user_agent = none;
  ip_address = none;
  last_used_at = some 0;
}

abbrev pub spent : RefreshToken
spent = record session { is_revoked = true }

abbrev pub holding : RefreshToken → World env
holding t =
    let db : Db env = record tables { tokens = t ∷ [] } in
    record start { db = db; durable = db; clock = 9000000 }

abbrev pub with_session : World env
with_session = holding session

abbrev pub with_spent : World env
with_spent = holding spent

abbrev pub john : User
john = record jane { id = 1001; email = codes "john@example.com"; is_email_verified = false }

abbrev pub with_john : World env
with_john =
    let db : Db env = record tables { users = john ∷ jane ∷ [] } in
    record start { db = db; durable = db }

-- Redis with one key, which ends after a minute.
abbrev pub redis_with : Text → Text → env.redis.State
redis_with k v = store k (some (record { value = v; deadline = some 60000000 })) (λ j. none)

abbrev pub with_reset : World env
with_reset = record start { redis = redis_with (render (password_reset (codes "raw"))) (1000 ∷ []) }

abbrev pub with_link : World env
with_link = record with_john { redis = redis_with (render (token (codes "raw"))) (1001 ∷ []) }

-- What Google says of Jane.
abbrev pub google_jane : GoogleUser
google_jane = record {
  subject = codes "12345";
  email = codes "jane@example.com";
  name = codes "Jane Doe";
  picture = none;
}
