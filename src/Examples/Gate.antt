-- ===== src/Examples/Gate.antt =====
-- A token that was logged out.
use social_badge_api.Common.{◌≡◌, some, arith, refl, none, codes, [], ◌∷◌}
use social_badge_api.Common.Exec.{err}
use social_badge_api.Platform.Crypto.{Claims}
use social_badge_api.Auth.State.{Env, token_revoked, World, Db}
use social_badge_api.Auth.Logout.{revoke_all_user_sessions}
use social_badge_api.Auth.Gate.{get_current_user}
use social_badge_api.Auth.Gate.Access.{logout_shuts_out}
use social_badge_api.Auth.Samples.{env, jane}

abbrev claims : Claims
claims = record {
  sub = some (1000 ∷ []);
  exp = some 60;
  iat = some 0;
  kind = none;
  jti = some (codes "id");
}

-- Every token decodes to the same claims.
abbrev decoding : Env
decoding = record env {
  crypto = record env.crypto {
    jwt_decode = λ now t. some claims;
    jwt_decode_any = λ t. some claims;
  };
}

abbrev now : World decoding
now =
    let db : Db decoding = record { users = jane ∷ []; providers = []; tokens = [] } in
    record { db = db; durable = db; redis = λ k. none; clock = 1000000; draws = 0; outbox = [] }

logout_shuts_out_example :
    let w' = (revoke_all_user_sessions decoding 1000 (some (codes "t")) now).1 in
    (get_current_user decoding (some (codes "t")) (record w' { clock = 2000000 })).0
    ≡ err token_revoked
logout_shuts_out_example =
    logout_shuts_out decoding 1000 (codes "t") (codes "id") 60 2000000 claims now refl refl refl
      refl (omega arith) (ground arith)
