-- ===== src/Examples/Refresh.antt =====
-- Presenting a live refresh token, and a spent one.
use social_badge_api.Common.{
  ◌+◌, ◌*◌, ◌≡◌, refl, Bool, true, false, not, ◌&&◌, some, ◌∷◌, map, Text, countb, ◌==◌,
  if◌then◌else◌, arith, none, codes, text_eq,
}
use social_badge_api.Common.Exec.{ok, err}
use social_badge_api.Platform.Redis.{second}
use social_badge_api.Token.{create_refresh_token}
use social_badge_api.Ip.{Request, get_client_ip}
use social_badge_api.Auth.State.{RefreshToken, invalid_refresh_token}
use social_badge_api.Auth.Refresh.{in_grace, refresh_session}
use social_badge_api.Auth.Refresh.Rotation.{refresh_reused, refresh_replaces}
use social_badge_api.Auth.Samples.{env, jane, session, spent, with_session, with_spent}
use social_badge_api.Auth.Refresh.Chain.{refresh_moves_on}

refresh_reused_example :
    let (result, w') = refresh_session env (codes "raw") none none with_spent in
    let live : RefreshToken → Bool = λ r. (r.family_id == spent.family_id) && not r.is_revoked in
    (result ≡ err invalid_refresh_token)
    × (env.tokens.rows w'.db.tokens
        ≡ map
            (λ r. if live r then record r { is_revoked = true } else r)
            (env.tokens.rows with_spent.db.tokens))
    × (countb live (env.tokens.rows w'.db.tokens) ≡ 0)
    × (w'.durable ≡ w'.db)
unfolding in_grace text_eq
refresh_reused_example = refresh_reused env (codes "raw") none none with_spent spent refl refl refl

refresh_replaces_example :
    let (result, w') = refresh_session env (codes "raw") none none with_session in
    (access raw' : Text) × (new : RefreshToken) × (result ≡ ok (access, raw'))
    × (env.tokens.rows w'.durable.tokens
        ≡ new
          ∷ map
              (λ r.
                if r.id == session.id
                then record r { is_revoked = true; last_used_at = some with_session.clock }
                else r)
              (env.tokens.rows with_session.db.tokens))
    × (new.token_hash ≡ env.crypto.sha256 raw')
    × (new.family_id ≡ session.family_id)
    × (new.user_id ≡ jane.id)
    × (new.is_revoked ≡ false)
    × (new.expires_at ≡ with_session.clock + env.cfg.refresh_token_expire_days * 86400 * second)
unfolding text_eq
refresh_replaces_example =
    refresh_replaces env (codes "raw") none none with_session session jane refl refl refl refl refl

abbrev browser : Request
browser = record { user_agent = none; forwarded_for = none; real_ip = none; client_host = none }

refresh_moves_on_example :
    let (result, w') = refresh_session env (codes "raw") none none with_session in
    let after = record w' { clock = 9000001 } in
    (access raw' access'' raw'' : Text) × (result ≡ ok (access, raw'))
    × ((refresh_session env raw' none (some browser) after).0 ≡ ok (access'', raw''))
    × ((refresh_session env (codes "raw") none (some browser) after).0 ≡ err invalid_refresh_token)
unfolding text_eq create_refresh_token get_client_ip
refresh_moves_on_example =
    refresh_moves_on env (codes "raw") none none with_session session jane refl refl refl refl refl
      9000001 none browser refl (ground arith) (omega arith) refl
