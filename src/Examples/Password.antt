-- ===== src/Examples/Password.antt =====
-- A reset with a token of Jane's.
use social_badge_api.Common.{
  ◌≡◌, refl, false, none, some, map, All, if◌then◌else◌, ◌==◌, codes, [], ◌∷◌, text_eq,
}
use social_badge_api.Common.Exec.{ok, err}
use social_badge_api.Settings.{render}
use social_badge_api.Auth.State.{invalid_password_reset_token}
use social_badge_api.Auth.Password.{owned_by, reset_password}
use social_badge_api.Auth.Password.Reset.{reset-Done, stored_for, reset_once}
use social_badge_api.Auth.Samples.{env, jane, with_reset}

reset-Done_example :
    let (result, w') = reset_password env (codes "raw") (codes "Secret3!") with_reset in
    let hash = env.crypto.hashpw with_reset.draws (codes "Secret3!") in
    (result ≡ ok tt)
    × (w'.durable ≡ w'.db)
    × (env.users.rows w'.db.users
        ≡ map
            (λ u. if u.id == jane.id then record u { password_hash = some hash } else u)
            (env.users.rows with_reset.db.users))
    × All (λ t. owned_by 1000 t ≡ false) (env.tokens.rows w'.db.tokens)
    × (stored_for env (codes "raw") w' ≡ none)
unfolding render text_eq
reset-Done_example =
    reset-Done env (codes "raw") (codes "Secret3!") (1000 ∷ []) 1000 jane with_reset refl refl refl

reset_once_example :
    let w' = (reset_password env (codes "raw") (codes "Secret3!") with_reset).1 in
    (reset_password env (codes "raw") (codes "Secret4!") (record w' { clock = 9 })).0
    ≡ err invalid_password_reset_token
reset_once_example = reset_once env (codes "raw") (codes "Secret3!") (codes "Secret4!") with_reset 9
