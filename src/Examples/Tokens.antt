-- ===== src/Examples/Tokens.antt =====
-- Tokens in an empty Redis.
use social_badge_api.Common.{◌≡◌, none, some, text_eq, arith, codes, refl}
use social_badge_api.Settings.{token, render, defaults}
use social_badge_api.Token.{store_verification_token, revoke_previous_verification_token}
use social_badge_api.Token.Entries.{token_end}
use social_badge_api.Token.Index.{reissue_only, reissue}
use social_badge_api.Platform.Samples.{key_redis}

only :
    reissue defaults key_redis (codes "b") (codes "u") 0 (λ j. none) (render (token (codes "b")))
    ≡ some (record { value = codes "u"; deadline = token_end defaults 0 })
unfolding store_verification_token revoke_previous_verification_token render text_eq
only = refl

reissue_only_example : codes "b" ≡ codes "b"
unfolding render text_eq store_verification_token revoke_previous_verification_token
reissue_only_example =
    reissue_only defaults key_redis (codes "b") (codes "u") (codes "b") 0 1 (λ j. none)
      (λ h x t l. cc (l)) (omega arith) refl refl
