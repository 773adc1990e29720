-- ===== src/Examples/Accounts.antt =====
-- Jane comes back with her Google account.
use social_badge_api.Common.{text_eq}
use social_badge_api.Common.{◌≡◌, refl, false, arith}
use social_badge_api.Common.Exec.{ok}
use social_badge_api.Auth.State.{World}
use social_badge_api.Auth.Google.{upsert_google_user, upsert_known, link_account, add_link}
use social_badge_api.Auth.Google.Upsert.{upsert_again}
use social_badge_api.Auth.Samples.{env, start, jane, google_jane}

abbrev linked : World env
linked = (upsert_google_user env google_jane start).1

linked_once : upsert_google_user env google_jane start ≡ (ok (jane, false), linked)
unfolding upsert_google_user upsert_known link_account add_link text_eq
linked_once = refl

upsert_again_example :
    ((upsert_google_user env google_jane linked).0 ≡ ok (jane, false))
    × (linked.durable ≡ linked.db)
upsert_again_example =
    upsert_again env google_jane start jane false linked (λ i. ground arith) refl linked_once
