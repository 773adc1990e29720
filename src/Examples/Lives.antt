-- ===== src/Examples/Lives.antt =====
-- The draft is published, copied, and shared.
use social_badge_api.Common.{refl, inl, arith, text_eq}
use social_badge_api.Content.State.{World, close}
use social_badge_api.Badge.{publish_badge}
use social_badge_api.Badge.Edit.{duplicate_badge}
use social_badge_api.Badge.Life.{publish, duplicate, here, next}
use social_badge_api.Badge.Life.Invariant.{IsTidy}
use social_badge_api.Badge.Life.Calls.{Reach-IsTidy}
use social_badge_api.Content.Samples.{env, start}

start-IsTidy : IsTidy env (record start { draws = 2000 })
unfolding text_eq
start-IsTidy = record {
  unique = record { ids = λ id. ground arith; slugs = λ slug. ground arith };
  sane = ((inl (refl, refl), refl), ((inl (refl, refl), refl), tt));
  drawn = ((1005, omega arith, refl), ((1006, omega arith, refl), tt));
  settled = refl;
}

abbrev begun : World env
begun = record start { draws = 2000 }

abbrev published : World env
published = (close env (publish_badge env 1 1005) begun).1

Reach-IsTidy_example : IsTidy env (close env (duplicate_badge env 1 1005) published).1
Reach-IsTidy_example =
    Reach-IsTidy env (λ a b h. h) start-IsTidy
      (next (next here (publish 1 1005)) (duplicate 1 1005))
