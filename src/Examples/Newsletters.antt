-- ===== src/Examples/Newsletters.antt =====
-- Bob subscribes next to Ann, who unsubscribes.
use social_badge_api.Common.{
  ◌≡◌, refl, true, not, ◌&&◌, none, some, [], ◌∷◌, Text, text_eq, ◌==◌, if◌then◌else◌, arith, codes,
}
use social_badge_api.Common.Exec.{ok}
use social_badge_api.Newsletter.{
  Subscriber, Env, World, by_token, subscribe, subscribe_found, subscribe_new, subscribe_again,
  unsubscribe,
}
use social_badge_api.Newsletter.Unique.{IsUnique, subscribe-IsUnique, rows_of}
use social_badge_api.Newsletter.Refinement.{subscribe_refines, view, unsubscribe_refines, without}
use social_badge_api.Platform.Samples.{list_table}

abbrev env : Env
env = record { subscribers = list_table Subscriber; uuid = λ d. d; token_hex = λ d. 500 ∷ d ∷ [] }

abbrev ann : Subscriber
ann = record {
  id = 0;
  email = codes "ann@example.com";
  is_active = true;
  unsubscribe_token = codes "ann";
  subscribed_at = 0;
  unsubscribed_at = none;
}

abbrev start : World env
start = record { db = ann ∷ []; durable = ann ∷ []; clock = 5; draws = 10; outbox = [] }

start-IsUnique : IsUnique (ann ∷ [])
start-IsUnique = record {
  keys = λ i. ground arith;
  addresses = λ m. ground arith;
  tokens = λ t. ground arith;
}

abbrev bob : Text
bob = codes "bob@example.com"

abbrev joined : World env
joined = (subscribe env (λ s. s) bob start).1

abbrev bob_row : Subscriber
bob_row = record ann { id = 11; email = bob; unsubscribe_token = 500 ∷ 10 ∷ []; subscribed_at = 5 }

bob_joins : subscribe env (λ s. s) bob start ≡ (ok (bob_row, true), joined)
unfolding subscribe subscribe_found subscribe_new subscribe_again text_eq
bob_joins = refl

subscribe_refines_example :
    (view env joined bob
      ≡ (if true && text_eq bob bob then some bob_row.unsubscribe_token else view env start bob))
    × ((if true then view env start bob else none) ≡ none)
subscribe_refines_example =
    subscribe_refines env bob bob start joined bob_row true start-IsUnique refl bob_joins

unsubscribe_refines_example :
    let (result, left) = unsubscribe env (codes "ann") start in
    (view env left ann.email ≡ without (codes "ann") (view env start ann.email))
    × (result ≡ ok (not (env.subscribers.count (by_token (codes "ann")) start.db == 0)))
unsubscribe_refines_example =
    unsubscribe_refines env start start-IsUnique refl (codes "ann") ann.email

subscribe-IsUnique_example : IsUnique (rows_of env (subscribe env (λ s. s) bob start).1.durable)
subscribe-IsUnique_example =
    subscribe-IsUnique env (λ s. s) bob start refl (λ s h. h) start-IsUnique
