-- ===== src/Newsletter.antt =====
-- app/services/newsletter.py: the subscribers of the newsletter.
pub mod Unique
pub mod Refinement
use social_badge_api.Common.{
  ℕ, suc, Bool, true, false, not, ◌||◌, ◌&&◌, Option, none, some, List, ◌∷◌, Text, ◌==◌, text_eq,
  if◌then◌else◌,
}
use social_badge_api.Common.Exec.{Exec, ok, err, pure, raise, or_raise, gets, modify, ◌>>=◌, ◌>>◌}
use social_badge_api.Platform.Table.{Table}

-- app/models/newsletter.py
pub record Subscriber : Type 0 where
  pub id : ℕ
  pub email : Text
  pub is_active : Bool
  pub unsubscribe_token : Text
  pub subscribed_at : ℕ
  pub unsubscribed_at : Option ℕ

-- RuntimeError of `subscribe`, and what `session.refresh` raises for a row that is gone.
pub data NewsletterError : Type 0 where
  subscriber_missing row_gone : NewsletterError

pub record Env : Type 1 where
  pub subscribers : Table Subscriber
  pub uuid : ℕ → ℕ
  -- secrets.token_hex(32) at a draw
  pub token_hex : ℕ → Text

module _ (e : Env) where
  -- `outbox` has the address and the token of each welcome mail, the newest first.
  pub record World : Type 0 where
    pub db : e.subscribers.State
    pub durable : e.subscribers.State
    pub clock : ℕ
    pub draws : ℕ
    pub outbox : List (Text × Text)

  abbrev pub News : Type 0 → Type 0
  News A = Exec NewsletterError World A

abbrev pub by_address : Text → Subscriber → Bool
by_address email s = text_eq s.email email

abbrev pub by_token : Text → Subscriber → Bool
by_token token s = text_eq s.unsubscribe_token token

abbrev pub by_key : ℕ → Subscriber → Bool
by_key id s = s.id == id

abbrev pub reactivate : Text → Subscriber → Subscriber
reactivate token s = record s {
  is_active = true;
  unsubscribe_token = token;
  unsubscribed_at = none;
}

abbrev pub deactivate : ℕ → Subscriber → Subscriber
deactivate now s = record s { is_active = false; unsubscribed_at = some now }

-- A row that breaks a unique constraint with the new one: the key, the address or the token.
abbrev pub clashes : Subscriber → Subscriber → Bool
clashes new s = by_key new.id s || (by_address new.email s || by_token new.unsubscribe_token s)

module _ (e : Env) where
  abbrev commit : News e (Unit {0})
  commit = modify (λ w. record w { durable = w.db })

  abbrev rollback : News e (Unit {0})
  rollback = modify (λ w. record w { db = w.durable })

  abbrev fresh : News e ℕ
  fresh w = (ok w.draws, record w { draws = suc w.draws })

  -- What other transactions commit meanwhile.
  abbrev interfere : (e.subscribers.State → e.subscribers.State) → News e (Unit {0})
  interfere race = modify (λ w. record w { db = race w.db; durable = race w.durable })

  abbrev welcome : Text → Text → News e (Unit {0})
  welcome email token = modify (λ w. record w { outbox = (email, token) ∷ w.outbox })

  -- `except IntegrityError`
  abbrev after_clash : Text → News e (Subscriber × Bool)
  after_clash email = do
    rollback
    found ← gets (λ w. e.subscribers.first (by_address email) w.db)
    subscriber ← or_raise found subscriber_missing
    pure (subscriber, false)

  -- A row for an address that had none.
  unfoldable pub subscribe_new :
      (e.subscribers.State → e.subscribers.State) → Text → News e (Subscriber × Bool)
  subscribe_new race email = do
    t ← fresh
    i ← fresh
    now ← gets (λ w. w.clock)
    let row : Subscriber = record {
      id = e.uuid i;
      email = email;
      is_active = true;
      unsubscribe_token = e.token_hex t;
      subscribed_at = now;
      unsubscribed_at = none;
    }
    interfere race
    others ← gets (λ w. e.subscribers.count (clashes row) w.db)
    if others == 0
        then (do
          modify (λ w. record w { db = e.subscribers.insert row w.db })
          commit
          welcome email row.unsubscribe_token
          pure (row, true))
        else after_clash email

  -- A row that was unsubscribed: UPDATE, and the row read again.
  unfoldable pub subscribe_again :
      (e.subscribers.State → e.subscribers.State) → Text → Subscriber → News e (Subscriber × Bool)
  subscribe_again race email old = do
    t ← fresh
    let token = e.token_hex t
    interfere race
    others ← gets (λ w. e.subscribers.count (λ s. by_token token s && not (by_key old.id s)) w.db)
    if others == 0
        then (do
          modify
              (λ w. record w { db = e.subscribers.update (by_key old.id) (reactivate token) w.db })
          commit
          found ← gets (λ w. e.subscribers.first (by_key old.id) w.db)
          subscriber ← or_raise found row_gone
          welcome email subscriber.unsubscribe_token
          pure (subscriber, true))
        else after_clash email

  unfoldable pub subscribe_found :
      (e.subscribers.State → e.subscribers.State)
      → Text
      → Option Subscriber
      → News e (Subscriber × Bool)
  unfolding subscribe_new subscribe_again
  subscribe_found race email none = subscribe_new race email
  subscribe_found race email (some s) =
      if s.is_active then pure (s, false) else subscribe_again race email s

  -- The row of the address, and whether it was subscribed by this call. `race` is what other transactions
  -- commit between the SELECT and the flush.
  unfoldable pub subscribe :
      (e.subscribers.State → e.subscribers.State) → Text → News e (Subscriber × Bool)
  unfolding subscribe_found
  subscribe race email = do
    found ← gets (λ w. e.subscribers.first (by_address email) w.db)
    subscribe_found race email found

  unfoldable pub unsubscribe_found : Option Subscriber → News e Bool
  unsubscribe_found none = pure false
  unsubscribe_found (some s) =
      if s.is_active
      then (do
        now ← gets (λ w. w.clock)
        modify (λ w. record w { db = e.subscribers.update (by_key s.id) (deactivate now) w.db })
        commit
        pure true)
      else pure true

  unfoldable pub unsubscribe : Text → News e Bool
  unfolding unsubscribe_found
  unsubscribe token = do
    found ← gets (λ w. e.subscribers.first (by_token token) w.db)
    unsubscribe_found found
