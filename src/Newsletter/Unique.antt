-- ===== src/Newsletter/Unique.antt =====
-- The unique constraints of the subscribers, which `subscribe` relies on and keeps.
use social_badge_api.Common.{
  ℕ, suc, ◌≤◌, ◌≡◌, refl, inl, inr, ◌⊎◌, Bool, true, false, not, ◌&&◌, none, some, List, [], ◌∷◌,
  map, Text, countb, text_eq, text_eq_iff, text_eq_refl, ◌==◌, Option-cases, Bool-cases,
  if◌then◌else◌, arith,
}
use mathlib.Core.Path.{subst}
use social_badge_api.Newsletter.{
  Subscriber, Env, World, by_address, by_token, by_key, clashes, reactivate, deactivate, subscribe,
  subscribe_found, subscribe_new, subscribe_again,
}

pub record IsUnique (rows : List Subscriber) : Type 0 where
  pub keys : (i : ℕ) → countb (by_key i) rows ≤ 1
  pub addresses : (m : Text) → countb (by_address m) rows ≤ 1
  pub tokens : (t : Text) → countb (by_token t) rows ≤ 1

-- A row that clashes with none leaves each constraint as it is.
no_clash :
    (new : Subscriber) (rows : List Subscriber)
    → countb (clashes new) rows ≡ 0
    → (countb (by_key new.id) rows ≡ 0)
      × (countb (by_address new.email) rows ≡ 0)
      × (countb (by_token new.unsubscribe_token) rows ≡ 0)
no_clash new [] h = (refl, refl, refl)
no_clash new (s ∷ rows) h = ground (arith, no_clash new rows)

pub insert-IsUnique :
    (new : Subscriber) (rows : List Subscriber)
    → countb (clashes new) rows ≡ 0
    → IsUnique rows
    → IsUnique (new ∷ rows)
insert-IsUnique new rows free u =
    let (key, address, token) = no_clash new rows free in
    record {
      keys = λ i. elim (Bool-cases (new.id == i)) [
        | inl own ↦ ground (arith, own, key)
        | inr other ↦ ground (arith, other, u.keys i)
      ];
      addresses = λ m. elim (Bool-cases (text_eq new.email m)) [
        | inl own ↦
            let q = (text_eq_iff new.email m).0 own in
            let free_too = subst (λ x. countb (by_address x) rows ≡ 0) q address in
            ground (arith, own, free_too)
        | inr other ↦ ground (arith, other, u.addresses m)
      ];
      tokens = λ t. elim (Bool-cases (text_eq new.unsubscribe_token t)) [
        | inl own ↦
            let q = (text_eq_iff new.unsubscribe_token t).0 own in
            let free_too = subst (λ x. countb (by_token x) rows ≡ 0) q token in
            ground (arith, own, free_too)
        | inr other ↦ ground (arith, other, u.tokens t)
      ];
    }

-- Changes by key that keep the keys and the addresses.
same_keys :
    (p : Subscriber → Bool) (f : Subscriber → Subscriber) (i : ℕ) (rows : List Subscriber)
    → ((s : Subscriber) → (f s).id ≡ s.id)
    → countb (by_key i) (map (λ s. if p s then f s else s) rows) ≡ countb (by_key i) rows
same_keys p f i [] h = refl
same_keys p f i (s ∷ rows) h = ground (arith, h s, same_keys p f i rows h)

same_addresses :
    (p : Subscriber → Bool) (f : Subscriber → Subscriber) (m : Text) (rows : List Subscriber)
    → ((s : Subscriber) → (f s).email ≡ s.email)
    → countb (by_address m) (map (λ s. if p s then f s else s) rows) ≡ countb (by_address m) rows
same_addresses p f m [] h = refl
same_addresses p f m (s ∷ rows) h = ground (arith, h s, same_addresses p f m rows h)

same_tokens :
    (p : Subscriber → Bool) (f : Subscriber → Subscriber) (t : Text) (rows : List Subscriber)
    → ((s : Subscriber) → (f s).unsubscribe_token ≡ s.unsubscribe_token)
    → countb (by_token t) (map (λ s. if p s then f s else s) rows) ≡ countb (by_token t) rows
same_tokens p f t [] h = refl
same_tokens p f t (s ∷ rows) h = ground (arith, h s, same_tokens p f t rows h)

-- A row that gets a token which no other row has.
new_token :
    (id : ℕ) (token t : Text) (rows : List Subscriber)
    → countb (λ s. by_token token s && not (by_key id s)) rows ≡ 0
    → countb (by_token t) (map (λ s. if by_key id s then reactivate token s else s) rows)
      ≤ (if text_eq token t then countb (by_key id) rows else countb (by_token t) rows)
new_token id token t [] free = ground arith
new_token id token t (s ∷ rows) free =
    ground (arith, new_token id token t rows, text_eq_iff token t, text_eq_refl token)

pub reactivate-IsUnique :
    (id : ℕ) (token : Text) (rows : List Subscriber)
    → countb (λ s. by_token token s && not (by_key id s)) rows ≡ 0
    → IsUnique rows
    → IsUnique (map (λ s. if by_key id s then reactivate token s else s) rows)
reactivate-IsUnique id token rows free u = record {
  keys = λ i. omega (arith, u.keys i, same_keys (by_key id) (reactivate token) i rows (λ s. refl));
  addresses = λ m.
      omega
        (arith, u.addresses m, same_addresses (by_key id) (reactivate token) m rows (λ s. refl));
  tokens = λ t. ground (arith, u.tokens t, u.keys id, new_token id token t rows free);
}

pub deactivate-IsUnique :
    (id now : ℕ) (rows : List Subscriber)
    → IsUnique rows
    → IsUnique (map (λ s. if by_key id s then deactivate now s else s) rows)
deactivate-IsUnique id now rows u = record {
  keys = λ i. omega (arith, u.keys i, same_keys (by_key id) (deactivate now) i rows (λ s. refl));
  addresses = λ m.
      omega (arith, u.addresses m, same_addresses (by_key id) (deactivate now) m rows (λ s. refl));
  tokens =
      λ t. omega (arith, u.tokens t, same_tokens (by_key id) (deactivate now) t rows (λ s. refl));
}

module _ (e : Env) where
  abbrev pub rows_of : e.subscribers.State → List Subscriber
  rows_of = e.subscribers.rows

  module _ (race : e.subscribers.State → e.subscribers.State) (email : Text) (w : World e) where
    -- The three ways in which the committed rows may change.
    subscribe_effect :
        w.durable ≡ w.db
        → let s = (subscribe e race email w).1.durable in
          (s ≡ w.db)
          ⊎ (s ≡ race w.db)
          ⊎ ((new : Subscriber) × (countb (clashes new) (rows_of (race w.db)) ≡ 0)
              × (s ≡ e.subscribers.insert new (race w.db)))
          ⊎ ((id : ℕ) × (token : Text) × (countb
                  (λ s. by_token token s && not (by_key id s))
                  (rows_of (race w.db))
                ≡ 0)
              × (s ≡ e.subscribers.update (by_key id) (reactivate token) (race w.db)))
    unfolding subscribe subscribe_found subscribe_new subscribe_again
    subscribe_effect clean = elim (Option-cases (e.subscribers.first (by_address email) w.db)) [
      | inl gone ↦
          let new : Subscriber = record {
            id = e.uuid (suc w.draws);
            email = email;
            is_active = true;
            unsubscribe_token = e.token_hex w.draws;
            subscribed_at = w.clock;
            unsubscribed_at = none;
          } in
          elim (Bool-cases (e.subscribers.count (clashes new) (race w.db) == 0)) [
            | inl free ↦ inr (
                inr (
                  inl (
                    new,
                    ground (arith, e.subscribers.count-rows (clashes new) (race w.db), free),
                    ground (arith, gone, free),
                  )))
            | inr taken ↦ elim (Option-cases (e.subscribers.first (by_address email) (race w.db))) [
              | inl lost ↦ inr (inl (ground (arith, gone, taken, lost)))
              | inr (other, found) ↦ inr (inl (ground (arith, gone, taken, found)))
            ]
          ]
      | inr (old, found) ↦ elim (Bool-cases old.is_active) [
        | inl on ↦ inl (ground (arith, found, on))
        | inr off ↦ again old found off
      ]
    ]
      where
        again :
            (old : Subscriber)
            → e.subscribers.first (by_address email) w.db ≡ some old
            → old.is_active ≡ false
            → let s = (subscribe e race email w).1.durable in
              (s ≡ w.db)
              ⊎ (s ≡ race w.db)
              ⊎ ((new : Subscriber) × (countb (clashes new) (rows_of (race w.db)) ≡ 0)
                  × (s ≡ e.subscribers.insert new (race w.db)))
              ⊎ ((id : ℕ) × (token : Text) × (countb
                      (λ s. by_token token s && not (by_key id s))
                      (rows_of (race w.db))
                    ≡ 0)
                  × (s ≡ e.subscribers.update (by_key id) (reactivate token) (race w.db)))
        again old found off =
            let token = e.token_hex w.draws in
            let p = λ (s : Subscriber). by_token token s && not (by_key old.id s) in
            let changed = e.subscribers.update (by_key old.id) (reactivate token) (race w.db) in
            elim (Bool-cases (e.subscribers.count p (race w.db) == 0)) [
              | inl free ↦
                  let none_else : countb p (rows_of (race w.db)) ≡ 0 =
                    ground (arith, e.subscribers.count-rows p (race w.db), free) in
                  elim (Option-cases (e.subscribers.first (by_key old.id) changed)) [
                    | inl lost ↦ inr (
                        inr
                          (inr (old.id, token, none_else, ground (arith, found, off, free, lost))))
                    | inr (s, back) ↦ inr (
                        inr
                          (inr (old.id, token, none_else, ground (arith, found, off, free, back))))
                  ]
              | inr taken ↦
                  elim (Option-cases (e.subscribers.first (by_address email) (race w.db))) [
                    | inl lost ↦ inr (inl (ground (arith, found, off, taken, lost)))
                    | inr (other, there) ↦ inr (inl (ground (arith, found, off, taken, there)))
                  ]
            ]

    -- If nothing is uncommitted, identifiers, addresses and tokens of the subscribers are unique,
    -- and what other transactions commit between the SELECT and the commit keeps them so, then they
    -- are unique in what is committed after `subscribe`, however it ends.
    pub subscribe-IsUnique :
        w.durable ≡ w.db
        → ((s : e.subscribers.State) → IsUnique (rows_of s) → IsUnique (rows_of (race s)))
        → IsUnique (rows_of w.db)
        → IsUnique (rows_of (subscribe e race email w).1.durable)
    subscribe-IsUnique clean fair u =
        let raced = fair w.db u in
        elim (subscribe_effect clean) [
          | inl same ↦ rw same u
          | inr (inl kept) ↦ rw kept raced
          | inr (inr (inl (new, free, added))) ↦
              rw (added, e.subscribers.rows-insert)
                (insert-IsUnique new (rows_of (race w.db)) free raced)
          | inr (inr (inr (id, token, free, changed))) ↦
              rw (changed, e.subscribers.rows-update)
                (reactivate-IsUnique id token (rows_of (race w.db)) free raced)
        ]
