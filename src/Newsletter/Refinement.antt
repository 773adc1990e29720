-- ===== src/Newsletter/Refinement.antt =====
-- The newsletter as a map from addresses to tokens, and its calls as steps of that map.
use social_badge_api.Common.{
  ℕ, suc, ◌≤◌, ◌≡◌, ◌∙◌, sym, refl, inl, inr, Bool, true, false, not, ◌&&◌, Option, none, some,
  List, [], ◌∷◌, map, Text, countb, countb-pos, countb_none, Member, text_eq, text_eq_iff,
  text_eq_refl, ◌==◌, ==_refl, Option-cases, Bool-cases, if◌then◌else◌, unique-Member, arith,
}
use mathlib.Core.Path.{subst}
use social_badge_api.Platform.Table.{first_is, first-update}
use social_badge_api.Common.Exec.{ok}
use social_badge_api.Newsletter.{
  Subscriber, Env, World, by_address, by_token, by_key, clashes, reactivate, deactivate, subscribe,
  subscribe_found, subscribe_new, subscribe_again, unsubscribe, unsubscribe_found,
}
use social_badge_api.Newsletter.Unique.{IsUnique}

-- The token of the active row of an address.
abbrev pub token_of : Text → List Subscriber → Option Text
token_of m [] = none
token_of m (s ∷ rows) =
    let rest = token_of m rows in
    if by_address m s && s.is_active then some s.unsubscribe_token else rest

-- Whoever unsubscribes by a token leaves the addresses with other tokens.
abbrev pub without : Text → Option Text → Option Text
without t none = none
without t (some u) = if text_eq u t then none else some u

no_token :
    (m : Text) (rows : List Subscriber) → countb (by_address m) rows ≡ 0 → token_of m rows ≡ none
no_token m [] h = refl
no_token m (s ∷ rows) h = ground (arith, no_token m rows)

-- A change by key that leaves the other addresses alone.
untouched :
    (old : Subscriber) (f : Subscriber → Subscriber) (m : Text) (rows : List Subscriber)
    → ((s : Subscriber) → (f s).email ≡ s.email)
    → text_eq old.email m ≡ false
    → ((s : Subscriber) → Member s rows → by_key old.id s ≡ true → s ≡ old)
    → token_of m (map (λ s. if by_key old.id s then f s else s) rows) ≡ token_of m rows
untouched old f m [] same ne only = refl
untouched old f m (s ∷ rows) same ne only =
    let rest = untouched old f m rows same ne (λ x n. only x (inr n)) in
    elim (Bool-cases (by_key old.id s)) [
      | inl hit ↦ ground (arith, hit, rest, same s, only s (inl refl) hit, ne)
      | inr miss ↦ ground (arith, miss, rest)
    ]

-- A row that is active again.
reactivated :
    (old : Subscriber) (token : Text) (rows : List Subscriber)
    → countb (by_address old.email) rows ≤ 1
    → Member old rows
    → ((s : Subscriber) → Member s rows → by_key old.id s ≡ true → s ≡ old)
    → token_of old.email (map (λ s. if by_key old.id s then reactivate token s else s) rows)
      ≡ some token
reactivated old token [] one n only = elim n [ ]
reactivated old token (s ∷ rows) one (inl e) only =
    rw (sym e) (ground (arith, ==_refl old.id, text_eq_refl old.email))
reactivated old token (s ∷ rows) one (inr n) only =
    let rest = reactivated old token rows (ground (arith, one)) n (λ x k. only x (inr k)) in
    let later = countb-pos (by_address old.email) old rows n (text_eq_refl old.email) in
    let apart : by_address old.email s ≡ false = ground (arith, one, later) in
    ground (arith, apart, rest)

deactivated :
    (old : Subscriber) (now : ℕ) (m : Text) (rows : List Subscriber)
    → countb (by_address m) rows ≤ 1
    → ((s : Subscriber) → Member s rows → by_key old.id s ≡ true → s ≡ old)
    → ((s : Subscriber) → Member s rows → by_token old.unsubscribe_token s ≡ true → s ≡ old)
    → token_of m (map (λ s. if by_key old.id s then deactivate now s else s) rows)
      ≡ without old.unsubscribe_token (token_of m rows)
deactivated old now m [] one keys tokens = refl
deactivated old now m (s ∷ rows) one keys tokens =
    let rest =
      deactivated old now m rows (ground (arith, one)) (λ x n. keys x (inr n))
        (λ x n. tokens x (inr n)) in
    let alone : by_address m s ≡ true → token_of m rows ≡ none =
      λ h. no_token m rows (ground (arith, one, h)) in
    elim (Bool-cases (by_key old.id s)) [
      | inl hit ↦ rw (keys s (inl refl) hit) (
          ground (
            arith,
            ==_refl old.id,
            rest,
            keys s (inl refl) hit,
            alone,
            text_eq_refl old.unsubscribe_token,
          ))
      | inr miss ↦ ground (arith, miss, rest, alone, tokens s (inl refl), ==_refl old.id)
    ]

-- A token that no active row has is of no address.
unused :
    (t m : Text) (rows : List Subscriber)
    → ((s : Subscriber) → Member s rows → by_token t s ≡ true → s.is_active ≡ false)
    → without t (token_of m rows) ≡ token_of m rows
unused t m [] h = refl
unused t m (s ∷ rows) h = ground (arith, h s (inl refl), unused t m rows (λ x n. h x (inr n)))

dormant :
    (m : Text) (rows : List Subscriber)
    → ((s : Subscriber) → Member s rows → by_address m s ≡ true → s.is_active ≡ false)
    → token_of m rows ≡ none
dormant m [] h = refl
dormant m (s ∷ rows) h = ground (arith, h s (inl refl), dormant m rows (λ x n. h x (inr n)))

module _ (e : Env) where
  -- The abstract state: who is subscribed, and by which token they unsubscribe.
  abbrev pub view : World e → Text → Option Text
  view w m = token_of m (e.subscribers.rows w.durable)

  module _ (w : World e) (u : IsUnique (e.subscribers.rows w.db)) (clean : w.durable ≡ w.db) where
    same_row :
        (old : Subscriber) (s : Subscriber)
        → Member old (e.subscribers.rows w.db)
        → Member s (e.subscribers.rows w.db)
        → by_key old.id s ≡ true
        → s ≡ old
    same_row old s m n h =
        unique-Member (by_key old.id) s old (e.subscribers.rows w.db) (u.keys old.id) n m h
          (==_refl old.id)

    same_token :
        (old : Subscriber) (s : Subscriber)
        → Member old (e.subscribers.rows w.db)
        → Member s (e.subscribers.rows w.db)
        → by_token old.unsubscribe_token s ≡ true
        → s ≡ old
    same_token old s m n h =
        unique-Member (by_token old.unsubscribe_token) s old (e.subscribers.rows w.db)
          (u.tokens old.unsubscribe_token) n m h (text_eq_refl old.unsubscribe_token)

    unsubscribe_off :
        (now : ℕ) (old : Subscriber) (m : Text)
        → Member old (e.subscribers.rows w.db)
        → token_of m
            (e.subscribers.rows (e.subscribers.update (by_key old.id) (deactivate now) w.db))
          ≡ without old.unsubscribe_token (token_of m (e.subscribers.rows w.db))
    unsubscribe_off now old m n = rw e.subscribers.rows-update (
        deactivated old now m (e.subscribers.rows w.db) (u.addresses m) (λ s k. same_row old s n k)
          (λ s k. same_token old s n k))

    -- If identifiers, addresses and tokens of the rows are unique and nothing is uncommitted,
    -- unsubscribing with a token takes exactly the address that has it out of the abstract
    -- newsletter, and succeeds with the answer whether a row has the token.
    pub unsubscribe_refines :
        (token m : Text)
        → let (result, w') = unsubscribe e token w in
          (view w' m ≡ without token (view w m))
          × (result ≡ ok (not (e.subscribers.count (by_token token) w.db == 0)))
    unfolding unsubscribe unsubscribe_found
    unsubscribe_refines token m = elim (Option-cases (e.subscribers.first (by_token token) w.db)) [
      | inl gone ↦
          let free : countb (by_token token) (e.subscribers.rows w.db) ≡ 0 =
            countb_none (by_token token) (e.subscribers.rows w.db)
              (e.subscribers.first-none (by_token token) w.db gone) in
          let none_active = unused token m (e.subscribers.rows w.db) (λ s n h.
            absurd
              (omega (arith, free, countb-pos (by_token token) s (e.subscribers.rows w.db) n h))) in
          (
            ground (arith, gone, clean, none_active),
            ground (arith, gone, free, e.subscribers.count-rows (by_token token) w.db),
          )
      | inr (old, found) ↦
          let (own, n) = e.subscribers.first-some (by_token token) w.db old found in
          let t = (text_eq_iff old.unsubscribe_token token).0 own in
          let some_row = countb-pos (by_token token) old (e.subscribers.rows w.db) n own in
          elim (Bool-cases old.is_active) [
            | inl on ↦ (
              rw (found, on) (rw (sym t) (unsubscribe_off w.clock old m n ∙ rw clean refl)),
              ground (arith, found, on, some_row, e.subscribers.count-rows (by_token token) w.db),
            )
            | inr off ↦
                let none_active =
                  unused token m (e.subscribers.rows w.db)
                    (λ s k h. rw (same_token old s n k (rw t h)) off) in
                (
                  ground (arith, found, off, clean, none_active),
                  ground
                      (arith, found, off, some_row, e.subscribers.count-rows (by_token token) w.db),
                )
          ]
    ]

  resubscribed :
      (email token m : Text) (w : World e) (old : Subscriber)
      → IsUnique (e.subscribers.rows w.db)
      → w.durable ≡ w.db
      → e.subscribers.first (by_address email) w.db ≡ some old
      → token_of m
          (e.subscribers.rows (e.subscribers.update (by_key old.id) (reactivate token) w.db))
        ≡ (if text_eq email m then some token else token_of m (e.subscribers.rows w.db))
  resubscribed email token m w old u clean found =
      let (own, n) = e.subscribers.first-some (by_address email) w.db old found in
      let mail = (text_eq_iff old.email email).0 own in
      let rows = e.subscribers.rows w.db in
      let only : (s : Subscriber) → Member s rows → by_key old.id s ≡ true → s ≡ old =
        λ s k g. same_row w u clean old s n k g in
      rw e.subscribers.rows-update (elim (Bool-cases (text_eq email m)) [
        | inl mine ↦ rw mine (
            subst
              (λ x.
                token_of x (map (λ s. if by_key old.id s then reactivate token s else s) rows)
                ≡ some token)
              (mail ∙ (text_eq_iff email m).0 mine)
              (reactivated old token rows (u.addresses old.email) n only))
        | inr other ↦
            rw other (untouched old (reactivate token) m rows (λ s. refl) (rw mail other) only)
      ])

  subscribe_dormant :
      (email m : Text) (w w' : World e) (b : Subscriber) (new : Bool) (old : Subscriber)
      → IsUnique (e.subscribers.rows w.db)
      → w.durable ≡ w.db
      → e.subscribers.first (by_address email) w.db ≡ some old
      → old.is_active ≡ false
      → subscribe e (λ s. s) email w ≡ (ok (b, new), w')
      → (view w' m ≡ (if new && text_eq email m then some b.unsubscribe_token else view w m))
        × ((if new then view w email else none) ≡ none)
  unfolding subscribe subscribe_found subscribe_again
  subscribe_dormant email m w w' b new old u clean found off h =
      let (own, n) = e.subscribers.first-some (by_address email) w.db old found in
      let token = e.token_hex w.draws in
      let rows = e.subscribers.rows w.db in
      let p = λ (s : Subscriber). by_token token s && not (by_key old.id s) in
      let changed = e.subscribers.update (by_key old.id) (reactivate token) w.db in
      let back : e.subscribers.first (by_key old.id) changed ≡ some (reactivate token old) =
        first-update e.subscribers (by_key old.id) (reactivate token) w.db old (u.keys old.id)
          (first_is e.subscribers (by_key old.id) w.db old (u.keys old.id) n (==_refl old.id))
          (==_refl old.id) in
      let asleep : token_of email rows ≡ none = dormant email rows (λ s k g.
        rw (unique-Member (by_address email) s old rows (u.addresses email) k n g own) off) in
      elim (Bool-cases (e.subscribers.count p w.db == 0)) [
        | inr taken ↦
            (ground (arith, found, off, taken, clean), ground (arith, found, off, taken, clean))
        | inl free ↦
            let stored : w'.durable ≡ changed = ground (arith, found, off, free, back) in
            let made : new ≡ true = ground (arith, found, off, free, back) in
            let same : b.unsubscribe_token ≡ token = ground (arith, found, off, free, back) in
            let seen = resubscribed email token m w old u clean found in
            (
              rw stored (ground (arith, seen, made, same, clean)),
              ground (arith, made, clean, asleep),
            )
      ]

  -- If identifiers, addresses and tokens of the rows are unique, nothing is uncommitted, and no
  -- other transaction interferes, a subscription that returns acts on the abstract newsletter, the
  -- map from the subscribed addresses to their tokens: where it reports a new subscription, the
  -- address was not subscribed and is now, with the token of the returned row, and else nothing
  -- changes.
  pub subscribe_refines :
      (email m : Text) (w w' : World e) (b : Subscriber) (new : Bool)
      → IsUnique (e.subscribers.rows w.db)
      → w.durable ≡ w.db
      → subscribe e (λ s. s) email w ≡ (ok (b, new), w')
      → (view w' m ≡ (if new && text_eq email m then some b.unsubscribe_token else view w m))
        × ((if new then view w email else none) ≡ none)
  unfolding subscribe subscribe_found subscribe_new subscribe_again
  subscribe_refines email m w w' b new u clean h =
      elim (Option-cases (e.subscribers.first (by_address email) w.db)) [
        | inl gone ↦
            let new_row : Subscriber = record {
              id = e.uuid (suc w.draws);
              email = email;
              is_active = true;
              unsubscribe_token = e.token_hex w.draws;
              subscribed_at = w.clock;
              unsubscribed_at = none;
            } in
            let nobody = no_token email (e.subscribers.rows w.db) (
              countb_none (by_address email) (e.subscribers.rows w.db)
                (e.subscribers.first-none (by_address email) w.db gone)) in
            elim (Bool-cases (e.subscribers.count (clashes new_row) w.db == 0)) [
              | inl free ↦
                  let stored : w'.durable ≡ e.subscribers.insert new_row w.db =
                    ground (arith, gone, free) in
                  let made : new ≡ true = ground (arith, gone, free) in
                  let same : b ≡ new_row = ground (arith, gone, free) in
                  (
                    rw (stored, e.subscribers.rows-insert) (ground (arith, made, same, clean)),
                    ground (arith, made, clean, nobody),
                  )
              | inr taken ↦ absurd (ground (arith, gone, taken, clean))
            ]
        | inr (old, found) ↦ elim (Bool-cases old.is_active) [
          | inl on ↦ (ground (arith, found, on), ground (arith, found, on))
          | inr off ↦ subscribe_dormant email m w w' b new old u clean found off h
        ]
      ]
