-- ===== src/Auth/Signup/Unique.antt =====
-- `signup`: one account for an address, whatever other transactions do meanwhile, and the token that
-- the new account gets.
use social_badge_api.Common.{
  suc, ◌≤◌, ◌≡◌, refl, inl, inr, ◌⊎◌, Bool, false, none, some, List, [], ◌∷◌, Text, text_eq,
  text_eq_iff, countb, All, Option-cases, Bool-cases, arith, true,
}
use mathlib.Core.Path.{subst}
use social_badge_api.Common.Exec.{ok, err}
use social_badge_api.Token.{generate_token}
use social_badge_api.Token.Index.{reissue}
use social_badge_api.Auth.State.{
  Env, User, email_conflict, verification_email, World, by_email, fits_user,
}
use social_badge_api.Auth.Signup.{SignupRequest, new_user, signup}

module _ (e : Env) where
  -- No address belongs to two accounts.
  abbrev pub UniqueEmails : e.users.State → Type 0
  UniqueEmails s = (m : Text) → countb (by_email e m) (e.users.rows s) ≤ 1

  none_counted :
      (m : Text) (rows : List User)
      → All (λ u. by_email e m u ≡ false) rows
      → countb (by_email e m) rows ≡ 0
  none_counted m [] h = refl
  none_counted m (u ∷ rows) h = ground (arith, none_counted m rows h.1)

  insert-UniqueEmails :
      (user : User) (s : e.users.State)
      → e.users.first (by_email e user.email) s ≡ none
      → UniqueEmails s
      → UniqueEmails (e.users.insert user s)
  insert-UniqueEmails user s gone h m =
      let free = none_counted user.email (e.users.rows s) (e.users.first-none _ s gone) in
      rw e.users.rows-insert (elim (Bool-cases (text_eq user.email m)) [
        | inl same ↦
            let q = (text_eq_iff user.email m).0 same in
            rw same (omega (arith, subst (λ x. countb (by_email e x) (e.users.rows s) ≡ 0) q free))
        | inr other ↦ rw other (h m)
      ])

  module _ (race : e.users.State → e.users.State) (payload : SignupRequest) (w : World e) where
    -- The account that the call adds, if it gets that far.
    abbrev pub candidate : User
    candidate =
        new_user e payload (e.crypto.uuid (suc w.draws)) (e.crypto.hashpw w.draws payload.password)

    signup_users :
        (w.durable ≡ w.db)
        → let s = (signup e race payload w).1.durable.users in
          (s ≡ w.db.users)
          ⊎ (s ≡ race w.db.users)
          ⊎ ((e.users.first (by_email e payload.email) (race w.db.users) ≡ none)
              × (s ≡ e.users.insert candidate (race w.db.users)))
    unfolding signup
    signup_users clean = elim (Option-cases (e.users.first (by_email e payload.email) w.db.users)) [
      | inr (other, found) ↦ inl (ground (arith, found))
      | inl free ↦ elim (Bool-cases (fits_user candidate)) [
        | inr long ↦ inr (inl (ground (arith, free, long)))
        | inl fits ↦
            elim (Option-cases (e.users.first (by_email e payload.email) (race w.db.users))) [
              | inr (other, found) ↦ inr (inl (ground (arith, free, found, fits)))
              | inl gone ↦ inr (inr (gone, ground (arith, free, gone, fits)))
            ]
      ]
    ]

    -- If nothing is uncommitted, no address belongs to two accounts, and what other transactions
    -- commit between the SELECT and the INSERT keeps it so, then the committed users still have no
    -- address twice after `signup`, in each of its outcomes.
    pub signup-UniqueEmails :
        w.durable ≡ w.db
        → ((s : e.users.State) → UniqueEmails s → UniqueEmails (race s))
        → UniqueEmails w.db.users
        → UniqueEmails (signup e race payload w).1.durable.users
    signup-UniqueEmails clean fair h = elim (signup_users clean) [
      | inl same ↦ rw same h
      | inr (inl raced) ↦ rw raced (fair w.db.users h)
      | inr (inr (gone, added)) ↦
          rw added (insert-UniqueEmails candidate (race w.db.users) gone (fair w.db.users h))
    ]

    -- If nothing is uncommitted and the names fit, an address that is taken before the call, or by another
    -- transaction between its SELECT and its INSERT, is a conflict: the call adds no user and no
    -- provider, and neither changes Redis nor sends mail.
    pub signup_conflict :
        w.durable ≡ w.db
        → fits_user candidate ≡ true
        → (other : User)
        → (e.users.first (by_email e payload.email) w.db.users ≡ some other)
          ⊎ (e.users.first (by_email e payload.email) (race w.db.users) ≡ some other)
        → let (result, w') = signup e race payload w in
          (result ≡ err email_conflict)
          × ((w'.durable.users ≡ w.db.users) ⊎ (w'.durable.users ≡ race w.db.users))
          × (w'.durable.providers ≡ w.db.providers)
          × (w'.redis ≡ w.redis)
          × (w'.outbox ≡ w.outbox)
    unfolding signup
    signup_conflict clean fits other h = ground arith

    -- The account of a successful call is unverified; it and its token are there, the token with the
    -- full time to live, whether or not the mail was accepted.
    pub record Registered (user : User) (email_sent : Bool) (w' : World e) : Type 0 where
      pub free : e.users.first (by_email e payload.email) w.db.users ≡ none
      pub account : user ≡ candidate
      pub stored : w'.db.users ≡ e.users.insert user (race w.db.users)
      pub committed : w'.durable ≡ w'.db
      pub linked :
          w'.redis
          ≡ reissue e.cfg e.redis
              (e.crypto.sha256 (e.crypto.token_urlsafe (suc (suc (suc w.draws)))))
              (e.crypto.uuid_text user.id)
              w.clock
              w.redis
      pub mailed :
          email_sent
          ≡ e.smtp w.outbox
              (verification_email payload.email (e.crypto.token_urlsafe (suc (suc (suc w.draws)))))

    -- A sign-up that succeeds found the address free and stored and committed the new, unverified
    -- account on top of what others committed; Redis holds its one verification token, and the
    -- result says whether the mail was accepted.
    pub signup-Registered :
        (user : User) (email_sent : Bool) (w' : World e)
        → signup e race payload w ≡ (ok (user, email_sent), w')
        → Registered user email_sent w'
    unfolding signup generate_token
    signup-Registered user email_sent w' h = ground arith

    -- Where the names fit and neither the table nor another transaction has the address, the call succeeds.
    pub signup_accepts :
        fits_user candidate ≡ true
        → e.users.first (by_email e payload.email) w.db.users ≡ none
        → e.users.first (by_email e payload.email) (race w.db.users) ≡ none
        → (sent : Bool) × ((signup e race payload w).0 ≡ ok (candidate, sent))
    unfolding signup generate_token
    signup_accepts fits free gone = (
      e.smtp w.outbox
          (verification_email payload.email (e.crypto.token_urlsafe (suc (suc (suc w.draws))))),
      ground (arith, fits, free, gone),
    )
