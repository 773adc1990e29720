-- ===== src/Auth/Google/Upsert.antt =====
-- Whom a Google account signs in.
use social_badge_api.Common.{
  ℕ, suc, ◌≤◌, ◌≡◌, refl, inl, inr, Bool, true, false, none, some, countb, text_eq_refl, ==_refl,
  countb_none, codes, Option-cases, arith,
}
use social_badge_api.Common.Exec.{ok, err}
use social_badge_api.Platform.Table.{first_is, first-update}
use social_badge_api.Auth.State.{Env, User, AuthProvider, google_oauth, World, by_email, by_id}
use social_badge_api.Auth.Answers.{GoogleUser}
use social_badge_api.Auth.Google.{
  by_subject, google_user, adopt, is_pending, link, upsert_google_user, upsert_known, link_account,
  add_link,
}

module _ (e : Env) (info : GoogleUser) (w : World e) where
  -- A Google account that is not linked, and whose address is that of an account with a password
  -- that is not verified, is refused with the status 409, and nothing changes.
  pub upsert_pending :
      (user : User)
      → e.providers.first (by_subject info.subject) w.db.providers ≡ none
      → e.users.first (by_email e info.email) w.db.users ≡ some user
      → is_pending user ≡ true
      → upsert_google_user e info w ≡ (err (google_oauth 409), w)
  unfolding upsert_google_user upsert_known link_account
  upsert_pending user unlinked found pending = ground (arith, unlinked, found, pending)

  -- A linked Google account is signed in as the user of the link, and no row changes.
  pub upsert_linked :
      (provider : AuthProvider) (user : User)
      → e.providers.first (by_subject info.subject) w.db.providers ≡ some provider
      → e.users.first (by_id e provider.user_id) w.db.users ≡ some user
      → let (result, w') = upsert_google_user e info w in
        (result ≡ ok (user, false)) × (w'.db ≡ w.db) × (w'.durable ≡ w.db)
  unfolding upsert_google_user upsert_known
  upsert_linked provider user linked found =
      (ground (arith, linked, found), ground (arith, linked, found), ground (arith, linked, found))

  -- The link that was added is the one that the account selects.
  link_found :
      (user_id id : ℕ)
      → e.providers.first (by_subject info.subject) w.db.providers ≡ none
      → e.providers.first
          (by_subject info.subject)
          (e.providers.insert (link e info.subject user_id id) w.db.providers)
        ≡ some (link e info.subject user_id id)
  link_found user_id id unlinked =
      let p = by_subject info.subject in
      let s = w.db.providers in
      let new = link e info.subject user_id id in
      let free = countb_none p (e.providers.rows s) (e.providers.first-none p s unlinked) in
      let mine : p new ≡ true =
        ground (arith, text_eq_refl (codes "google"), text_eq_refl info.subject) in
      first_is e.providers p (e.providers.insert new s) new
        (rw e.providers.rows-insert (ground (arith, free, mine)))
        (rw e.providers.rows-insert (inl refl)) mine

  new_found :
      (id : ℕ)
      → countb (by_id e id) (e.users.rows w.db.users) ≡ 0
      → e.users.first (by_id e id) (e.users.insert (google_user info id) w.db.users)
        ≡ some (google_user info id)
  new_found id free =
      first_is e.users (by_id e id) (e.users.insert (google_user info id) w.db.users)
        (google_user info id) (rw e.users.rows-insert (ground (arith, free, ==_refl id)))
        (rw e.users.rows-insert (inl refl)) (==_refl id)

  adopted_found :
      (user : User)
      → countb (by_id e user.id) (e.users.rows w.db.users) ≤ 1
      → e.users.first (by_email e info.email) w.db.users ≡ some user
      → e.users.first
          (by_id e user.id)
          (e.users.update (by_id e user.id) (adopt info.picture) w.db.users)
        ≡ some (adopt info.picture user)
  adopted_found user one found =
      let m = (e.users.first-some (by_email e info.email) w.db.users user found).1 in
      first-update e.users (by_id e user.id) (adopt info.picture) w.db.users user one
        (first_is e.users (by_id e user.id) w.db.users user one m (==_refl user.id))
        (ground (arith, ==_refl user.id))

  -- If user identifiers are unique and the next one is free, then after a Google account signed in,
  -- a second call with the same account gives the same user, who is then not new; the first call is
  -- committed.
  pub upsert_again :
      (user : User) (is_new : Bool) (w' : World e)
      → ((i : ℕ) → countb (by_id e i) (e.users.rows w.db.users) ≤ 1)
      → countb (by_id e (e.crypto.uuid w.draws)) (e.users.rows w.db.users) ≡ 0
      → upsert_google_user e info w ≡ (ok (user, is_new), w')
      → ((upsert_google_user e info w').0 ≡ ok (user, false)) × (w'.durable ≡ w'.db)
  unfolding upsert_google_user upsert_known link_account add_link
  upsert_again user is_new w' one free h =
      elim (Option-cases (e.providers.first (by_subject info.subject) w.db.providers)) [
        | inr (provider, linked) ↦
            elim (Option-cases (e.users.first (by_id e provider.user_id) w.db.users)) [
              | inl gone ↦ absurd (ground (arith, linked, gone))
              | inr (u, found) ↦ (ground (arith, linked, found), ground (arith, linked, found))
            ]
        | inl unlinked ↦ elim (Option-cases (e.users.first (by_email e info.email) w.db.users)) [
          | inl nobody ↦
              let id = e.crypto.uuid w.draws in
              let l = link_found id (e.crypto.uuid (suc w.draws)) unlinked in
              let n = new_found id free in
              (ground (arith, unlinked, nobody, l, n), ground (arith, unlinked, nobody))
          | inr (u, found) ↦
              let l = link_found u.id (e.crypto.uuid w.draws) unlinked in
              let n = adopted_found u (one u.id) found in
              (ground (arith, unlinked, found, l, n), ground (arith, unlinked, found))
        ]
      ]
