-- ===== src/Auth/Refresh/Chain.antt =====
-- A refresh, and what the old and the new token are worth afterwards.
use social_badge_api.Common.{
  ℕ, suc, ◌+◌, ◌*◌, ◌≤◌, ◌≡◌, ◌∙◌, ap, refl, inl, inr, true, false, Option, none, some, ◌∷◌, map,
  Text, text_eq, text_eq_refl, countb, countb_none, Member, Member-map, Bool-cases, ltb, ==_refl,
  if◌then◌else◌, arith, countb-map-le, text_eq_iff,
}
use mathlib.Core.Path.{subst}
use social_badge_api.Common.Exec.{ok, err}
use social_badge_api.Platform.Redis.{second}
use social_badge_api.Platform.Table.{first_is}
use social_badge_api.Token.{create_access_token, create_refresh_token, hash_token}
use social_badge_api.Ip.{Request, get_client_ip}
use social_badge_api.Auth.State.{
  Env, Db, User, RefreshToken, invalid_refresh_token, World, by_id, fits_within,
}
use social_badge_api.Auth.Logout.{by_hash, by_token_id}
use social_badge_api.Auth.Refresh.{retire, client_after, successor, refresh_session}
use social_badge_api.Auth.Refresh.Outcomes.{presented, Rotated, refresh-Rotated, refresh_rotates}

module _ (e : Env) where
  refresh_spent :
      (raw : Text) (access_token : Option Text) (request : Option Request) (w : World e)
      (t : RefreshToken)
      → presented e raw w ≡ some t
      → t.is_revoked ≡ true
      → (refresh_session e raw access_token request w).0 ≡ err invalid_refresh_token
  unfolding refresh_session hash_token
  refresh_spent raw access_token request w t found revoked = ground arith

  module _ (raw : Text) (access_token : Option Text) (request : Option Request) (w : World e)
      (t : RefreshToken) (user : User) (found : presented e raw w ≡ some t)
      (live : t.is_revoked ≡ false) (unexpired : ltb t.expires_at w.clock ≡ false)
      (owner : e.users.first (by_id e t.user_id) w.db.users ≡ some user)
      (fits : fits_within 45 (client_after request t) ≡ true) where
    rotated : World e
    rotated = (refresh_session e raw access_token request w).1

    -- The refresh token that the call returns.
    abbrev issued : Text
    issued = (create_refresh_token e.cfg e.crypto user.id w.clock w.draws).0

    abbrev next_row : RefreshToken
    next_row = successor e t user.id request w.clock w.draws (suc w.draws)

    done :
        Rotated e access_token request t user w rotated
          (create_access_token e.cfg e.crypto user.id w.clock (suc (suc w.draws)))
          issued
    unfolding rotated
    done = refresh-Rotated e raw access_token request w rotated t user _ _ found owner (
        ap (λ r. (r, rotated))
          (refresh_rotates e raw access_token request w t user found live unexpired owner fits))

    retired_rows :
        e.tokens.rows rotated.db.tokens
        ≡ next_row
          ∷ map
              (λ r. if by_token_id t.id r then retire w.clock r else r)
              (e.tokens.rows w.db.tokens)
    retired_rows = rw (done.stored, e.tokens.rows-insert, e.tokens.rows-update) refl

    next_found : presented e issued w ≡ none → presented e issued rotated ≡ some next_row
    unfolding successor hash_token
    next_found fresh =
        let p = by_hash (e.crypto.sha256 issued) in
        let g : RefreshToken → RefreshToken =
          λ r. if by_token_id t.id r then retire w.clock r else r in
        let rows = e.tokens.rows w.db.tokens in
        let zero_rows = countb_none p rows (e.tokens.first-none p w.db.tokens fresh) in
        let le = countb-map-le p g rows (λ r. ground arith) in
        let mine : p next_row ≡ true = text_eq_refl (e.crypto.sha256 issued) in
        first_is e.tokens p rotated.db.tokens next_row
          (rw retired_rows (ground (arith, zero_rows, le, mine))) (rw retired_rows (inl refl)) mine

    other_hash :
        presented e issued w ≡ none → text_eq (e.crypto.sha256 issued) (e.crypto.sha256 raw) ≡ false
    other_hash fresh = elim (Bool-cases (text_eq (e.crypto.sha256 issued) (e.crypto.sha256 raw))) [
      | inl same ↦
          let equal = (text_eq_iff (e.crypto.sha256 issued) (e.crypto.sha256 raw)).0 same in
          let clash : presented e issued w ≡ some t =
            ap (λ h. e.tokens.first (by_hash h) w.db.tokens) equal ∙ found in
          absurd (ground (arith, fresh, clash))
      | inr other ↦ other
    ]

    old_found :
        presented e issued w ≡ none
        → countb (by_hash (e.crypto.sha256 raw)) (e.tokens.rows w.db.tokens) ≤ 1
        → presented e raw rotated ≡ some (retire w.clock t)
    unfolding successor hash_token
    old_found fresh one =
        let p = by_hash (e.crypto.sha256 raw) in
        let g : RefreshToken → RefreshToken =
          λ r. if by_token_id t.id r then retire w.clock r else r in
        let rows = e.tokens.rows w.db.tokens in
        let le = countb-map-le p g rows (λ r. ground arith) in
        let (mine, m) = e.tokens.first-some p w.db.tokens t found in
        let other : p next_row ≡ false = other_hash fresh in
        let image : g t ≡ retire w.clock t = rw (==_refl t.id) refl in
        first_is e.tokens p rotated.db.tokens (retire w.clock t)
          (rw retired_rows (ground (arith, one, le, other)))
          (rw retired_rows (inr (subst (λ r. Member r (map g rows)) image (Member-map g t rows m))))
          mine

    -- If a refresh token has a row, live and not expired, of an existing user, its hash is in no
    -- other row, the address of the client fits its column, and no row holds the new token yet,
    -- then the refresh succeeds, and at any time up to the end of the token that it returns that
    -- one is accepted, from an address that fits, and the presented one is refused.
    pub refresh_moves_on :
        (later : ℕ) (access' : Option Text) (q : Request)
        → presented e issued w ≡ none
        → countb (by_hash (e.crypto.sha256 raw)) (e.tokens.rows w.db.tokens) ≤ 1
        → later ≤ w.clock + e.cfg.refresh_token_expire_days * 86400 * second
        → fits_within 45 (get_client_ip q) ≡ true
        → let (result, w') = refresh_session e raw access_token request w in
          let after = record w' { clock = later } in
          (access raw' access'' raw'' : Text) × (result ≡ ok (access, raw'))
          × ((refresh_session e raw' access' (some q) after).0 ≡ ok (access'', raw''))
          × ((refresh_session e raw access' (some q) after).0 ≡ err invalid_refresh_token)
    unfolding rotated successor create_refresh_token
    refresh_moves_on later access' q fresh one in_time fits' =
        let after : World e = record rotated { clock = later } in
        let kept : rotated.db.users ≡ w.db.users = ap (λ (d : Db e). d.users) done.stored in
        let own = (e.users.first-some (by_id e t.user_id) w.db.users user owner).0 in
        let same_id : user.id ≡ t.user_id = ground (arith, own) in
        let users : e.users.first (by_id e next_row.user_id) after.db.users ≡ some user =
          ap (λ (s : e.users.State). e.users.first (by_id e user.id) s) kept
          ∙ ap (λ id. e.users.first (by_id e id) w.db.users) same_id
          ∙ owner in
        (
          _,
          issued,
          _,
          _,
          refresh_rotates e raw access_token request w t user found live unexpired owner fits,
          refresh_rotates e issued access' (some q) after next_row user (next_found fresh) refl
              (ground (arith, in_time)) users fits',
          refresh_spent raw access' (some q) after (retire w.clock t) (old_found fresh one) refl,
        )
