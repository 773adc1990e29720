-- ===== src/Auth/Refresh/Families.antt =====
-- A family of refresh tokens has at most one live token, through rotation, reuse and logout.
use social_badge_api.Common.{
  ℕ, suc, ◌≤◌, ◌≡◌, refl, inl, inr, Bool, false, Option, some, List, ◌∷◌, map, Text, ◌==◌, ==_refl,
  countb, countb-map-le, countb-map-lt, Member, Option-cases, Bool-cases, if◌then◌else◌, arith,
}
use social_badge_api.Common.Exec.{Result, ok, err}
use social_badge_api.Ip.{Request}
use social_badge_api.Auth.State.{Env, User, RefreshToken, AuthError, World}
use social_badge_api.Auth.Logout.{revoke, by_hash, by_token_id}
use social_badge_api.Auth.Refresh.{is_live_in, retire, successor, refresh_session}
use social_badge_api.Auth.Refresh.Outcomes.{
  presented, Rotated, refresh-Rotated, refresh_refused, refresh_unknown, refresh_owner,
}

-- At most one live token in each family.
abbrev pub OneLive : List RefreshToken → Type 0
OneLive rows = (f : ℕ) → countb (is_live_in f) rows ≤ 1

-- Revoking some rows makes none live.
pub revoke-OneLive :
    (p : RefreshToken → Bool) (rows : List RefreshToken)
    → OneLive rows
    → OneLive (map (λ t. if p t then revoke t else t) rows)
revoke-OneLive p rows h f = omega (
  arith,
  h f,
  countb-map-le (is_live_in f) (λ t. if p t then revoke t else t) rows (λ t. ground arith),
)

-- A live token that is retired leaves room for its successor.
pub rotate-OneLive :
    (t u : RefreshToken) (now : ℕ) (rows : List RefreshToken)
    → OneLive rows
    → Member t rows
    → t.is_revoked ≡ false
    → u.family_id ≡ t.family_id
    → OneLive (u ∷ map (λ x. if by_token_id t.id x then retire now x else x) rows)
rotate-OneLive t u now rows h m live same f =
    let g : RefreshToken → RefreshToken = λ x. if by_token_id t.id x then retire now x else x in
    elim (Bool-cases (t.family_id == f)) [
      | inl own ↦
          let drop =
            countb-map-lt (is_live_in f) g t rows (λ x. ground arith) m (ground (arith, own, live))
              (ground (arith, ==_refl t.id)) in
          ground (arith, h f, drop)
      | inr other ↦
          let keep = countb-map-le (is_live_in f) g rows (λ x. ground arith) in
          ground (arith, h f, keep, same, other)
    ]

module _ (e : Env) where
  abbrev pub tokens_of : World e → List RefreshToken
  tokens_of w = e.tokens.rows w.db.tokens

  revoke_where-OneLive :
      (p : RefreshToken → Bool) (s : e.tokens.State)
      → OneLive (e.tokens.rows s)
      → OneLive (e.tokens.rows (e.tokens.update p revoke s))
  revoke_where-OneLive p s h = rw (e.tokens.rows-update) (revoke-OneLive p (e.tokens.rows s) h)

  Rotated-OneLive :
      (raw : Text) (access_token : Option Text) (request : Option Request) (w w' : World e)
      (t : RefreshToken) (user : User) (access raw' : Text)
      → presented e raw w ≡ some t
      → Rotated e access_token request t user w w' access raw'
      → OneLive (tokens_of w)
      → OneLive (tokens_of w')
  unfolding successor
  Rotated-OneLive raw access_token request w w' t user access raw' found d h =
      let new = successor e t user.id request w.clock w.draws (suc w.draws) in
      let m = (e.tokens.first-some (by_hash (e.crypto.sha256 raw)) w.db.tokens t found).1 in
      rw (d.stored, e.tokens.rows-insert, e.tokens.rows-update)
        (rotate-OneLive t new w.clock (tokens_of w) h m d.live refl)

  -- If nothing is uncommitted, then whatever is presented, `refresh_session` keeps at most one live token in each family.
  pub refresh-OneLive :
      (raw : Text) (access_token : Option Text) (request : Option Request) (w : World e)
      → w.durable ≡ w.db
      → OneLive (tokens_of w)
      → OneLive (tokens_of (refresh_session e raw access_token request w).1)
  refresh-OneLive raw access_token request w settled h = elim (Option-cases (presented e raw w)) [
    | inl gone ↦ rw (refresh_unknown e raw access_token request w gone) h
    | inr (t, found) ↦ by_result t found (refresh_session e raw access_token request w) refl
  ]
    where
      by_result :
          (t : RefreshToken)
          → presented e raw w ≡ some t
          → (out : Result AuthError (Text × Text) × World e)
          → refresh_session e raw access_token request w ≡ out
          → OneLive (tokens_of out.1)
      by_result t found (ok (access, raw'), w') q =
          let (user, owner) =
            refresh_owner e raw access_token request w w' t (access, raw') found q in
          Rotated-OneLive raw access_token request w w' t user access raw' found
            (refresh-Rotated e raw access_token request w w' t user access raw' found owner q) h
      by_result t found (err x, w') q =
          elim (refresh_refused e raw access_token request w w' t x found q).2 [
            | inl (inl same, kept) ↦ rw same h
            | inl (inr back, kept) ↦ rw (back, settled) h
            | inr (rev, late, stored, done) ↦
                rw stored (revoke_where-OneLive (is_live_in t.family_id) w.db.tokens h)
          ]
