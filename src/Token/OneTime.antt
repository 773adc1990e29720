-- ===== src/Token/OneTime.antt =====
-- Tokens that Redis hands out once: password resets, OAuth states, verification links; and the
-- blacklist of access tokens.
use social_badge_api.Common.{
  ℕ, ◌+◌, ◌*◌, ◌≡◌, inl, inr, Bool-cases, Option-cases, text_eq, true, false, Option, none, some,
  Text, text_eq_refl, truthy, ltb, if◌then◌else◌, arith,
}
use social_badge_api.Platform.Redis.{Redis, second, read}
use social_badge_api.Settings.{Settings, token, render, text_eq-render}
use social_badge_api.Token.Entries.{entry-store_token}
use social_badge_api.Token.{
  store_password_reset_token, get_password_reset_user_id, store_google_oauth_state,
  get_google_oauth_state, get_verified_user_id, store_verification_token, blacklist_token,
  is_token_blacklisted,
}

-- `if user_id:` in `get_verified_user_id`.
abbrev nonempty : Option Text → Option Text
nonempty none = none
nonempty (some u) = if truthy u then some u else none

module _ (cfg : Settings) (r : Redis) where
  open r use {State, entry, entry-set, entry-delete, getdel-value, entry-getdel, exists-entry}

  -- What a stored entry reads as, before and after its deadline.
  read_stored :
      (later d : ℕ) (v : Text)
      → read later (some (record { value = v; deadline = some d }))
        ≡ (if ltb later d then some v else none)
  read_stored later d v = ground arith

  pub reset_token_once :
      (h u : Text) (now later again : ℕ) (s : State)
      → let (found, s') =
          get_password_reset_user_id cfg r h later (store_password_reset_token cfg r h u now s) in
        (found ≡ (
          if ltb later (now + cfg.password_reset_token_ttl_minutes * 60 * second)
          then some u
          else none))
        × ((get_password_reset_user_id cfg r h again s').0 ≡ none)
  unfolding get_password_reset_user_id store_password_reset_token
  reset_token_once h u now later again s = (
    simp (getdel-value, entry-set, text_eq_refl) (read_stored later _ u),
    simp (getdel-value, entry-getdel, text_eq_refl),
  )

  -- A stored OAuth state is accepted until its time to live is over, and once it was checked it is
  -- refused.
  pub oauth_state_once :
      (state : Text) (now later again : ℕ) (s : State)
      → let (valid, s') =
          get_google_oauth_state cfg r state later (store_google_oauth_state cfg r state now s) in
        (valid ≡ ltb later (now + cfg.google_oauth_state_ttl_minutes * 60 * second))
        × ((get_google_oauth_state cfg r state again s').0 ≡ false)
  unfolding get_google_oauth_state store_google_oauth_state
  oauth_state_once state now later again s = (
    simp (getdel-value, entry-set, text_eq_refl) (ground arith),
    simp (getdel-value, entry-getdel, text_eq_refl),
  )

  -- An access token that was blacklisted for a positive number of seconds reads as blacklisted
  -- exactly until they are over; for zero seconds nothing changes.
  pub blacklist_until :
      (jti : Text) (remaining now later : ℕ) (s : State)
      → is_token_blacklisted cfg r jti later (blacklist_token cfg r jti remaining now s) ≡ (
          if ltb 0 remaining
          then ltb later (now + remaining * second)
          else is_token_blacklisted cfg r jti later s)
  unfolding is_token_blacklisted blacklist_token
  blacklist_until jti remaining now later s = elim (Bool-cases (ltb 0 remaining)) [
    | inl pos ↦ rw pos (simp (exists-entry, entry-set, text_eq_refl) (ground arith))
    | inr over ↦ rw over
  ]

  -- Revoking an access token touches no other.
  pub blacklist_other :
      (jti other : Text) (remaining now later : ℕ) (s : State)
      → text_eq jti other ≡ false
      → is_token_blacklisted cfg r other later (blacklist_token cfg r jti remaining now s)
        ≡ is_token_blacklisted cfg r other later s
  unfolding is_token_blacklisted blacklist_token
  blacklist_other jti other remaining now later s ne = elim (Bool-cases (ltb 0 remaining)) [
    | inl pos ↦ rw pos (simp (exists-entry, entry-set, text_eq-render) (rw ne))
    | inr over ↦ rw over
  ]

  verified_value :
      (h : Text) (now : ℕ) (s : State)
      → (get_verified_user_id cfg r h now s).0 ≡ nonempty (read now (entry s (render (token h))))
  unfolding get_verified_user_id
  verified_value h now s = ground (arith, getdel-value (render (token h)) now s)

  entry-get_verified :
      (h : Text) (now : ℕ) (s : State)
      → entry (get_verified_user_id cfg r h now s).1 (render (token h)) ≡ none
  unfolding get_verified_user_id
  entry-get_verified h now s =
      let k = render (token h) in
      let s' = (r.getdel k now s).1 in
      let gone = entry-getdel k now s k in
      elim (Option-cases (r.getdel k now s).0) [
        | inl e ↦ rw (e, get_verified_user_id) (rw gone (simp text_eq_refl))
        | inr (u, e) ↦
            rw (e, get_verified_user_id)
              (elim (Bool-cases (truthy u)) [
                | inl t ↦ rw t (simp (entry-delete, text_eq-render, entry-getdel, text_eq_refl))
                | inr f ↦ rw f (rw gone (simp text_eq_refl))
              ])
      ]

  -- A stored verification token of a user with a nonempty name reads as that user until its time to
  -- live is over, and once it was read it reads as nobody.
  pub verification_once :
      (h u : Text) (now later again : ℕ) (s : State)
      → truthy u ≡ true
      → let (found, s') =
          get_verified_user_id cfg r h later (store_verification_token cfg r h u now s) in
        (found ≡ (
          if ltb later (now + cfg.verification_token_ttl_minutes * 60 * second)
          then some u
          else none))
        × ((get_verified_user_id cfg r h again s').0 ≡ none)
  verification_once h u now later again s t =
      let s1 = store_verification_token cfg r h u now s in
      (
        rw (verified_value h later s1)
            (simp (entry-store_token, text_eq_refl) (rw (read_stored later _ u) (ground arith))),
        rw (verified_value h again _) (rw (entry-get_verified h later s1)),
      )
