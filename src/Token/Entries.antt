-- ===== src/Token/Entries.antt =====
-- What each call of app/core/token.py leaves in Redis, key by key.
use social_badge_api.Common.{
  ℕ, ◌+◌, ◌*◌, ◌≡◌, ◌∙◌, inl, inr, true, false, Option, none, some, Text, text_eq, truthy,
  Bool-cases, Option-cases, if◌then◌else◌,
}
use social_badge_api.Platform.Redis.{Redis, second, read}
use social_badge_api.Settings.{Settings, token, token_user, render, text_eq-render}
use social_badge_api.Token.{store_verification_token, revoke_previous_verification_token}

-- The deadline that a verification token gets.
abbrev pub token_end : Settings → ℕ → Option ℕ
token_end cfg now = some (now + cfg.verification_token_ttl_minutes * 60 * second)

module _ (cfg : Settings) (r : Redis) where
  open r use {State, entry, get-entry, entry-set, entry-delete}

  pub entry-store_token :
      (h u : Text) (now : ℕ) (s : State) (j : Text)
      → entry (store_verification_token cfg r h u now s) (render (token j)) ≡ (
          if text_eq h j
          then some (record { value = u; deadline = token_end cfg now })
          else entry s (render (token j)))
  unfolding store_verification_token
  entry-store_token h u now s j = simp (entry-set, text_eq-render)

  pub entry-store_user :
      (h u : Text) (now : ℕ) (s : State) (j : Text)
      → entry (store_verification_token cfg r h u now s) (render (token_user j)) ≡ (
          if text_eq u j
          then some (record { value = h; deadline = token_end cfg now })
          else entry s (render (token_user j)))
  unfolding store_verification_token
  entry-store_user h u now s j = simp (entry-set, text_eq-render)

  -- The hash that the index holds for a user.
  abbrev pub indexed : Text → ℕ → State → Option Text
  indexed u now s = read now (entry s (render (token_user u)))

  pub revoke_none :
      (u : Text) (now : ℕ) (s : State)
      → indexed u now s ≡ none
      → revoke_previous_verification_token cfg r u now s ≡ s
  unfolding revoke_previous_verification_token
  revoke_none u now s h =
      let e = get-entry (render (token_user u)) now s ∙ h in
      rw (e, revoke_previous_verification_token)

  pub revoke_empty :
      (u : Text) (now : ℕ) (s : State) (old : Text)
      → indexed u now s ≡ some old
      → truthy old ≡ false
      → revoke_previous_verification_token cfg r u now s ≡ s
  unfolding revoke_previous_verification_token
  revoke_empty u now s old h f =
      let e = get-entry (render (token_user u)) now s ∙ h in
      rw (e, revoke_previous_verification_token) (rw f)

  pub entry-revoke_token :
      (u : Text) (now : ℕ) (s : State) (old j : Text)
      → indexed u now s ≡ some old
      → truthy old ≡ true
      → entry (revoke_previous_verification_token cfg r u now s) (render (token j))
        ≡ (if text_eq old j then none else entry s (render (token j)))
  unfolding revoke_previous_verification_token
  entry-revoke_token u now s old j h t =
      let e = get-entry (render (token_user u)) now s ∙ h in
      rw (e, revoke_previous_verification_token) (rw t (simp (entry-delete, text_eq-render)))

  -- Other users' index entries, and every key outside the two namespaces, stay.
  pub entry-revoke_user :
      (u : Text) (now : ℕ) (s : State) (j : Text)
      → text_eq u j ≡ false
      → entry (revoke_previous_verification_token cfg r u now s) (render (token_user j))
        ≡ entry s (render (token_user j))
  unfolding revoke_previous_verification_token
  entry-revoke_user u now s j ne = elim (Option-cases (indexed u now s)) [
    | inl e ↦ rw (revoke_none u now s e)
    | inr (old, h) ↦
        let e = get-entry (render (token_user u)) now s ∙ h in
        rw (e, revoke_previous_verification_token)
          (elim (Bool-cases (truthy old)) [
            | inl t ↦ rw t (simp (entry-delete, text_eq-render) (rw ne))
            | inr f ↦ rw f
          ])
  ]
