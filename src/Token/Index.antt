-- ===== src/Token/Index.antt =====
-- Verification tokens and their index by user: `revoke_previous_verification_token` followed by
-- `store_verification_token`, as `signup` and `resend_verification_email` call them.
use social_badge_api.Common.{
  ℕ, ◌≤◌, ◌≡◌, ap, inl, inr, true, false, Option, none, some, Text, text_eq, text_eq_iff,
  text_eq_refl, truthy, Bool-cases, Option-cases, arith,
}
use social_badge_api.Platform.Redis.{Redis, Entry, live, read}
use social_badge_api.Settings.{Settings, token, token_user, render}
use social_badge_api.Token.{store_verification_token, revoke_previous_verification_token}
use social_badge_api.Token.Entries.{
  token_end, entry-store_token, entry-store_user, indexed, revoke_none, entry-revoke_token,
  entry-revoke_user, revoke_empty,
}

pub live-earlier :
    (now later : ℕ) (o : Option Entry) (e : Entry)
    → now ≤ later
    → live later o ≡ some e
    → live now o ≡ some e
live-earlier now later o e h = ground arith

pub live-some : (now : ℕ) (o : Option Entry) (e : Entry) → live now o ≡ some e → o ≡ some e
live-some now o e = ground arith

same_deadline :
    (now : ℕ) (o p : Option Entry) (e : Entry) (v : Text)
    → live now o ≡ some e
    → p ≡ some (record { value = v; deadline = e.deadline })
    → read now p ≡ some v
same_deadline now o p e v h q = ground arith

module _ (cfg : Settings) (r : Redis) where
  open r use {State, entry}

  -- A live token is what the index holds for its user, and ends with that entry.
  abbrev pub IsIndexed : ℕ → State → Type 0
  IsIndexed now s =
      (h : Text) (e : Entry)
      → truthy h ≡ true
      → live now (entry s (render (token h))) ≡ some e
      → entry s (render (token_user e.value)) ≡ some (record { value = h; deadline = e.deadline })

  pub IsIndexed-later :
      (now later : ℕ) (s : State) → now ≤ later → IsIndexed now s → IsIndexed later s
  IsIndexed-later now later s le ix h e t l = ix h e t (live-earlier now later _ e le l)

  abbrev pub reissue : Text → Text → ℕ → State → State
  reissue h u now s =
      store_verification_token cfg r h u now (revoke_previous_verification_token cfg r u now s)

  -- The index of a live token's user holds that token.
  indexed_of_live :
      (u j : Text) (now : ℕ) (s : State) (e : Entry)
      → IsIndexed now s
      → truthy j ≡ true
      → live now (entry s (render (token j))) ≡ some e
      → text_eq u e.value ≡ true
      → indexed cfg r u now s ≡ some j
  indexed_of_live u j now s e ix t l same =
      rw ((text_eq_iff u e.value).0 same)
        (same_deadline now _ (entry s (render (token_user e.value))) e j l (ix j e t l))

  -- A token that is live after the old one was revoked was live before, and is not the user's.
  survivor :
      (u j : Text) (now : ℕ) (s : State) (e : Entry)
      → IsIndexed now s
      → truthy j ≡ true
      → live now (entry (revoke_previous_verification_token cfg r u now s) (render (token j)))
        ≡ some e
      → (live now (entry s (render (token j))) ≡ some e) × (text_eq u e.value ≡ false)
  survivor u j now s e ix t l = elim (Option-cases (indexed cfg r u now s)) [
    | inl gone ↦
        let l' = rw (revoke_none cfg r u now s gone) at l in
        (l', not_same l' (λ same. cc (gone, indexed_of_live u j now s e ix t l' same)))
    | inr (old, found) ↦ elim (Bool-cases (truthy old)) [
      | inl full ↦
          let l' = rw (entry-revoke_token cfg r u now s old j found full) at l in
          elim (Bool-cases (text_eq old j)) [
            | inl hit ↦ cc (l', hit)
            | inr miss ↦ (
              rw miss at l',
              not_same (rw miss at l') (λ same. cc (
                indexed_of_live u j now s e ix t (rw miss at l') same,
                found,
                miss,
                text_eq_refl j,
              )),
            )
          ]
      | inr empty ↦
          let l' = rw (revoke_empty cfg r u now s old found empty) at l in
          (l', not_same l' (λ same. cc (indexed_of_live u j now s e ix t l' same, found, t, empty)))
    ]
  ]
    where
      not_same :
          live now (entry s (render (token j))) ≡ some e
          → (text_eq u e.value ≡ true → ⊥)
          → text_eq u e.value ≡ false
      not_same l' no_way = ground (arith, no_way)

  -- Issuing a token anew keeps the index, whatever stood under the keys.
  pub reissue-IsIndexed :
      (h u : Text) (now : ℕ) (s : State) → IsIndexed now s → IsIndexed now (reissue h u now s)
  reissue-IsIndexed h u now s ix j e t l =
      let s' = revoke_previous_verification_token cfg r u now s in
      let l' = rw (entry-store_token cfg r h u now s' j) at l in
      rw (entry-store_user cfg r h u now s' e.value) (elim (Bool-cases (text_eq h j)) [
        | inl hit ↦
            let fresh : Option Entry = some (record { value = u; deadline = token_end cfg now }) in
            let q = live-some now fresh e (rw hit at l') in
            ground (arith, q, text_eq_refl u, text_eq_iff h j, hit)
        | inr miss ↦
            let (old, other) = survivor u j now s e ix t (rw miss at l') in
            rw other (rw (entry-revoke_user cfg r u now s e.value other) (ix j e t old))
      ])

  -- If the index by user is right for every live verification token, then after a token was issued
  -- anew for a user, revoking the earlier one, any token that still reads as that user, then or
  -- later, is the new one.
  pub reissue_only :
      (h u j : Text) (now later : ℕ) (s : State)
      → IsIndexed now s
      → now ≤ later
      → truthy j ≡ true
      → read later (entry (reissue h u now s) (render (token j))) ≡ some u
      → h ≡ j
  reissue_only h u j now later s ix le t found =
      let s' = reissue h u now s in
      let (e, l, v) = live_of later (entry s' (render (token j))) found in
      let q = reissue-IsIndexed h u now s ix j e t (live-earlier now later _ e le l) in
      let q' = rw v at q in
      let own = rw (entry-store_user cfg r h u now _ u) at q' in
      let own' = rw (text_eq_refl u) at own in ap (λ (o : Option Entry). held o h) own'
    where
      held : Option Entry → Text → Text
      held none d = d
      held (some e) d = e.value

      live_of :
          (now : ℕ) (o : Option Entry)
          → read now o ≡ some u
          → (e : Entry) × (live now o ≡ some e) × (e.value ≡ u)
      live_of now o h = ground arith
