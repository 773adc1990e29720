-- ===== src/Profile/Update.antt =====
-- app/services/profile.py: `update_profile` and `change_password`.
use social_badge_api.Common.{
  ℕ, suc, ◌+◌, ◌≤◌, ◌≡◌, ◌∙◌, refl, inl, inr, Bool, true, false, not, ◌&&◌, Option, none, some,
  List, [], ◌∷◌, map, countb-map-le, Text, text_eq, text_eq_iff, countb, ltb, Option-cases,
  Bool-cases, ==_refl, if◌then◌else◌, arith,
}
use mathlib.Core.Path.{subst}
use social_badge_api.Common.Exec.{ok, err}
use social_badge_api.Platform.Table.{first-update}
use social_badge_api.Auth.State.{
  Env, User, World, invalid_credentials, integrity_error, by_id, by_email,
}
use social_badge_api.Auth.Signup.Unique.{UniqueEmails}
use social_badge_api.Profile.Deletion.{logout_users, logout_ok}
use social_badge_api.Profile.{
  ProfileUpdates, with_profile, update_profile, knows_password, change_password,
}

module _ {A : Type 0} (p q : A → Bool) (f : A → A) where
  -- Who passes after an update: the others that passed, and the changed ones that do now.
  countb-update :
      (xs : List A)
      → countb q (map (λ x. if p x then f x else x) xs)
        ≡ countb (λ x. q x && not (p x)) xs + countb (λ x. p x && q (f x)) xs
  countb-update [] = refl
  countb-update (x ∷ xs) = ground (arith, countb-update xs)

  countb-and-first : (xs : List A) → countb (λ x. p x && q (f x)) xs ≤ countb p xs
  countb-and-first [] = omega arith
  countb-and-first (x ∷ xs) = ground (arith, countb-and-first xs)

  countb-but : (xs : List A) → countb (λ x. q x && not (p x)) xs ≤ countb q xs
  countb-but [] = omega arith
  countb-but (x ∷ xs) = ground (arith, countb-but xs)

abbrev is_email : Text → Option Text → Bool
is_email m none = false
is_email m (some n) = text_eq n m

module _ (a : Env) (user : User) (updates : ProfileUpdates) (w : World a) where
  abbrev taken : ℕ
  taken =
      let new = with_profile updates user in
      countb (λ u. by_email a new.email u && not (by_id a user.id u)) (a.users.rows w.db.users)

  abbrev updated : a.users.State
  updated = a.users.update (by_id a user.id) (with_profile updates) w.db.users

  still_others :
      (m : Text) (xs : List User)
      → countb
          (λ u. by_email a m u && not (by_id a user.id u))
          (map (λ u. if by_id a user.id u then with_profile updates u else u) xs)
        ≡ countb (λ u. by_email a m u && not (by_id a user.id u)) xs
  still_others m [] = refl
  still_others m (x ∷ xs) = ground (arith, still_others m xs)

  count_others :
      a.users.count
        (λ u. by_email a (with_profile updates user).email u && not (by_id a user.id u))
        updated
      ≡ taken
  count_others =
      a.users.count-rows _ updated
      ∙ rw a.users.rows-update
          (still_others (with_profile updates user).email (a.users.rows w.db.users))

  module _ (one : countb (by_id a user.id) (a.users.rows w.db.users) ≤ 1)
      (found : a.users.first (by_id a user.id) w.db.users ≡ some user) where
    -- The update succeeds unless another user has the new address; then it raises and what is committed stays.
    pub update_profile_lem :
        let (result, w') = update_profile a user updates w in
        (result ≡ (if ltb 0 taken then err integrity_error else ok (with_profile updates user)))
        × (w'.db ≡ w'.durable)
        × (w'.durable.users ≡ (if ltb 0 taken then w.durable.users else updated))
        × (w'.redis ≡ w.redis)
    unfolding update_profile
    update_profile_lem =
        let back =
          first-update a.users (by_id a user.id) (with_profile updates) w.db.users user one found
            (==_refl user.id) in
        let others = count_others in
        elim (Bool-cases (ltb 0 taken)) [
          | inl some_other ↦ (
            ground (arith, others, some_other),
            ground (arith, others, some_other),
            ground (arith, others, some_other),
            ground (arith, others, some_other),
          )
          | inr free ↦ (
            ground (arith, others, free, back),
            ground (arith, others, free, back),
            ground (arith, others, free, back),
            ground (arith, others, free, back),
          )
        ]

    same_address :
        (m : Text) → is_email m updates.email ≡ true → (with_profile updates user).email ≡ m
    same_address m new = elim (Option-cases updates.email) [
      | inl absent ↦ absurd (ground (arith, absent, new))
      | inr (n, given) ↦
          let equal : text_eq n m ≡ true = ground (arith, given, new) in
          rw given ((text_eq_iff n m).0 equal)
    ]

    -- Where no other user has the new address, each address stays with one.
    updated-UniqueEmails :
        (m : Text)
        → ltb 0 taken ≡ false
        → UniqueEmails a w.db.users
        → countb (by_email a m) (a.users.rows updated) ≤ 1
    updated-UniqueEmails m free now =
        let p = by_id a user.id in
        let rows = a.users.rows w.db.users in
        let split = countb-update p (by_email a m) (with_profile updates) rows in
        let few = countb-and-first p (by_email a m) (with_profile updates) rows in
        let less =
          countb-map-le (by_email a m) (λ u. if p u then with_profile updates u else u) rows in
        elim (Bool-cases (is_email m updates.email)) [
          | inl new ↦
              let zero_others : taken ≡ 0 = ground (arith, free) in
              let no_others =
                subst (λ t. countb (λ u. by_email a t u && not (by_id a user.id u)) rows ≡ 0)
                  (same_address m new) zero_others in
              rw a.users.rows-update (omega (arith, split, few, one, no_others))
          | inr other ↦
              rw a.users.rows-update
                (omega (arith, now m, less (λ u. λ h. ground (arith, other, h))))
        ]

    -- If the identifier of the user is that of one row at most, and the addresses are unique in
    -- what is committed and in what the session sees, then the committed addresses are unique after
    -- `update_profile`, whether the new address was free or taken.
    pub update_profile-UniqueEmails :
        UniqueEmails a w.durable.users
        → UniqueEmails a w.db.users
        → UniqueEmails a (update_profile a user updates w).1.durable.users
    update_profile-UniqueEmails durable now m =
        let stored = update_profile_lem.2 in
        elim (Bool-cases (ltb 0 taken)) [
          | inl some_other ↦ rw stored (rw some_other (durable m))
          | inr free ↦ rw stored (rw free (updated-UniqueEmails m free now))
        ]

module _ (a : Env) (user : User) (w : World a) where
  -- The call succeeds exactly with the current password, and then the new hash is committed; else the committed row stays.
  pub change_password-knows :
      (current new : Text) (access refresh : Option Text)
      → a.users.first (by_id a user.id) w.db.users ≡ some user
      → countb (by_id a user.id) (a.users.rows w.db.users) ≤ 1
      → let (result, w') = change_password a user current new access refresh w in
        let hashed = record user { password_hash = some (a.crypto.hashpw w.draws new) } in
        let knows = knows_password a user current in
        (result ≡ (if knows then ok tt else err invalid_credentials))
        × (a.users.first (by_id a user.id) w'.durable.users
            ≡ (if knows then some hashed else a.users.first (by_id a user.id) w.durable.users))
  unfolding change_password
  change_password-knows current new access refresh found one =
      let set : User → User =
        λ u. record u { password_hash = some (a.crypto.hashpw w.draws new) } in
      let back =
        first-update a.users (by_id a user.id) set w.db.users user one found (==_refl user.id) in
      let db' = record w.db { users = a.users.update (by_id a user.id) set w.db.users } in
      let w1 : World a = record w { draws = suc w.draws; db = db'; durable = db' } in
      elim (Bool-cases (knows_password a user current)) [
        | inl right ↦
            rw right
              (logout_ok a refresh access w1, rw (logout_users a refresh access w1 refl) back)
        | inr wrong ↦ rw wrong (refl, refl)
      ]
