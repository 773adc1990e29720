-- ===== src/Auth/Sessions/Invariant.antt =====
-- Every reachable state has at most one live refresh token in each family.
use social_badge_api.Common.{
  ℕ, suc, ◌≤◌, ◌<◌, ◌≡◌, ◌∙◌, refl, inl, inr, ◌⊎◌, Bool, false, Option, some, List, [], ◌∷◌, map,
  Text, ◌==◌, countb, All, All-imp, All-map, All-Member, Option-cases, Bool-cases, if◌then◌else◌,
  arith,
}
use social_badge_api.Common.Exec.{Result, ok, err}
use social_badge_api.Ip.{Request}
use social_badge_api.Auth.State.{Env, User, RefreshToken, AuthError, World, close}
use social_badge_api.Auth.Signin.{LoginRequest, signin, issue}
use social_badge_api.Auth.Signin.Outcomes.{next_session, signin-SignedIn, signin-refused}
use social_badge_api.Auth.Refresh.{is_live_in, retire, refresh_session, successor}
use social_badge_api.Auth.Refresh.Outcomes.{
  presented, refresh-Rotated, refresh_refused, refresh_unknown, refresh_owner,
}
use social_badge_api.Auth.Refresh.Families.{OneLive, tokens_of, refresh-OneLive, revoke-OneLive}
use social_badge_api.Auth.Logout.{
  revoke, by_hash, by_token_id, is_active_of, logout_session, revoke_all_user_sessions,
}
use social_badge_api.Auth.Logout.Effects.{logout_effect}
use social_badge_api.Auth.Sessions.{
  Step, Reach, sign_in, refresh, log_out, log_out_all, wait, here, next,
}

no_live :
    (f : ℕ) (rows : List RefreshToken)
    → All (λ t. (t.family_id == f) ≡ false) rows
    → countb (is_live_in f) rows ≡ 0
no_live f [] h = refl
no_live f (t ∷ rows) h = ground (arith, no_live f rows h.1)

module _ (e : Env) where
  -- The family was one of the identifiers drawn so far.
  abbrev pub IsDrawn : ℕ → RefreshToken → Type 0
  IsDrawn n t = (d : ℕ) × (d < n) × (t.family_id ≡ e.crypto.uuid d)

  pub record IsSound (w : World e) : Type 0 where
    pub one_live : OneLive (tokens_of e w)
    pub drawn : All (IsDrawn w.draws) (tokens_of e w)
    pub settled : w.durable ≡ w.db

  more-IsDrawn :
      (n m : ℕ) (rows : List RefreshToken) → n ≤ m → All (IsDrawn n) rows → All (IsDrawn m) rows
  more-IsDrawn n m rows le =
      All-imp (IsDrawn n) (IsDrawn m) rows (λ t h. (h.0, omega (arith, h.1), h.2))

  same_family :
      (n : ℕ) (p : RefreshToken → Bool) (g : RefreshToken → RefreshToken) (rows : List RefreshToken)
      → ((t : RefreshToken) → (g t).family_id ≡ t.family_id)
      → All (IsDrawn n) rows
      → All (IsDrawn n) (map (λ t. if p t then g t else t) rows)
  same_family n p g rows same =
      All-map (IsDrawn n) (IsDrawn n) (λ t. if p t then g t else t) rows
        (λ t h. (h.0, h.1, ground (arith, same t, h.2)))

  -- A token of a new family.
  add_row :
      (n d : ℕ) (row : RefreshToken) (rows : List RefreshToken)
      → ((a b : ℕ) → e.crypto.uuid a ≡ e.crypto.uuid b → a ≡ b)
      → n ≤ d
      → row.family_id ≡ e.crypto.uuid d
      → All (IsDrawn n) rows
      → OneLive rows
      → OneLive (row ∷ rows)
  add_row n d row rows distinct le fam drawn h f = elim (Bool-cases (row.family_id == f)) [
    | inl own ↦
        let apart =
          All-imp (IsDrawn n) (λ t. (t.family_id == f) ≡ false) rows
            (λ t q. elsewhere t q (ground (arith, own))) drawn in
        ground (arith, no_live f rows apart)
    | inr other ↦ ground (arith, h f, other)
  ]
    where
      elsewhere : (t : RefreshToken) → IsDrawn n t → row.family_id ≡ f → (t.family_id == f) ≡ false
      elsewhere t (k, lt, q) own = ground (arith, distinct k d, own, fam)

  closed-IsSound :
      (w : World e)
      → OneLive (e.tokens.rows w.durable.tokens)
      → All (IsDrawn w.draws) (e.tokens.rows w.durable.tokens)
      → IsSound (record w { db = w.durable })
  closed-IsSound w one drawn = record { one_live = one; drawn = drawn; settled = refl }

  module _ (distinct : (a b : ℕ) → e.crypto.uuid a ≡ e.crypto.uuid b → a ≡ b) (w : World e)
      (h : IsSound w) where
    signin-IsSound : (p : LoginRequest) (q : Option Request) → IsSound (close e (signin e p q) w).1
    unfolding issue
    signin-IsSound p q = by_result (signin e p q w) refl
      where
        by_result :
            (out : Result AuthError (User × Text × Text) × World e)
            → signin e p q w ≡ out
            → IsSound (close e (signin e p q) w).1
        by_result (ok (user, access, raw), w') r =
            let d = signin-SignedIn e p q w w' user access raw r in
            let stored = d.committed ∙ d.stored in
            let s = next_session e w user.id q in
            rw r (
              closed-IsSound w'
                (rw (stored, e.tokens.rows-insert)
                  (add_row w.draws (suc (suc w.draws)) s.row (tokens_of e w) distinct (omega arith)
                    refl h.drawn h.one_live))
                (rw (stored, e.tokens.rows-insert, d.drawn)
                  (
                    (suc (suc w.draws), omega arith, refl),
                    more-IsDrawn w.draws _ (tokens_of e w) (omega arith) h.drawn,
                  )))
        by_result (err x, w') r =
            let (kept, le) = signin-refused e p q w w' x r in
            rw r (
              closed-IsSound w' (rw (kept, h.settled) h.one_live)
                (rw (kept, h.settled) (more-IsDrawn w.draws w'.draws (tokens_of e w) le h.drawn)))

    refresh-IsSound :
        (raw : Text) (access : Option Text) (q : Option Request)
        → IsSound (close e (refresh_session e raw access q) w).1
    unfolding successor
    refresh-IsSound raw access q = elim (Option-cases (presented e raw w)) [
      | inl gone ↦
          rw (refresh_unknown e raw access q w gone)
            (closed-IsSound w (rw h.settled h.one_live) (rw h.settled h.drawn))
      | inr (t, found) ↦ by_result t found (refresh_session e raw access q w) refl
    ]
      where
        one_live :
            (out : Result AuthError (Text × Text) × World e)
            → refresh_session e raw access q w ≡ out
            → OneLive (tokens_of e out.1)
        one_live out r = rw r at (refresh-OneLive e raw access q w h.settled h.one_live)

        by_result :
            (t : RefreshToken)
            → presented e raw w ≡ some t
            → (out : Result AuthError (Text × Text) × World e)
            → refresh_session e raw access q w ≡ out
            → IsSound (close e (refresh_session e raw access q) w).1
        by_result t found (ok (a, b), w') r =
            let (user, owner) = refresh_owner e raw access q w w' t (a, b) found r in
            let d = refresh-Rotated e raw access q w w' t user a b found owner r in
            let m = (e.tokens.first-some (by_hash (e.crypto.sha256 raw)) w.db.tokens t found).1 in
            let (k, lt, fam) = All-Member (IsDrawn w.draws) (tokens_of e w) t h.drawn m in
            rw r (
              closed-IsSound w' (rw d.committed (one_live (ok (a, b), w') r)) (
                rw (d.committed, d.stored, e.tokens.rows-insert, e.tokens.rows-update, d.drawn)
                  (
                    (k, omega arith, fam),
                    same_family _ (by_token_id t.id) (retire w.clock) (tokens_of e w) (λ x. refl)
                        (more-IsDrawn w.draws _ (tokens_of e w) (omega arith) h.drawn),
                  )))
        by_result t found (err x, w') r =
            let f = refresh_refused e raw access q w w' t x found r in
            rw r (elim f.2 [
              | inl (same, kept) ↦
                  closed-IsSound w' (rw (kept, h.settled) h.one_live) (
                    rw (kept, h.settled)
                      (more-IsDrawn w.draws w'.draws (tokens_of e w) f.1 h.drawn))
              | inr (rev, late, stored, done) ↦
                  closed-IsSound w' (rw done (one_live (err x, w') r)) (
                    rw (done, stored, e.tokens.rows-update)
                      (same_family w'.draws (is_live_in t.family_id) revoke (tokens_of e w)
                        (λ y. refl) (more-IsDrawn w.draws w'.draws (tokens_of e w) f.1 h.drawn)))
            ])

    revoking-IsSound :
        (p : RefreshToken → Bool) (w' : World e)
        → w'.draws ≡ w.draws
        → w'.durable.tokens ≡ e.tokens.update p revoke w.db.tokens
        → IsSound (record w' { db = w'.durable })
    revoking-IsSound p w' draws stored =
        closed-IsSound w'
          (rw (stored, e.tokens.rows-update) (revoke-OneLive p (tokens_of e w) h.one_live))
          (rw (stored, e.tokens.rows-update, draws)
            (same_family w.draws p revoke (tokens_of e w) (λ y. refl) h.drawn))

    revoke_all-IsSound :
        (user_id : ℕ) (access : Option Text)
        → IsSound (close e (revoke_all_user_sessions e user_id access) w).1
    unfolding revoke_all_user_sessions
    revoke_all-IsSound user_id access =
        revoking-IsSound (is_active_of user_id w.clock)
          (revoke_all_user_sessions e user_id access w).1 refl refl

    effect-IsSound :
        (w' : World e)
        → w'.draws ≡ w.draws
        → (w'.durable ≡ w.durable)
          ⊎ ((id : ℕ) × (w'.durable.tokens ≡ e.tokens.update (by_token_id id) revoke w.db.tokens))
        → IsSound (record w' { db = w'.durable })
    effect-IsSound w' draws (inl kept) =
        closed-IsSound w' (rw (kept, h.settled) h.one_live) (rw (kept, h.settled, draws) h.drawn)
    effect-IsSound w' draws (inr (id, stored)) = revoking-IsSound (by_token_id id) w' draws stored

    logout-IsSound :
        (raw access : Option Text) → IsSound (close e (logout_session e raw access) w).1
    logout-IsSound raw access =
        let (draws, tokens) = logout_effect e raw access w in
        effect-IsSound (logout_session e raw access w).1 draws tokens

  -- Each step of the environment keeps the invariant.
  pub Step-IsSound :
      ((a b : ℕ) → e.crypto.uuid a ≡ e.crypto.uuid b → a ≡ b)
      → {v w : World e} → Step e v w
      → IsSound v
      → IsSound w
  Step-IsSound distinct {v} (sign_in p q) h = signin-IsSound distinct v h p q
  Step-IsSound distinct {v} (refresh raw access q) h = refresh-IsSound distinct v h raw access q
  Step-IsSound distinct {v} (log_out raw access) h = logout-IsSound distinct v h raw access
  Step-IsSound distinct {v} (log_out_all user_id access) h =
      revoke_all-IsSound distinct v h user_id access
  Step-IsSound distinct {v} (wait later le) h = record {
    one_live = h.one_live;
    drawn = h.drawn;
    settled = h.settled;
  }

  -- If identifiers of different draws differ, then after any sequence of sign-ins, refreshes,
  -- logouts, logouts everywhere and waits, each call in its own request, from a sound state, the
  -- state is sound: no family has two live refresh tokens, each family identifier was drawn before,
  -- and nothing is left uncommitted.
  pub Reach-IsSound :
      ((a b : ℕ) → e.crypto.uuid a ≡ e.crypto.uuid b → a ≡ b)
      → {v w : World e} → IsSound v
      → Reach e v w
      → IsSound w
  Reach-IsSound distinct h here = h
  Reach-IsSound distinct h (next r s) = Step-IsSound distinct s (Reach-IsSound distinct h r)
