-- ===== src/Auth/Verify/Link.antt =====
-- What following a verification link does.
use social_badge_api.Common.{
  ℕ, ◌≡◌, ◌∙◌, Bool, true, false, Option, none, some, Text, text_eq_refl, truthy, if◌then◌else◌,
  arith,
}
use social_badge_api.Common.Exec.{ok, err}
use social_badge_api.Platform.Redis.{read}
use social_badge_api.Settings.{token, render}
use social_badge_api.Token.{hash_token}
use social_badge_api.Ip.{Request}
use social_badge_api.Auth.State.{Env, User, link_expired, database_failed, World, by_id, fits_token}
use social_badge_api.Auth.Signin.Outcomes.{next_session}
use social_badge_api.Auth.Verify.{mark_verified, verify_email}

module _ (e : Env) where
  abbrev pub link_for : Text → World e → Option Text
  link_for raw w = read w.clock (e.redis.entry w.redis (render (token (e.crypto.sha256 raw))))

  -- A verification link that Redis holds, of an existing user who is not verified, where nothing is
  -- uncommitted: if the commit succeeds, the user is verified and signed in; if it fails, the call
  -- raises and neither happens.
  pub verify-Done :
      (fails : Bool) (raw name : Text) (q : Request) (id : ℕ) (user : User) (w : World e)
      → link_for raw w ≡ some name
      → truthy name ≡ true
      → e.crypto.parse_uuid name ≡ some id
      → e.users.first (by_id e id) w.db.users ≡ some user
      → user.is_email_verified ≡ false
      → w.durable ≡ w.db
      → fits_token (next_session e w user.id (some q)).row ≡ true
      → let (result, w') = verify_email e fails raw q w in
        let s = next_session e w user.id (some q) in
        (result ≡ (if fails then err database_failed else ok (s.access_token, s.raw_refresh_token)))
        × (w'.durable ≡ (
            if fails then w.db else record w.db {
              users = e.users.update (by_id e user.id) mark_verified w.db.users;
              tokens = e.tokens.insert s.row w.db.tokens;
            }))
        × (w'.db ≡ w'.durable)
  unfolding verify_email hash_token
  verify-Done fails raw name q id user w stored full parsed found fresh clean fits =
      let k = render (token (e.crypto.sha256 raw)) in
      ground (arith, e.redis.getdel-value k w.clock w.redis ∙ stored, full, parsed, found, fits)

  redis-verify :
      (fails : Bool) (raw : Text) (q : Request) (w : World e)
      → let w' = (verify_email e fails raw q w).1 in
        w'.redis ≡ (e.redis.getdel (render (token (e.crypto.sha256 raw))) w.clock w.redis).1
  unfolding verify_email hash_token
  redis-verify fails raw q w = ground arith

  -- A link that Redis does not hold is refused, and no table changes.
  pub verify_expired :
      (fails : Bool) (raw : Text) (q : Request) (w : World e)
      → link_for raw w ≡ none
      → let (result, w') = verify_email e fails raw q w in
        (result ≡ err link_expired) × (w'.db ≡ w.db) × (w'.durable ≡ w.durable)
  unfolding verify_email hash_token
  verify_expired fails raw q w gone =
      let k = render (token (e.crypto.sha256 raw)) in
      ground (arith, e.redis.getdel-value k w.clock w.redis ∙ gone)

  -- Whatever following a verification link came to, following it again is refused as expired, also
  -- at another time.
  pub verify_once :
      (fails fails' : Bool) (raw : Text) (q q' : Request) (w : World e) (later : ℕ)
      → let w' = (verify_email e fails raw q w).1 in
        (verify_email e fails' raw q' (record w' { clock = later })).0 ≡ err link_expired
  verify_once fails fails' raw q q' w later =
      let w' = (verify_email e fails raw q w).1 in
      let spent : link_for raw (record w' { clock = later }) ≡ none =
        rw (redis-verify fails raw q w) (rw e.redis.entry-getdel (simp text_eq_refl)) in
      (verify_expired fails' raw q' (record w' { clock = later }) spent).0
