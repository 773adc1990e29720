-- ===== src/Auth/Devices.antt =====
-- `list_user_sessions` of app/services/auth.py: the devices on which a user is signed in.
use social_badge_api.Common.{
  ℕ, ◌*◌, ◌≤◌, ◌≡◌, refl, Bool, true, false, Option, none, some, List, [], ◌∷◌, map, Text, countb,
  leb, ◌==◌, arith,
}
use social_badge_api.Common.Exec.{ok}
use social_badge_api.Common.Order.{joined}
use social_badge_api.Platform.Listing.{Order, IsListing, query, query-IsListing}
use social_badge_api.Ip.{mask_ip}
use social_badge_api.Auth.State.{Env, World, Auth, RefreshToken}
use social_badge_api.Auth.Logout.{is_active_of}

-- SessionResponse and SessionListResponse of app/schemas/auth.py
pub record SessionResponse : Type 0 where
  pub session_id : ℕ
  pub user_agent : Option Text
  pub ip_address : Option Text
  pub created_at : ℕ
  pub last_used_at : Option ℕ
  pub expires_at : ℕ
  pub is_current : Bool

pub record SessionListResponse : Type 0 where
  pub sessions : List SessionResponse
  pub total : ℕ
  pub page : ℕ
  pub limit : ℕ

-- .order_by(RefreshToken.last_used_at.desc().nulls_last())
abbrev pub later_or_none : Option ℕ → Option ℕ → Bool
later_or_none a none = true
later_or_none none (some n) = false
later_or_none (some m) (some n) = leb n m

abbrev pub last_used_first : RefreshToken → RefreshToken → Bool
last_used_first a b = later_or_none a.last_used_at b.last_used_at

later_total : (a b : Option ℕ) → later_or_none a b ≡ false → later_or_none b a ≡ true
later_total a none h = ground arith
later_total none (some n) h = refl
later_total (some m) (some n) h = ground arith

later_trans :
    (a b c : Option ℕ)
    → later_or_none a b ≡ true
    → later_or_none b c ≡ true
    → later_or_none a c ≡ true
later_trans a b none h k = refl
later_trans a none (some n) h k = cc
later_trans none (some m) (some n) h k = cc
later_trans (some l) (some m) (some n) h k = ground arith

last_used_first-Order : Order last_used_first
last_used_first-Order = record {
  total = λ a b h. later_total a.last_used_at b.last_used_at h;
  trans = λ a b c h k. later_trans a.last_used_at b.last_used_at c.last_used_at h k;
}

abbrev pub is_family : Option ℕ → ℕ → Bool
is_family none family_id = false
is_family (some current) family_id = family_id == current

unfoldable pub session_response : Option ℕ → RefreshToken → SessionResponse
session_response current_family_id row = record {
  session_id = row.id;
  user_agent = row.user_agent;
  ip_address = mask_ip row.ip_address;
  created_at = row.created_at;
  last_used_at = row.last_used_at;
  expires_at = row.expires_at;
  is_current = is_family current_family_id row.family_id;
}

-- How many of the sessions are marked as the one that asks.
abbrev pub currents : List SessionResponse → ℕ
currents sessions = countb (λ s. s.is_current) sessions

currents_of :
    (family : ℕ) (rows : List RefreshToken)
    → currents (map (session_response (some family)) rows)
      ≡ countb (λ t. t.family_id == family) rows
unfolding session_response
currents_of family [] = refl
currents_of family (t ∷ rows) = ground (arith, currents_of family rows)

module _ (e : Env) where
  unfoldable pub session_rows : ℕ → ℕ → ℕ → World e → List RefreshToken
  session_rows user_id page limit w =
      query e.tokens last_used_first (is_active_of user_id w.clock) page limit w.db.tokens

  unfoldable pub list_user_sessions : ℕ → Option ℕ → ℕ → ℕ → Auth e SessionListResponse
  unfolding session_rows
  list_user_sessions user_id current_family_id page limit w = (
    ok (record {
      sessions = map (session_response current_family_id) (session_rows user_id page limit w);
      total = e.tokens.count (is_active_of user_id w.clock) w.db.tokens;
      page = page;
      limit = limit;
    }),
    w,
  )

  session_rows-IsListing :
      (user_id k limit : ℕ) (w : World e)
      → e.tokens.count (is_active_of user_id w.clock) w.db.tokens ≤ k * limit
      → IsListing last_used_first
          (is_active_of user_id w.clock)
          (e.tokens.rows w.db.tokens)
          (joined (λ i. session_rows user_id i limit w) k)
  unfolding session_rows
  session_rows-IsListing user_id k limit w fits =
      query-IsListing e.tokens last_used_first last_used_first-Order (is_active_of user_id w.clock)
        k limit w.db.tokens fits
