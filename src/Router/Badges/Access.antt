-- ===== src/Router/Badges/Access.antt =====
-- app/routers/v1/badges.py: who may see a private badge, and which files are uploaded.
use social_badge_api.Common.{
  ℕ, ◌+◌, ◌≡◌, refl, Bool, true, false, not, ◌&&◌, ◌||◌, Option, none, some, List, Text, codes,
  text_eq, truthy, take, length, length-take, ltb, leb, ◌==◌, if◌then◌else◌, Bool-cases, inl, inr,
  arith,
}
use social_badge_api.Common.Exec.{Result, ok, err}
use social_badge_api.Common.Strip.{strip}
use social_badge_api.Common.Order.{take_all}
use social_badge_api.Content.State.{Env, World, Badge}
use social_badge_api.Badge.{public_at, get_public_badge_by_slug, upload_badge_logo}
use social_badge_api.Router.{ApiError, refused, catching}
use social_badge_api.Router.Badges.{
  get_participant_page, upload_logo, logo_clauses, is_allowed_type, is_valid_image, max_logo_bytes,
  unsupported, is_object,
}

abbrev pub is_ok : {A : Type 0} → Result ApiError A → Bool
is_ok (ok a) = true
is_ok (err x) = false

-- The badge is not private, or it has a code and the caller gives the same, up to case and white
-- space around it.
abbrev pub opens : (Text → Text) → Badge → Option Text → Bool
opens lower b access_code = not (b.access_type == 1) || matches b.access_code access_code
  where
    matches : Option Text → Option Text → Bool
    matches none given = false
    matches (some code) none = false
    matches (some code) (some given) =
        truthy code && text_eq (lower (strip code)) (lower (strip given))

-- The file is of an allowed type, not too large, and of an image format.
abbrev pub acceptable : Text → List ℕ → Bool
acceptable content_type file =
    is_allowed_type content_type && (leb (length file) max_logo_bytes && is_valid_image file)

-- The size is tested before the format.
abbrev pub refusal_of : Text → List ℕ → ApiError
refusal_of content_type file =
    if is_allowed_type content_type && ltb max_logo_bytes (length file)
    then refused 413 (codes "File size exceeds the 2 MB limit.")
    else refused 415 unsupported

-- Reading one byte more than the limit is enough to see that a file is too large.
read-length : (n : ℕ) (file : List ℕ) → ltb n (length (take (n + 1) file)) ≡ ltb n (length file)
read-length n file = ground (arith, length-take (n + 1) file)

module _ (e : Env) (w : World e) where
  -- The page of a public badge is given exactly if its canvas is an object, and the badge is not
  -- private, or has a nonempty access code that the caller gives, up to case and white space around
  -- it; nothing changes.
  pub participant_page_opens :
      (lower : Text → Text) (slug : Text) (access_code : Option Text) (b : Badge)
      → e.badges.first (public_at slug) w.db.badges ≡ some b
      → let (result, w') = get_participant_page e lower slug access_code w in
        (is_ok result ≡ opens lower b access_code && is_object b.canvas_data) × (w' ≡ w)
  unfolding get_participant_page get_public_badge_by_slug
  participant_page_opens lower slug access_code b found =
      (ground (arith, found), ground (arith, found))

  -- The file goes to the service exactly if it is acceptable; else 413 or 415, and nothing changes.
  pub upload_logo-acceptable :
      (content_type : Text) (file : List ℕ) (fails : Bool) (id current_user : ℕ)
      → upload_logo e content_type file fails id current_user w ≡ (
          if acceptable content_type file
          then catching logo_clauses (upload_badge_logo e fails id current_user w)
          else (err (refusal_of content_type file), w))
  unfolding upload_logo
  upload_logo-acceptable content_type file fails id current_user =
      elim (Bool-cases (is_allowed_type content_type)) [
        | inr other ↦ rw other refl
        | inl allowed ↦ elim (Bool-cases (ltb max_logo_bytes (length file))) [
          | inl large ↦
              let small : leb (length file) max_logo_bytes ≡ false = ground (arith, large) in
              rw (allowed, read-length max_logo_bytes file, large, small) refl
          | inr fits ↦
              let small : leb (length file) max_logo_bytes ≡ true = ground (arith, fits) in
              let all : take (max_logo_bytes + 1) file ≡ file =
                take_all (max_logo_bytes + 1) file (ground (arith, fits)) in
              rw (allowed, all, fits, small)
                (elim (Bool-cases (is_valid_image file)) [
                  | inl good ↦ rw good refl
                  | inr bad ↦ rw bad refl
                ])
        ]
      ]
