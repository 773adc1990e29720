-- ===== src/Router/Profile/Upload.antt =====
-- app/routers/v1/profile.py: reading an upload in chunks, and the photos that are taken.
use social_badge_api.Common.{
  ℕ, zero, suc, ◌+◌, ◌≤◌, ◌≡◌, ◌∙◌, ap, refl, inl, inr, Bool, true, false, ◌&&◌, ◌||◌, Option, none,
  some, List, [], ◌∷◌, ◌++◌, Text, codes, take, drop, length, length-take, length-drop, ltb, leb,
  Bool-cases, if◌then◌else◌, arith,
}
use mathlib.Core.List.{append-nil, append_assoc}
use social_badge_api.Common.Exec.{ok, err}
use social_badge_api.Auth.State.{User}
use social_badge_api.Auth.State as Accounts
use social_badge_api.Content.State as Contents
use social_badge_api.Profile.{ProfileWorld, update_profile_photo}
use social_badge_api.Router.{refused, catching}
use social_badge_api.Router.Badges.{starts_with}
use social_badge_api.Router.Profile.{
  read_file, read_file_with_size_check, max_file_size, validate_image_content, photo_clauses,
  upload_profile_photo_endpoint,
}

take-drop : (n : ℕ) (xs : List ℕ) → take n xs ++ drop n xs ≡ xs
take-drop zero xs = refl
take-drop (suc n) [] = refl
take-drop (suc n) (x ∷ xs) = ap (λ t. x ∷ t) (take-drop n xs)

-- With fuel for each byte of the file, reading it in chunks of a positive size ends, and gives what
-- was read before and the whole file, unless both together are longer than the limit, where it
-- refuses.
pub read_file_enough :
    (fuel size max_size : ℕ) (file : List ℕ) (total_size : ℕ) (chunks : List ℕ)
    → length file ≤ fuel
    → total_size ≤ max_size
    → read_file (suc fuel) (suc size) max_size file total_size chunks
      ≡ some (if ltb max_size (total_size + length file) then none else some (chunks ++ file))
unfolding read_file
read_file_enough fuel size max_size [] total_size chunks h k =
    let fits : ltb max_size (total_size + 0) ≡ false = ground (arith, k) in
    rw (fits, append-nil chunks) refl
read_file_enough zero size max_size (x ∷ xs) total_size chunks h k = absurd (omega (arith, h))
read_file_enough (suc fuel) size max_size (x ∷ xs) total_size chunks h k =
    let total' = total_size + suc (length (take size xs)) in
    let rest = drop size xs in
    let sum : total' + length rest ≡ total_size + suc (length xs) =
      omega (arith, length-take size xs, length-drop size xs) in
    elim (Bool-cases (ltb max_size total')) [
      | inl large ↦
          let more : ltb max_size (total_size + suc (length xs)) ≡ true =
            ground (arith, large, sum) in
          rw (large, more) refl
      | inr fits ↦
          let ih =
            read_file_enough fuel size max_size rest total' (chunks ++ x ∷ take size xs)
              (omega (arith, h, length-drop size xs)) (ground (arith, fits)) in
          let whole : (chunks ++ x ∷ take size xs) ++ rest ≡ chunks ++ x ∷ xs =
            append_assoc chunks (x ∷ take size xs) rest
            ∙ ap (λ t. chunks ++ x ∷ t) (take-drop size xs) in
          rw fits (ih ∙ rw (sum, whole) refl)
    ]

pub read_file_with_size_check_lem :
    (file : List ℕ)
    → read_file_with_size_check file
      ≡ some (if ltb max_file_size (length file) then none else some file)
read_file_with_size_check_lem file =
    let size : 0 + length file ≡ length file = omega arith in
    read_file_enough (length file) 8191 max_file_size file 0 [] (omega arith) (omega arith)
    ∙ rw size refl

-- At least four bytes that begin like a JPEG, a PNG or a GIF.
abbrev pub is_photo : List ℕ → Bool
is_photo content =
    leb 4 (length content)
    && (starts_with (255 ∷ 216 ∷ 255 ∷ []) content
        || (starts_with (137 ∷ 80 ∷ 78 ∷ 71 ∷ []) content
            || starts_with (71 ∷ 73 ∷ 70 ∷ 56 ∷ []) content))

-- The detail of the refusal.
abbrev pub photo_refusal : List ℕ → Text
photo_refusal file =
    if ltb max_file_size (length file)
    then codes "File size exceeds maximum allowed size of 10 MB"
    else if ltb (length file) 4
    then codes "File is too small to be a valid image"
    else codes "Invalid file format. Only JPEG, PNG, and GIF are supported."

module _ (content : List ℕ) (fits : ltb max_file_size (length content) ≡ false) where
  content_taken : is_photo content ≡ true → (t : Text) × (validate_image_content content ≡ ok t)
  unfolding validate_image_content
  content_taken h = elim (Bool-cases (starts_with (255 ∷ 216 ∷ 255 ∷ []) content)) [
    | inl jpeg ↦ (codes "image/jpeg", ground (arith, h, jpeg))
    | inr no_jpeg ↦ elim (Bool-cases (starts_with (137 ∷ 80 ∷ 78 ∷ 71 ∷ []) content)) [
      | inl png ↦ (codes "image/png", ground (arith, h, no_jpeg, png))
      | inr no_png ↦ (codes "image/gif", ground (arith, h, no_jpeg, no_png))
    ]
  ]

  content_refused :
      is_photo content ≡ false
      → validate_image_content content ≡ err (refused 400 (photo_refusal content))
  unfolding validate_image_content
  content_refused h = ground (arith, h, fits)

module _ (a : Accounts.Env) (c : Contents.Env) (public_id_of : Text → Option Text)
    (w : ProfileWorld a c) where
  -- The file goes to the service exactly if it is within the limit and a photo; else 400, and nothing changes.
  pub upload_photo_lem :
      (current_user : User) (file : List ℕ)
      → upload_profile_photo_endpoint a c public_id_of current_user file w ≡ (
          if leb (length file) max_file_size && is_photo file
          then catching photo_clauses (update_profile_photo a c public_id_of current_user w)
          else (err (refused 400 (photo_refusal file)), w))
  unfolding upload_profile_photo_endpoint
  upload_photo_lem current_user file =
      let read = read_file_with_size_check_lem file in
      elim (Bool-cases (ltb max_file_size (length file))) [
        | inl large ↦
            let small : leb (length file) max_file_size ≡ false = ground (arith, large) in
            ground (arith, read, large, small)
        | inr fits ↦
            let small : leb (length file) max_file_size ≡ true = ground (arith, fits) in
            elim (Bool-cases (is_photo file)) [
              | inl good ↦
                  let (t, taken) = content_taken file fits good in
                  rw (small, good) (ground (arith, read, fits, taken))
              | inr bad ↦
                  let turned_down = content_refused file fits bad in
                  rw (small, bad) (ground (arith, read, fits, turned_down))
            ]
      ]
