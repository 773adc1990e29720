-- ===== src/Examples/Profiles.antt =====
-- Jane's profile.
use social_badge_api.Common.{
  ◌+◌, ◌≡◌, refl, none, some, List, [], ◌∷◌, Text, ◌==◌, if◌then◌else◌, arith, text_eq, ltb, codes,
}
use social_badge_api.Profile.{delete_profile, ProfileUpdates, update_profile}
use social_badge_api.Profile.Deletion.{delete_profile-Erased, Erased}
use social_badge_api.Profile.Samples.{accounts, contents, both, jane, first}
use social_badge_api.Auth.Signup.Unique.{UniqueEmails}
use social_badge_api.Profile.Update.{update_profile-UniqueEmails}
use social_badge_api.Profile.PublicId.{extract-public_id, extract_cloudinary_public_id, slashed}
use social_badge_api.Router.Profile.{read_file}
use social_badge_api.Router.Profile.Upload.{read_file_enough}

delete_profile-Erased_example :
    Erased accounts contents
      (λ url. some url)
      1000
      both
      (delete_profile accounts contents (λ url. some url) 1000 none none both)
delete_profile-Erased_example =
    delete_profile-Erased accounts contents (λ url. some url) 1000 both none none

abbrev moved : ProfileUpdates
moved = record {
  first_name = none;
  last_name = none;
  email = some (codes "new@example.com");
  role = none;
}

update_profile-UniqueEmails_example :
    UniqueEmails accounts (update_profile accounts jane moved first).1.durable.users
update_profile-UniqueEmails_example =
    update_profile-UniqueEmails accounts jane moved first (omega arith) refl (λ m. ground arith)
      (λ m. ground arith)

-- /c/upload/v1/logos/a.png, where 49 is a digit
abbrev parts : List Text
parts = codes "c" ∷ codes "upload" ∷ codes "v1" ∷ codes "logos" ∷ codes "a.png" ∷ []

extract-public_id_example :
    extract_cloudinary_public_id (λ c. c == 49) (λ url. some url) (λ t. t) (slashed parts)
    ≡ some (codes "logos/a")
unfolding text_eq
extract-public_id_example =
    extract-public_id (λ c. c == 49) (λ url. some url) (λ t. t) (slashed parts) (codes "c" ∷ [])
      (codes "logos" ∷ []) (codes "v1") (codes "a") (codes "png") (ground arith) (refl, tt) refl
      (ground arith) refl

read_file_enough_example :
    read_file 4 2 5 (7 ∷ 8 ∷ 9 ∷ []) 0 []
    ≡ some (if ltb 5 (0 + 3) then none else some (7 ∷ 8 ∷ 9 ∷ []))
read_file_enough_example = read_file_enough 3 1 5 (7 ∷ 8 ∷ 9 ∷ []) 0 [] (omega arith) (omega arith)
