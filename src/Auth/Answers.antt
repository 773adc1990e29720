-- ===== src/Auth/Answers.antt =====
-- What Google answers, and the checks of app/services/auth.py on it.
use social_badge_api.Common.{
  Bool, true, false, Option, none, some, List, [], ◌∷◌, Text, truthy, text_eq, ◌==◌, if◌then◌else◌,
}
use social_badge_api.Common.Exec.{Result}
use social_badge_api.Common.Strip.{is_space, lstrip, strip, before}
use social_badge_api.Auth.State.{AuthError, google_oauth}

-- The JSON of the user info endpoint; a field that is not a string is `none`.
pub record UserInfoResponse : Type 0 where
  pub sub : Option Text
  pub email : Option Text
  pub email_verified : Bool
  pub name : Option Text
  pub picture : Option Text

-- What `_fetch_google_user_info` returns.
pub record GoogleUser : Type 0 where
  pub subject : Text
  pub email : Text
  pub name : Text
  pub picture : Option Text

-- The JSON of the token endpoint: the ID token may be absent, and may be no string.
pub record TokenResponse : Type 0 where
  pub access_token : Option Text
  pub id_token : Option (Option Text)

-- What Google answers to the two requests, or the GoogleOAuthError of a request that fails.
pub record Google : Type 0 where
  pub exchange : Text → Result AuthError TokenResponse
  pub user_info : Text → Result AuthError UserInfoResponse
  -- the claim `sub` in the base64 JSON of a payload segment, or `none` where it cannot be read
  pub claimed_subject : Text → Option Text

-- A GoogleOAuthError with its default status code.
abbrev pub bad_google : AuthError
bad_google = google_oauth 400

abbrev pub nonblank : Option Text → Option Text
nonblank none = none
nonblank (some t) = if truthy t then some t else none

-- The checks of `_exchange_google_code` on the JSON: the access token, and the ID token if there is one.
unfoldable pub check_tokens : TokenResponse → Option (Text × Option Text)
check_tokens r = elim (nonblank r.access_token) [
  | none ↦ none
  | some access_token ↦ elim r.id_token [
    | none ↦ some (access_token, none)
    | some given ↦ elim (nonblank given) [ none ↦ none | some t ↦ some (access_token, some t) ]
  ]
]

abbrev pub named : Option Text → Option Text
named none = none
named (some t) = let name = strip t in if truthy name then some name else none

-- The checks of `_fetch_google_user_info` on the JSON, in their order; each failure is the same error.
unfoldable pub check_user_info : UserInfoResponse → Option GoogleUser
check_user_info r = elim (nonblank r.sub) [
  | none ↦ none
  | some subject ↦ elim (nonblank r.email) [
    | none ↦ none
    | some email ↦
        if r.email_verified
        then elim (named r.name) [
          | none ↦ none
          | some name ↦ some (record {
            subject = subject;
            email = email;
            name = name;
            picture = nonblank r.picture;
          })
        ]
        else none
  ]
]

-- t.split("."), of which the code asks for exactly three parts: the one in the middle.
unfoldable pub split_dots : Text → List Text
split_dots [] = [] ∷ []
split_dots (c ∷ t) = elim (split_dots t) [
  | [] ↦ []
  | part ∷ parts ↦ if c == b'.' then [] ∷ part ∷ parts else (c ∷ part) ∷ parts
]

abbrev pub middle : List Text → Option Text
middle (a ∷ b ∷ c ∷ []) = some b
middle _ = none

-- _extract_google_id_token_subject
unfoldable pub extract_subject : Google → Text → Option Text
extract_subject g id_token = elim (middle (split_dots id_token)) [
  | none ↦ none
  | some segment ↦ nonblank (g.claimed_subject segment)
]

-- _validate_google_subject_consistency
unfoldable pub subjects_agree : Google → Option Text → Text → Bool
subjects_agree g none subject = true
subjects_agree g (some id_token) subject = elim (extract_subject g id_token) [
  | none ↦ false
  | some s ↦ text_eq s subject
]

-- name.split(maxsplit=1) of a name with no blank at its start: the first word, and the rest
unfoldable pub first_word : Text → Text
first_word [] = []
first_word (c ∷ t) = let rest = first_word t in if is_space c then [] else c ∷ rest

unfoldable pub after_word : Text → Text
after_word [] = []
after_word (c ∷ t) = let rest = after_word t in if is_space c then lstrip t else rest

unfoldable pub first_name_of : GoogleUser → Text
first_name_of u =
    let name = lstrip u.name in if truthy name then first_word name else before b'@' u.email

unfoldable pub last_name_of : GoogleUser → Option Text
last_name_of u = nonblank (some (after_word (lstrip u.name)))
