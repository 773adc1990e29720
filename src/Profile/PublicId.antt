-- ===== src/Profile/PublicId.antt =====
-- app/services/profile.py: `_extract_cloudinary_public_id`.
use social_badge_api.Common.{
  ℕ, ◌≡◌, ◌∙◌, ap, refl, Bool, true, false, ◌&&◌, Option, none, some, List, [], ◌∷◌, ◌++◌, Text,
  codes, text_eq, truthy, filterb, All, ◌==◌, if◌then◌else◌, arith,
}
use social_badge_api.Common.Strip.{before_last, Lacks, before_last-append}

-- path.split("/"), for one character
abbrev pub onto_head : ℕ → List Text → List Text
onto_head x [] = (x ∷ []) ∷ []
onto_head x (h ∷ r) = (x ∷ h) ∷ r

unfoldable pub split_on : ℕ → Text → List Text
split_on c [] = [] ∷ []
split_on c (x ∷ t) = let rest = split_on c t in if x == c then [] ∷ rest else onto_head x rest

-- [p for p in parsed.path.split("/") if p]
unfoldable pub path_parts : Text → List Text
unfolding split_on
path_parts path = filterb truthy (split_on b'/' path)

-- path_parts[path_parts.index("upload") + 1 :], or ValueError
unfoldable pub after_upload : List Text → Option (List Text)
after_upload [] = none
after_upload (p ∷ ps) =
    let rest = after_upload ps in if text_eq p (codes "upload") then some ps else rest

-- str.isdigit, for a test of one character
abbrev pub is_digits : (ℕ → Bool) → Text → Bool
is_digits is_digit [] = false
is_digits is_digit (c ∷ []) = is_digit c
is_digits is_digit (c ∷ d ∷ t) = is_digit c && is_digits is_digit (d ∷ t)

-- part.startswith("v") and part[1:].isdigit()
abbrev pub is_version : (ℕ → Bool) → Text → Bool
is_version is_digit [] = false
is_version is_digit (c ∷ t) = (c == b'v') && is_digits is_digit t

abbrev pub drop_version : (ℕ → Bool) → List Text → List Text
drop_version is_digit [] = []
drop_version is_digit (p ∷ ps) = if is_version is_digit p then ps else p ∷ ps

-- The text up to the last dot, or the whole.
abbrev pub stem : Text → Text
stem p = elim (before_last b'.' p) [ none ↦ p | some s ↦ s ]

-- "/".join(parts), the last without its extension
unfoldable pub joined_stem : List Text → Option Text
joined_stem [] = none
joined_stem (p ∷ []) = some (stem p)
joined_stem (p ∷ q ∷ ps) = elim (joined_stem (q ∷ ps)) [
  | none ↦ none
  | some t ↦ some (p ++ b'/' ∷ t)
]

module _ (is_digit : ℕ → Bool) (path_of : Text → Option Text) (unquote : Text → Text) where
  abbrev pub of_parts : Option (List Text) → Option Text
  of_parts none = none
  of_parts (some ps) = elim (joined_stem (drop_version is_digit ps)) [
    | none ↦ none
    | some public_id ↦ some (unquote public_id)
  ]

  abbrev pub of_path : Option Text → Option Text
  of_path none = none
  of_path (some path) = of_parts (after_upload (path_parts path))

  -- `path_of` is urlparse(url).path, and none where it raises; `unquote` is urllib.parse.unquote.
  unfoldable pub extract_cloudinary_public_id : Text → Option Text
  unfolding path_parts after_upload joined_stem before_last
  extract_cloudinary_public_id url = of_path (path_of url)

-- A part of a path: not empty, and without a slash.
abbrev pub IsPart : Text → Type 0
IsPart p = (truthy p ≡ true) × Lacks b'/' p

-- Each part after a slash.
abbrev pub slashed : List Text → Text
slashed [] = []
slashed (p ∷ ps) = b'/' ∷ (p ++ slashed ps)

abbrev onto : Text → List Text → List Text
onto [] r = r
onto (x ∷ p) r = onto_head x (onto p r)

split_on-append : (c : ℕ) (p t : Text) → Lacks c p → split_on c (p ++ t) ≡ onto p (split_on c t)
unfolding split_on
split_on-append c [] t h = refl
split_on-append c (x ∷ p) t h = rw (h.0, split_on-append c p t h.1) refl

onto_nil : (p : Text) (ps : List Text) → onto p ([] ∷ ps) ≡ p ∷ ps
onto_nil [] ps = refl
onto_nil (x ∷ p) ps = rw (onto_nil p ps) refl

split_on-slashed : (ps : List Text) → All IsPart ps → split_on b'/' (slashed ps) ≡ [] ∷ ps
unfolding split_on
split_on-slashed [] h = refl
split_on-slashed (p ∷ ps) h =
    rw (split_on-append b'/' p (slashed ps) h.0.1, split_on-slashed ps h.1, onto_nil p ps) refl

filterb-All : (ps : List Text) → All IsPart ps → filterb truthy ps ≡ ps
filterb-All [] h = refl
filterb-All (p ∷ ps) h = rw (h.0.0, filterb-All ps h.1) refl

path_parts-slashed : (ps : List Text) → All IsPart ps → path_parts (slashed ps) ≡ ps
unfolding path_parts
path_parts-slashed ps h = rw (split_on-slashed ps h) (filterb-All ps h)

abbrev pub NotUpload : Text → Type 0
NotUpload p = text_eq p (codes "upload") ≡ false

after_upload-append :
    (pre rest : List Text)
    → All NotUpload pre
    → after_upload (pre ++ codes "upload" ∷ rest) ≡ some rest
unfolding after_upload text_eq
after_upload-append [] rest h = refl
after_upload-append (p ∷ pre) rest h = rw (h.0, after_upload-append pre rest h.1) refl

-- The names of the folders and of the asset, as a public id has them.
abbrev pub public_id : List Text → Text → Text
public_id [] name = name
public_id (f ∷ fs) name = f ++ b'/' ∷ public_id fs name

stem-append : (name ext : Text) → Lacks b'.' ext → stem (name ++ b'.' ∷ ext) ≡ name
stem-append name ext h = ground (arith, before_last-append b'.' name ext h)

joined_stem-public_id :
    (folders : List Text) (name ext : Text)
    → Lacks b'.' ext
    → joined_stem (folders ++ (name ++ b'.' ∷ ext) ∷ []) ≡ some (public_id folders name)
unfolding joined_stem
joined_stem-public_id [] name ext h = ap some (stem-append name ext h)
joined_stem-public_id (f ∷ []) name ext h = ap (λ t. some (f ++ b'/' ∷ t)) (stem-append name ext h)
joined_stem-public_id (f ∷ g ∷ fs) name ext h = rw (joined_stem-public_id (g ∷ fs) name ext h) refl

-- From a URL whose path is made of nonempty parts without slashes, `upload` the first of its name
-- among them, then a version, the folders, and a name with an extension without a dot, the public
-- identifier is read back: the folders and the name, unquoted.
pub extract-public_id :
    (is_digit : ℕ → Bool) (path_of : Text → Option Text) (unquote : Text → Text) (url : Text)
    (pre folders : List Text) (version name ext : Text)
    → let parts = pre ++ codes "upload" ∷ version ∷ (folders ++ (name ++ b'.' ∷ ext) ∷ []) in
      All IsPart parts
      → All NotUpload pre
      → is_version is_digit version ≡ true
      → Lacks b'.' ext
      → path_of url ≡ some (slashed parts)
      → extract_cloudinary_public_id is_digit path_of unquote url
        ≡ some (unquote (public_id folders name))
unfolding extract_cloudinary_public_id
extract-public_id is_digit path_of unquote url pre folders version name ext ok_parts before
      versioned dotless path =
    let rest = version ∷ (folders ++ (name ++ b'.' ∷ ext) ∷ []) in
    let of = of_parts is_digit path_of unquote in
    ap (of_path is_digit path_of unquote) path
    ∙ (ap (λ ps. of (after_upload ps)) (path_parts-slashed (pre ++ codes "upload" ∷ rest) ok_parts)
        ∙ (ap of (after_upload-append pre rest before)
            ∙ ground (arith, versioned, joined_stem-public_id folders name ext dotless)))
