-- ===== src/Sanitizer.antt =====
-- `contains_html` and `validate_no_html` of app/core/sanitizer.py.
use social_badge_api.Common.{
  ℕ, ◌-◌, ◌≡◌, refl, Bool, true, false, ◌&&◌, ◌||◌, not, Option, none, some, [], ◌∷◌, ◌++◌, Text,
  codes, ◌==◌, if◌then◌else◌, arith,
}
use social_badge_api.Common.Strip.{lstrip, Lacks}

-- A letter under re.IGNORECASE: `letter` is a lower-case one, and the last two are the characters that
-- Python takes for `i` and `s` too.
abbrev pub is_letter : ℕ → ℕ → Bool
is_letter letter c =
    c == letter
    || c == letter - 32
    || (letter == b'i' && (c == 0x130 || c == 0x131))
    || (letter == b's' && c == 0x17f)

-- What stands after a word at the beginning of a text.
unfoldable pub after_letters : Text → Text → Option Text
after_letters [] t = some t
after_letters (l ∷ ls) [] = none
after_letters (l ∷ ls) (c ∷ t) =
    let rest = after_letters ls t in if is_letter l c then rest else none

abbrev pub starts_at : ℕ → Text → Bool
starts_at d [] = false
starts_at d (c ∷ t) = c == d

-- .*?> at the beginning of a text: a dot is not a line feed.
unfoldable pub closes : Text → Bool
closes [] = false
closes (c ∷ t) = c == b'>' || (not (c == 10) && closes t)

-- _HTML_TAG_PATTERN
unfoldable pub has_tag : Text → Bool
unfolding closes
has_tag [] = false
has_tag (c ∷ t) = (c == b'<' && closes t) || has_tag t

-- `\w` is a parameter, which no white space and no `=` satisfies, so the longest run is the match.
module _ (is_word : ℕ → Bool) where
  unfoldable pub drop_word : Text → Text
  drop_word [] = []
  drop_word (c ∷ t) = let rest = drop_word t in if is_word c then rest else c ∷ t

  -- \w+\s*= at the beginning of a text.
  abbrev pub names_handler : Option Text → Bool
  names_handler none = false
  names_handler (some []) = false
  names_handler (some (c ∷ t)) = is_word c && starts_at b'=' (lstrip (drop_word t))

  -- _EVENT_HANDLER_PATTERN; `inside` says whether the character before is in `\w`.
  unfoldable pub has_handler : Bool → Text → Bool
  unfolding after_letters drop_word lstrip
  has_handler inside [] = false
  has_handler inside (c ∷ t) =
      (not inside && names_handler (after_letters (codes "on") (c ∷ t)))
      || has_handler (is_word c) t

abbrev pub ends_protocol : Option Text → Bool
ends_protocol none = false
ends_protocol (some t) = starts_at b':' (lstrip t)

-- _DANGEROUS_PROTOCOLS
unfoldable pub has_protocol : Text → Bool
unfolding after_letters lstrip
has_protocol [] = false
has_protocol (c ∷ t) =
    ends_protocol (after_letters (codes "javascript") (c ∷ t))
    || ends_protocol (after_letters (codes "vbscript") (c ∷ t))
    || ends_protocol (after_letters (codes "data") (c ∷ t))
    || has_protocol t

unfoldable pub contains_html : (ℕ → Bool) → Text → Bool
unfolding has_tag has_handler has_protocol
contains_html is_word value = has_tag value || has_handler is_word false value || has_protocol value

-- `none` is the ValueError.
unfoldable pub validate_no_html : (ℕ → Bool) → Text → Option Text
unfolding contains_html
validate_no_html is_word value = if contains_html is_word value then none else some value

closes-append : (inner after_it : Text) → Lacks 10 inner → closes (inner ++ b'>' ∷ after_it) ≡ true
unfolding closes
closes-append [] after_it h = refl
closes-append (c ∷ inner) after_it h = ground (arith, h.0, closes-append inner after_it h.1)

has_tag-append :
    (before_it inner after_it : Text)
    → Lacks 10 inner
    → has_tag (before_it ++ b'<' ∷ inner ++ b'>' ∷ after_it) ≡ true
unfolding has_tag
has_tag-append [] inner after_it h = ground (arith, closes-append inner after_it h)
has_tag-append (c ∷ p) inner after_it h = ground (arith, has_tag-append p inner after_it h)

-- A text that has a tag on one line is refused, wherever it stands.
pub tag_refused :
    (is_word : ℕ → Bool) (before_it inner after_it : Text)
    → Lacks 10 inner
    → validate_no_html is_word (before_it ++ b'<' ∷ inner ++ b'>' ∷ after_it) ≡ none
unfolding validate_no_html contains_html
tag_refused is_word before_it inner after_it h =
    ground (arith, has_tag-append before_it inner after_it h)
