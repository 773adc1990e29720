-- ===== src/Router/Badges/Pages.antt =====
-- app/routers/v1/badges.py: following the `next` links of `list_instances`.
use social_badge_api.Common.{
  ℕ, zero, suc, ◌≡◌, Option, none, some, List, [], ◌++◌, Text, drop, length, codes, ◌==◌, ◌∷◌,
  if◌then◌else◌,
}
use social_badge_api.Common.Exec.{Result, ok, err}
use social_badge_api.Platform.Listing.{query}
use social_badge_api.Content.State.{Env, World, Badge}
use social_badge_api.Router.{ApiError}
use social_badge_api.Router.Badges.{BadgeListResponse, list_instances}
use social_badge_api.Common.Strip.{before, Lacks}

-- What stands after a text that another begins with.
abbrev pub after_prefix : Text → Text → Option Text
after_prefix [] t = some t
after_prefix (c ∷ p) [] = none
after_prefix (c ∷ p) (x ∷ t) = let rest = after_prefix p t in if c == x then rest else none

abbrev pub both : Option ℕ → Option ℕ → Option (ℕ × ℕ)
both none n = none
both (some m) none = none
both (some m) (some n) = some (m, n)

-- The two numbers of `/api/v1/badges?page=…&limit=…`, where `int` reads a query parameter.
abbrev pub numbers : (Text → Option ℕ) → Text → Option Text → Option (ℕ × ℕ)
numbers int page none = none
numbers int page (some limit) = both (int page) (int limit)

abbrev pub split_at : (Text → Option ℕ) → Text → Text → Option (ℕ × ℕ)
split_at int query page =
    numbers int page (after_prefix (codes "&limit=") (drop (length page) query))

abbrev pub parameters : (Text → Option ℕ) → Option Text → Option (ℕ × ℕ)
parameters int none = none
parameters int (some query) = split_at int query (before b'&' query)

abbrev pub target : (Text → Option ℕ) → Text → Option (ℕ × ℕ)
target int link = parameters int (after_prefix (codes "/api/v1/badges?page=") link)

-- The badges of an answer, and what the client finds behind its `next` link.
abbrev pub showing :
    {W : Type 0} → (Text → List Badge) → Result ApiError BadgeListResponse × W → List Badge
showing again (ok r, w) = r.badges ++ elim r.next [ none ↦ [] | some link ↦ again link ]
showing again (err x, w) = []

module _ (e : Env) (decimal : ℕ → Text) (int : Text → Option ℕ) (updated created : ℕ → Option ℕ)
    (current_user : ℕ) (w : World e) where
  -- A client that requests a link of the list, and then the `next` link of the answer, on fuel.
  unfoldable pub follow : ℕ → Text → List Badge
  follow zero link = []
  follow (suc fuel) link = elim (target int link) [
    | none ↦ []
    | some (page, limit) ↦
        showing (follow fuel) (list_instances e decimal updated created current_user page limit w)
  ]

module _ (e : Env) (decimal : ℕ → Text) (int : Text → Option ℕ)
    (int-decimal : (n : ℕ) → int (decimal n) ≡ some n)
    (decimal-Lacks : (n : ℕ) → Lacks b'&' (decimal n)) (updated created : ℕ → Option ℕ)
    (current_user limit : ℕ) (w : World e) where
  -- What a client shows of a request that the link names.
  at_target : ℕ → Option (ℕ × ℕ) → List Badge
  at_target fuel none = []
  at_target fuel (some (page, n)) =
      showing (follow e decimal int updated created current_user w fuel)
        (list_instances e decimal updated created current_user page n w)
