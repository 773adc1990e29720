-- ===== src/Content/Slug.antt =====
-- app/core/slug.py
use social_badge_api.Common.{
  ℕ, zero, suc, ◌<◌, ◌≡◌, refl, Bool, true, ◌&&◌, ◌||◌, [], ◌∷◌, Text, codes, length, leb, All,
  All-of_count, get_or, arith,
}

abbrev pub slug_length : ℕ
slug_length = 12

abbrev pub slug_alphabet : Text
slug_alphabet = codes "abcdefghijklmnopqrstuvwxyzABCDEFGHIJKLMNOPQRSTUVWXYZ0123456789"

-- secrets.choice(SLUG_ALPHABET) at the draws `d`, `d + 1`, …; `randbelow d n` is the index drawn.
unfoldable pub generate_share_slug : (ℕ → ℕ → ℕ) → ℕ → ℕ → Text
generate_share_slug randbelow d zero = []
generate_share_slug randbelow d (suc n) =
    get_or slug_alphabet (randbelow d (length slug_alphabet)) 0
    ∷ generate_share_slug randbelow (suc d) n

abbrev pub is_alnum : ℕ → Bool
is_alnum c = (leb b'a' c && leb c b'z') || (leb b'A' c && leb c b'Z') || (leb b'0' c && leb c b'9')

pub get_or-All :
    (P : ℕ → Type 0) (xs : Text) (i d : ℕ) → All P xs → i < length xs → P (get_or xs i d)
get_or-All P [] i d h lt = elim lt [ ]
get_or-All P (x ∷ xs) zero d h lt = h.0
get_or-All P (x ∷ xs) (suc i) d h lt = get_or-All P xs i d h.1 (omega arith)

-- If each random index is below its bound, a slug has the length asked for and only letters and
-- digits.
pub slug_wellformed :
    (randbelow : ℕ → ℕ → ℕ) (d n : ℕ)
    → ((k m : ℕ) → 0 < m → randbelow k m < m)
    → (length (generate_share_slug randbelow d n) ≡ n)
      × All (λ c. is_alnum c ≡ true) (generate_share_slug randbelow d n)
unfolding generate_share_slug
slug_wellformed randbelow d zero below = (refl, tt)
slug_wellformed randbelow d (suc n) below =
    let (len, good) = slug_wellformed randbelow (suc d) n below in
    (
      omega (arith, len),
      (
        get_or-All (λ c. is_alnum c ≡ true) slug_alphabet (randbelow d 62) 0
            (All-of_count is_alnum slug_alphabet refl) (below d 62 (omega arith)),
        good,
      ),
    )
