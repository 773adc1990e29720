-- ===== src/Common/Sets.antt =====
-- Sets of keys, as lists that hold each key once.
use Prim.Native.Nat.{ℕ, ◌<◌, ◌≤◌}
use mathlib.Core.Path.{◌≡◌, refl, ap, ◌∙◌}
use mathlib.Core.Bool.{Bool, true, false, not, ◌&&◌, ◌||◌}
use mathlib.Core.Logic.{inl, inr}
use mathlib.Core.List.{List, [], ◌∷◌, ◌++◌, map}
use native.Mathlib.Omega.{arith}
use social_badge_api.Common.Tests.{ltb, ◌==◌, if◌then◌else◌, Bool-cases}
use social_badge_api.Common.Lists.{countb, filterb, Member}
use social_badge_api.Common.Groups.{countb-map}

abbrev pub is_in : ℕ → List ℕ → Bool
is_in u [] = false
is_in u (x ∷ xs) = (x == u) || is_in u xs

-- {x for x in xs}
unfoldable pub distinct : List ℕ → List ℕ
distinct [] = []
distinct (x ∷ xs) = let rest = distinct xs in if is_in x xs then rest else x ∷ rest

-- xs - ys
abbrev pub minus : List ℕ → List ℕ → List ℕ
minus xs ys = filterb (λ x. not (is_in x ys)) xs

pub is_in-append : (u : ℕ) (xs ys : List ℕ) → is_in u (xs ++ ys) ≡ (is_in u xs || is_in u ys)
is_in-append u [] ys = refl
is_in-append u (x ∷ xs) ys = ground (arith, is_in-append u xs ys)

pub is_in-minus :
    (u : ℕ) (xs ys : List ℕ) → is_in u (minus xs ys) ≡ (is_in u xs && not (is_in u ys))
is_in-minus u [] ys = refl
is_in-minus u (x ∷ xs) ys = elim (Bool-cases (x == u)) [
  | inl e ↦ let same : x ≡ u = ground (arith, e) in rw same (ground (arith, is_in-minus u xs ys))
  | inr d ↦ ground (arith, d, is_in-minus u xs ys)
]

is_in-countb : (u : ℕ) (xs : List ℕ) → is_in u xs ≡ ltb 0 (countb (λ x. x == u) xs)
is_in-countb u [] = refl
is_in-countb u (x ∷ xs) = ground (arith, is_in-countb u xs)

-- A key is in the set of the keys of some rows exactly if a row has it.
pub is_in-map :
    {A : Type 0} (u : ℕ) (f : A → ℕ) (xs : List A)
    → is_in u (map f xs) ≡ ltb 0 (countb (λ x. f x == u) xs)
is_in-map u f xs = is_in-countb u (map f xs) ∙ ap (ltb 0) (countb-map (λ x. x == u) f xs)

-- Of the elements that pass, a key stands once in the set, if it is there and passes.
pub countb-distinct :
    (q : ℕ → Bool) (u : ℕ) (xs : List ℕ)
    → countb (λ x. q x && (x == u)) (distinct xs) ≡ (if is_in u xs && q u then 1 else 0)
unfolding distinct
countb-distinct q u [] = refl
countb-distinct q u (x ∷ xs) = elim (Bool-cases (x == u)) [
  | inl e ↦ let same : x ≡ u = ground (arith, e) in rw same (ground (arith, countb-distinct q u xs))
  | inr d ↦ ground (arith, d, countb-distinct q u xs)
]

-- The set and the list have the same elements.
pub is_in-distinct : (u : ℕ) (xs : List ℕ) → is_in u (distinct xs) ≡ is_in u xs
unfolding distinct
is_in-distinct u [] = refl
is_in-distinct u (x ∷ xs) = elim (Bool-cases (x == u)) [
  | inl e ↦ let same : x ≡ u = ground (arith, e) in rw same (ground (arith, is_in-distinct u xs))
  | inr d ↦ ground (arith, d, is_in-distinct u xs)
]

-- What is left out of the set is left out of the list.
pub countb-outside : (xs : List ℕ) (p : ℕ → Bool) → countb p xs ≡ 0 → countb p (distinct xs) ≡ 0
unfolding distinct
countb-outside [] p h = refl
countb-outside (x ∷ xs) p h = ground (arith, countb-outside xs p)

-- Where each element of a list passes, none fails.
pub countb-not_in :
    (xs : List ℕ) (p : ℕ → Bool)
    → ((u : ℕ) → is_in u xs ≡ true → p u ≡ true)
    → countb (λ u. not (p u)) xs ≡ 0
countb-not_in [] p h = refl
countb-not_in (x ∷ xs) p h =
    ground (arith, h x, countb-not_in xs p (λ u m. h u (ground (arith, m))))

countb-and-le :
    {A : Type 0} (f g : A → Bool) (xs : List A) → countb (λ x. g x && f x) xs ≤ countb f xs
countb-and-le f g [] = omega arith
countb-and-le f g (x ∷ xs) = ground (arith, countb-and-le f g xs)

-- Where one element passes f and not g, fewer pass both.
pub countb-and-lt :
    {A : Type 0} (f g : A → Bool) (a : A) (xs : List A)
    → Member a xs
    → f a ≡ true
    → g a ≡ false
    → countb (λ x. g x && f x) xs < countb f xs
countb-and-lt f g a [] m t u = elim m [ ]
countb-and-lt f g a (x ∷ xs) (inl e) t u = ground (arith, e, countb-and-le f g xs)
countb-and-lt f g a (x ∷ xs) (inr m) t u = ground (arith, countb-and-lt f g a xs m t u)
