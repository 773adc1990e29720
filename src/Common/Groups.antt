-- ===== src/Common/Groups.antt =====
-- GROUP BY with COUNT: the keys of a list, each with how often it occurs.
use Prim.Native.Nat.{ℕ, suc, ◌+◌}
use mathlib.Core.Path.{◌≡◌, refl, ap, ◌∙◌}
use mathlib.Core.Bool.{Bool, false, ◌&&◌}
use mathlib.Core.Logic.{inl, inr}
use mathlib.Core.List.{List, [], ◌∷◌, map}
use native.Mathlib.Omega.{arith}
use social_badge_api.Common.Tests.{ltb, ◌==◌, if◌then◌else◌, Bool-cases}
use social_badge_api.Common.Lists.{length, countb}
use social_badge_api.Common.Order.{insert_by, sort_by}

abbrev pub bump : ℕ → List (ℕ × ℕ) → List (ℕ × ℕ)
bump k [] = (k, 1) ∷ []
bump k ((j, m) ∷ r) = let rest = bump k r in if k == j then (j, suc m) ∷ r else (j, m) ∷ rest

-- The groups of a list of keys: each key once, with its count.
unfoldable pub tally : List ℕ → List (ℕ × ℕ)
tally [] = []
tally (k ∷ ks) = bump k (tally ks)

abbrev pub is_row : ℕ → ℕ → ℕ × ℕ → Bool
is_row k n r = (r.0 == k) && (r.1 == n)

-- What a count contributes to the number of rows (k, n): one row if it is n and not 0.
abbrev pub once : ℕ → ℕ → ℕ
once n c = if ltb 0 c && (n == c) then 1 else 0

abbrev pub sum : List ℕ → ℕ
sum [] = 0
sum (x ∷ xs) = x + sum xs

abbrev pub sizes : List (ℕ × ℕ) → ℕ
sizes [] = 0
sizes ((k, n) ∷ r) = n + sizes r

bump_same :
    (k c : ℕ) (t : List (ℕ × ℕ))
    → ((n : ℕ) → countb (is_row k n) t ≡ once n c)
    → (n : ℕ) → countb (is_row k n) (bump k t) ≡ once n (suc c)
bump_same k c [] h n = ground (arith, h c)
bump_same k c ((j, m) ∷ r) h n = elim (Bool-cases (k == j)) [
  | inl e ↦ ground (arith, e, h m, h n, h c)
  | inr d ↦
      let below : (i : ℕ) → countb (is_row k i) r ≡ once i c = λ i. ground (arith, d, h i) in
      rw d (ground (arith, d, bump_same k c r below n))
]

bump_other :
    (k l n : ℕ) (t : List (ℕ × ℕ))
    → (k == l) ≡ false
    → countb (is_row l n) (bump k t) ≡ countb (is_row l n) t
bump_other k l n [] d = ground (arith, d)
bump_other k l n ((j, m) ∷ r) d = ground (arith, d, bump_other k l n r d)

-- A group (k, n) stands once where the key k occurs n > 0 times, and nowhere else.
pub tally-rows :
    (k n : ℕ) (ks : List ℕ) → countb (is_row k n) (tally ks) ≡ once n (countb (λ j. j == k) ks)
unfolding tally
tally-rows k n [] = refl
tally-rows k n (j ∷ ks) = elim (Bool-cases (j == k)) [
  | inl e ↦
      let same : j ≡ k = ground (arith, e) in
      let rows = bump_same k (countb (λ i. i == k) ks) (tally ks) (λ i. tally-rows k i ks) n in
      rw e (rw same rows)
  | inr d ↦ rw d (bump_other j k n (tally ks) d ∙ tally-rows k n ks)
]

sizes-bump : (k : ℕ) (t : List (ℕ × ℕ)) → sizes (bump k t) ≡ suc (sizes t)
sizes-bump k [] = refl
sizes-bump k ((j, m) ∷ r) = ground (arith, sizes-bump k r)

pub sizes-tally : (ks : List ℕ) → sizes (tally ks) ≡ length ks
unfolding tally
sizes-tally [] = refl
sizes-tally (k ∷ ks) = sizes-bump k (tally ks) ∙ ap suc (sizes-tally ks)

module _ (le : ℕ × ℕ → ℕ × ℕ → Bool) where
  sizes-insert_by : (k n : ℕ) (t : List (ℕ × ℕ)) → sizes (insert_by le (k, n) t) ≡ n + sizes t
  unfolding insert_by
  sizes-insert_by k n [] = refl
  sizes-insert_by k n ((j, m) ∷ t) = ground (arith, sizes-insert_by k n t)

  pub sizes-sort_by : (t : List (ℕ × ℕ)) → sizes (sort_by le t) ≡ sizes t
  unfolding sort_by
  sizes-sort_by [] = refl
  sizes-sort_by ((k, n) ∷ t) =
      sizes-insert_by k n (sort_by le t) ∙ ap (λ s. n + s) (sizes-sort_by t)

module _ {A : Type 0} where
  pub countb-map :
      (q : ℕ → Bool) (f : A → ℕ) (xs : List A) → countb q (map f xs) ≡ countb (λ x. q (f x)) xs
  countb-map q f [] = refl
  countb-map q f (x ∷ xs) = ground (arith, countb-map q f xs)

  pub length-map : (f : A → ℕ) (xs : List A) → length (map f xs) ≡ length xs
  length-map f [] = refl
  length-map f (x ∷ xs) = ap suc (length-map f xs)
