-- ===== src/Common/Order.antt =====
-- ORDER BY, OFFSET and LIMIT: the rows in an order, and their pages.
use Prim.Native.Nat.{ℕ, zero, suc, ◌+◌, ◌-◌, ◌*◌, ◌≤◌}
use mathlib.Core.Path.{◌≡◌, refl, sym, ap, ◌∙◌}
use mathlib.Core.Bool.{Bool, true, false}
use mathlib.Core.Logic.{inl, inr}
use mathlib.Core.List.{List, [], ◌∷◌, ◌++◌}
use native.Mathlib.Omega.{arith}
use social_badge_api.Common.Tests.{ltb, if◌then◌else◌, Bool-cases}
use social_badge_api.Common.Lists.{length, take, drop, length-drop, countb, All, All-imp}

module _ {A : Type 0} where
  module _ (le : A → A → Bool) where
    unfoldable pub insert_by : A → List A → List A
    insert_by x [] = x ∷ []
    insert_by x (y ∷ ys) = let rest = insert_by x ys in if le x y then x ∷ y ∷ ys else y ∷ rest

    -- The rows in the order of `le`; rows that it does not tell apart keep their order.
    unfoldable pub sort_by : List A → List A
    sort_by [] = []
    sort_by (x ∷ xs) = insert_by x (sort_by xs)

    -- Each row stands before all that follow.
    abbrev pub IsOrdered : List A → Type 0
    IsOrdered [] = Unit
    IsOrdered (x ∷ xs) = All (λ y. le x y ≡ true) xs × IsOrdered xs

    countb-insert_by :
        (p : A → Bool) (x : A) (ys : List A) → countb p (insert_by x ys) ≡ countb p (x ∷ ys)
    unfolding insert_by
    countb-insert_by p x [] = refl
    countb-insert_by p x (y ∷ ys) = ground (arith, countb-insert_by p x ys)

    -- Sorting loses and doubles nothing.
    pub countb-sort_by : (p : A → Bool) (xs : List A) → countb p (sort_by xs) ≡ countb p xs
    unfolding sort_by
    countb-sort_by p [] = refl
    countb-sort_by p (x ∷ xs) =
        countb-insert_by p x (sort_by xs) ∙ ground (arith, countb-sort_by p xs)

    length-insert_by : (x : A) (ys : List A) → length (insert_by x ys) ≡ suc (length ys)
    unfolding insert_by
    length-insert_by x [] = refl
    length-insert_by x (y ∷ ys) = ground (arith, length-insert_by x ys)

    pub length-sort_by : (xs : List A) → length (sort_by xs) ≡ length xs
    unfolding sort_by
    length-sort_by [] = refl
    length-sort_by (x ∷ xs) = length-insert_by x (sort_by xs) ∙ ap suc (length-sort_by xs)

    All-insert_by : (P : A → Type 0) (x : A) (ys : List A) → P x → All P ys → All P (insert_by x ys)
    unfolding insert_by
    All-insert_by P x [] px h = (px, tt)
    All-insert_by P x (y ∷ ys) px h = elim (Bool-cases (le x y)) [
      | inl first ↦ rw first (px, h)
      | inr later ↦ rw later (h.0, All-insert_by P x ys px h.1)
    ]

    module _ (total : (a b : A) → le a b ≡ false → le b a ≡ true)
        (trans : (a b c : A) → le a b ≡ true → le b c ≡ true → le a c ≡ true) where
      insert_by-IsOrdered : (x : A) (ys : List A) → IsOrdered ys → IsOrdered (insert_by x ys)
      unfolding insert_by
      insert_by-IsOrdered x [] h = (tt, tt)
      insert_by-IsOrdered x (y ∷ ys) h = elim (Bool-cases (le x y)) [
        | inl first ↦ rw first (
          (
            first,
            All-imp (λ z. le y z ≡ true) (λ z. le x z ≡ true) ys (λ z q. trans x y z first q) h.0,
          ),
          h,
        )
        | inr later ↦ rw later (
          All-insert_by (λ z. le y z ≡ true) x ys (total x y later) h.0,
          insert_by-IsOrdered x ys h.1,
        )
      ]

      pub sort_by-IsOrdered : (xs : List A) → IsOrdered (sort_by xs)
      unfolding sort_by
      sort_by-IsOrdered [] = tt
      sort_by-IsOrdered (x ∷ xs) = insert_by-IsOrdered x (sort_by xs) (sort_by-IsOrdered xs)

  -- .offset((page - 1) * limit).limit(limit); pages are counted from 1
  abbrev pub page_of : ℕ → ℕ → List A → List A
  page_of page limit xs = take limit (drop ((page - 1) * limit) xs)

  -- The pages 1 to k, one after another.
  abbrev pub joined : (ℕ → List A) → ℕ → List A
  joined page zero = []
  joined page (suc k) = joined page k ++ page (suc k)

  abbrev pub first_pages : ℕ → ℕ → List A → List A
  first_pages k limit xs = joined (λ i. page_of i limit xs) k

  take-nil : (n : ℕ) → take {A = A} n [] ≡ []
  take-nil zero = refl
  take-nil (suc n) = refl

  take-add : (n m : ℕ) (xs : List A) → take (n + m) xs ≡ take n xs ++ take m (drop n xs)
  take-add zero m xs = ground arith
  take-add (suc n) m [] = take-nil (suc n + m) ∙ sym (take-nil m)
  take-add (suc n) m (x ∷ xs) =
      let next : suc n + m ≡ suc (n + m) = omega arith in
      rw next (ap (λ t. x ∷ t) (take-add n m xs))

  pub take_all : (n : ℕ) (xs : List A) → length xs ≤ n → take n xs ≡ xs
  take_all zero [] h = refl
  take_all zero (x ∷ xs) h = absurd (omega (arith, h))
  take_all (suc n) [] h = refl
  take_all (suc n) (x ∷ xs) h = ap (λ t. x ∷ t) (take_all n xs (omega (arith, h)))

  first_pages-take : (k limit : ℕ) (xs : List A) → first_pages k limit xs ≡ take (k * limit) xs
  first_pages-take zero limit xs = let none_left : 0 * limit ≡ 0 = omega arith in rw none_left refl
  first_pages-take (suc k) limit xs =
      let before : (suc k - 1) * limit ≡ k * limit = ap (λ n. n * limit) (omega arith) in
      let next : suc k * limit ≡ k * limit + limit = grind arith in
      rw (before, next, first_pages-take k limit xs) (sym (take-add (k * limit) limit xs))

  -- As many pages as it takes hold every row once, in the order.
  pub first_pages_all :
      (k limit : ℕ) (xs : List A) → length xs ≤ k * limit → first_pages k limit xs ≡ xs
  first_pages_all k limit xs h = first_pages-take k limit xs ∙ take_all (k * limit) xs h

  -- The pages from one on, until a page ends the list: on fuel.
  unfoldable pub walk_pages : ℕ → ℕ → ℕ → List A → List A
  walk_pages zero page limit xs = []
  walk_pages (suc fuel) page limit xs =
      let rest = walk_pages fuel (page + 1) limit xs in
      if ltb (page * limit) (length xs)
      then page_of page limit xs ++ rest
      else page_of page limit xs

  drop_nil : (n : ℕ) → drop {A = A} n [] ≡ []
  drop_nil zero = refl
  drop_nil (suc n) = refl

  drop-drop : (n m : ℕ) (xs : List A) → drop m (drop n xs) ≡ drop (n + m) xs
  drop-drop zero m xs = ground arith
  drop-drop (suc n) m [] = drop_nil m ∙ sym (drop_nil (suc n + m))
  drop-drop (suc n) m (x ∷ xs) =
      let next : suc n + m ≡ suc (n + m) = omega arith in rw next (drop-drop n m xs)

  take-drop : (n : ℕ) (xs : List A) → take n xs ++ drop n xs ≡ xs
  take-drop zero xs = refl
  take-drop (suc n) [] = refl
  take-drop (suc n) (x ∷ xs) = ap (λ t. x ∷ t) (take-drop n xs)

  page_of-drop :
      (k limit : ℕ) (xs : List A) → page_of (suc k) limit xs ≡ take limit (drop (k * limit) xs)
  page_of-drop k limit xs =
      let start : (suc k - 1) * limit ≡ k * limit = ap (λ n. n * limit) (omega arith) in
      rw start refl

  last_page :
      (k limit : ℕ) (xs : List A)
      → length xs ≤ suc k * limit
      → page_of (suc k) limit xs ≡ drop (k * limit) xs
  last_page k limit xs h =
      let rest = drop (k * limit) xs in
      let next : suc k * limit ≡ k * limit + limit = grind arith in
      page_of-drop k limit xs
      ∙ take_all limit rest (omega (arith, length-drop (k * limit) xs, next, h))

  -- A page and what follows it.
  page_then :
      (k limit : ℕ) (xs : List A)
      → page_of (suc k) limit xs ++ drop (suc k * limit) xs ≡ drop (k * limit) xs
  page_then k limit xs =
      let rest = drop (k * limit) xs in
      let next : suc k * limit ≡ k * limit + limit = grind arith in
      rw (page_of-drop k limit xs, next, ← drop-drop (k * limit) limit xs) (take-drop limit rest)

  walk_pages-drop :
      (fuel k limit : ℕ) (xs : List A)
      → length xs ≤ (k + suc fuel) * limit
      → walk_pages (suc fuel) (suc k) limit xs ≡ drop (k * limit) xs
  unfolding walk_pages
  walk_pages-drop zero k limit xs h =
      let one : k + 1 ≡ suc k = omega arith in
      let fits : length xs ≤ suc k * limit = rw one at h in
      let last : ltb (suc k * limit) (length xs) ≡ false = ground (arith, fits) in
      rw last (last_page k limit xs fits)
  walk_pages-drop (suc fuel) k limit xs h = elim (Bool-cases (ltb (suc k * limit) (length xs))) [
    | inl more ↦
        let page : suc k + 1 ≡ suc (suc k) = omega arith in
        let all : k + suc (suc fuel) ≡ suc k + suc fuel = omega arith in
        let ih = walk_pages-drop fuel (suc k) limit xs (rw all at h) in
        rw (more, page, ih) (page_then k limit xs)
    | inr last ↦ rw last (last_page k limit xs (ground (arith, last)))
  ]

  -- With a page of fuel for each row and one more, the walk from the first page gives every row once.
  pub walk_pages_all :
      (fuel limit : ℕ) (xs : List A)
      → length xs ≤ fuel
      → 1 ≤ limit
      → walk_pages (suc fuel) 1 limit xs ≡ xs
  walk_pages_all fuel limit xs h pos =
      let start : 0 * limit ≡ 0 = omega arith in
      let all : 0 + suc fuel ≡ suc fuel = omega arith in
      let bound : suc fuel * 1 ≤ suc fuel * limit = grind arith in
      let fits : length xs ≤ (0 + suc fuel) * limit = rw all (omega (arith, bound, h)) in
      walk_pages-drop fuel 0 limit xs fits ∙ rw start refl
