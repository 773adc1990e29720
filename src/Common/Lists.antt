-- ===== src/Common/Lists.antt =====
-- Lists measured by native numbers, filters by Boolean tests, and predicates on lists.
use Prim.Native.Nat.{ℕ, zero, suc, ◌-◌, ◌≤◌, ◌<◌, min, ◌+◌}
use mathlib.Core.Path.{◌≡◌, ◌∙◌, refl, ap, sym, subst}
use mathlib.Core.Logic.{◌⊎◌, inl, inr}
use mathlib.Core.Bool.{Bool, true, false, not, ◌&&◌}
use mathlib.Core.List.{List, [], ◌∷◌, map, ◌++◌}
use native.Mathlib.Omega.{arith}
use social_badge_api.Common.Tests.{Bool-cases, if◌then◌else◌}

module _ {ℓ} {A : Type ℓ} where
  abbrev pub length : List A → ℕ
  length [] = 0
  length (x ∷ xs) = suc (length xs)

  abbrev pub take : ℕ → List A → List A
  take zero xs = []
  take (suc n) [] = []
  take (suc n) (x ∷ xs) = x ∷ take n xs

  abbrev pub drop : ℕ → List A → List A
  drop zero xs = xs
  drop (suc n) [] = []
  drop (suc n) (x ∷ xs) = drop n xs

  abbrev pub get_or : List A → ℕ → A → A
  get_or [] i d = d
  get_or (x ∷ xs) zero d = x
  get_or (x ∷ xs) (suc i) d = get_or xs i d

  -- The elements that pass a Boolean test.
  abbrev pub filterb : (A → Bool) → List A → List A
  filterb p [] = []
  filterb p (x ∷ xs) = let rest = filterb p xs in if p x then x ∷ rest else rest

  abbrev pub countb : (A → Bool) → List A → ℕ
  countb p [] = 0
  countb p (x ∷ xs) = let rest = countb p xs in if p x then suc rest else rest

  abbrev pub All {κ} : (A → Type κ) → List A → Type κ
  All P [] = Unit
  All P (x ∷ xs) = P x × All P xs

module _ {A : Type 0} where
  abbrev pub Member : A → List A → Type 0
  Member a [] = ⊥
  Member a (x ∷ xs) = (a ≡ x) ⊎ Member a xs

module _ {κ} {A : Type 0} (P : A → Type κ) where
  pub All-Member : (xs : List A) (a : A) → All P xs → Member a xs → P a
  All-Member [] a h m = elim m [ ]
  All-Member (x ∷ xs) a h (inl e) = subst P (sym e) h.0
  All-Member (x ∷ xs) a h (inr m) = All-Member xs a h.1 m

  pub All-intro : (xs : List A) → ((a : A) → Member a xs → P a) → All P xs
  All-intro [] h = tt
  All-intro (x ∷ xs) h = (h x (inl refl), All-intro xs (λ a m. h a (inr m)))

module _ {ℓ κ} {A : Type ℓ} (P Q : A → Type κ) where
  pub All-imp : (xs : List A) → ((a : A) → P a → Q a) → All P xs → All Q xs
  All-imp [] f h = tt
  All-imp (x ∷ xs) f h = (f x h.0, All-imp xs f h.1)

  pub All-map : (g : A → A) (xs : List A) → ((a : A) → P a → Q (g a)) → All P xs → All Q (map g xs)
  All-map g [] f h = tt
  All-map g (x ∷ xs) f h = (f x h.0, All-map g xs f h.1)

module _ {ℓ κ} {A : Type ℓ} (P : A → Type κ) where
  pub All-filterb : (p : A → Bool) (xs : List A) → All P xs → All P (filterb p xs)
  All-filterb p [] h = tt
  All-filterb p (x ∷ xs) h = keep (p x) (All-filterb p xs h.1)
    where
      keep :
          (b : Bool) → All P (filterb p xs) → All P (if b then x ∷ filterb p xs else filterb p xs)
      keep true t = (h.0, t)
      keep false t = t

module _ {ℓ} {A : Type ℓ} where
  pub length-append : (xs ys : List A) → length (xs ++ ys) ≡ length xs + length ys
  length-append [] ys = omega arith
  length-append (x ∷ xs) ys = ground (arith, length-append xs ys)

  pub length-take : (n : ℕ) (xs : List A) → length (take n xs) ≡ min n (length xs)
  length-take zero xs = omega arith
  length-take (suc n) [] = omega arith
  length-take (suc n) (x ∷ xs) = omega (arith, length-take n xs)

  pub length-drop : (n : ℕ) (xs : List A) → length (drop n xs) ≡ length xs - n
  length-drop zero xs = omega arith
  length-drop (suc n) [] = omega arith
  length-drop (suc n) (x ∷ xs) = omega (arith, length-drop n xs)

  pub length-filterb : (p : A → Bool) (xs : List A) → length (filterb p xs) ≡ countb p xs
  length-filterb p [] = refl
  length-filterb p (x ∷ xs) = ground (arith, length-filterb p xs)

module _ {A : Type 0} where
  pub Member-map : (g : A → A) (a : A) (xs : List A) → Member a xs → Member (g a) (map g xs)
  Member-map g a [] m = elim m [ ]
  Member-map g a (x ∷ xs) (inl e) = inl (ap g e)
  Member-map g a (x ∷ xs) (inr m) = inr (Member-map g a xs m)

  -- Changing elements so that none newly passes a test does not raise the count.
  pub countb-map-le :
      (p : A → Bool) (g : A → A) (xs : List A)
      → ((a : A) → p (g a) ≡ true → p a ≡ true)
      → countb p (map g xs) ≤ countb p xs
  countb-map-le p g [] h = omega arith
  countb-map-le p g (x ∷ xs) h = ground (arith, h x, countb-map-le p g xs h)

  -- It falls where a member that passed fails now.
  pub countb-map-lt :
      (p : A → Bool) (g : A → A) (a : A) (xs : List A)
      → ((a : A) → p (g a) ≡ true → p a ≡ true)
      → Member a xs
      → p a ≡ true
      → p (g a) ≡ false
      → countb p (map g xs) < countb p xs
  countb-map-lt p g a [] h m t f = elim m [ ]
  countb-map-lt p g a (x ∷ xs) h (inl e) t f = ground (arith, h x, countb-map-le p g xs h, e)
  countb-map-lt p g a (x ∷ xs) h (inr m) t f = ground (arith, h x, countb-map-lt p g a xs h m t f)

  -- A filter keeps what passes.
  pub filterb_passes : (p : A → Bool) (xs : List A) → All (λ x. p x ≡ true) (filterb p xs)
  filterb_passes p [] = tt
  filterb_passes p (x ∷ xs) = elim (Bool-cases (p x)) [
    | inl e ↦ rw e (e, filterb_passes p xs)
    | inr e ↦ rw e (filterb_passes p xs)
  ]

  pub countb-le-length : (p : A → Bool) (xs : List A) → countb p xs ≤ length xs
  countb-le-length p [] = omega arith
  countb-le-length p (x ∷ xs) = ground (arith, countb-le-length p xs)

  -- A count of all elements, by evaluation, is a proof about each.
  pub All-of_count :
      (p : A → Bool) (xs : List A) → countb p xs ≡ length xs → All (λ x. p x ≡ true) xs
  All-of_count p [] h = tt
  All-of_count p (x ∷ xs) h = ground (arith, countb-le-length p xs, All-of_count p xs)

  pub countb-pos : (p : A → Bool) (a : A) (xs : List A) → Member a xs → p a ≡ true → 0 < countb p xs
  countb-pos p a [] m t = elim m [ ]
  countb-pos p a (x ∷ xs) (inl e) t = ground (arith, e, t)
  countb-pos p a (x ∷ xs) (inr m) t = ground (arith, countb-pos p a xs m t)

  -- At most one element passes: two that pass are one.
  pub unique-Member :
      (p : A → Bool) (a b : A) (xs : List A)
      → countb p xs ≤ 1
      → Member a xs
      → Member b xs
      → p a ≡ true
      → p b ≡ true
      → a ≡ b
  unique-Member p a b [] h m n t u = elim m [ ]
  unique-Member p a b (x ∷ xs) h (inl e) (inl f) t u = e ∙ sym f
  unique-Member p a b (x ∷ xs) h (inl e) (inr n) t u =
      absurd (ground (arith, e, t, countb-pos p b xs n u))
  unique-Member p a b (x ∷ xs) h (inr m) (inl f) t u =
      absurd (ground (arith, f, u, countb-pos p a xs m t))
  unique-Member p a b (x ∷ xs) h (inr m) (inr n) t u = unique-Member p a b xs (ground arith) m n t u

  pub countb_none : (p : A → Bool) (xs : List A) → All (λ x. p x ≡ false) xs → countb p xs ≡ 0
  countb_none p [] h = refl
  countb_none p (x ∷ xs) h = ground (arith, countb_none p xs h.1)

  pub countb-filterb :
      (p q : A → Bool) (xs : List A) → countb q (filterb p xs) ≡ countb (λ x. p x && q x) xs
  countb-filterb p q [] = refl
  countb-filterb p q (x ∷ xs) = ground (arith, countb-filterb p q xs)

  pub countb_never : (p : A → Bool) (xs : List A) → countb (λ x. not (p x) && p x) xs ≡ 0
  countb_never p [] = refl
  countb_never p (x ∷ xs) = ground (arith, countb_never p xs)
