-- ===== src/Common/Strip.antt =====
-- Python's str.strip, and the parts of str.split and str.rsplit that the source uses.
use Prim.Native.Nat.{ℕ, zero, suc, ◌+◌, ◌/◌, ◌%◌}
use mathlib.Core.Path.{◌≡◌, ◌∙◌, ap, sym, subst, refl}
use mathlib.Core.Logic.{inl, inr}
use mathlib.Core.Bool.{Bool, false, ◌||◌, ◌&&◌}
use mathlib.Core.Option.{Option, none, some}
use mathlib.Core.List.{[], ◌∷◌, ◌++◌, reverse, reverse-append, reverse-reverse}
use native.Mathlib.Omega.{arith}
use social_badge_api.Common.Tests.{◌==◌, leb, ltb, if◌then◌else◌, Bool-cases}
use social_badge_api.Common.Lists.{All}
use social_badge_api.Common.Texts.{Text}

-- str.isspace of a code point.
unfoldable pub is_space : ℕ → Bool
is_space c =
    (leb 9 c && leb c 13)
    || (leb 28 c && leb c 32)
    || c == 0x85
    || c == 0xa0
    || c == 0x1680
    || (leb 0x2000 c && leb c 0x200a)
    || (leb 0x2028 c && leb c 0x2029)
    || c == 0x202f
    || c == 0x205f
    || c == 0x3000

unfoldable pub lstrip : Text → Text
lstrip [] = []
lstrip (c ∷ t) = let rest = lstrip t in if is_space c then rest else c ∷ t

unfoldable pub strip : Text → Text
unfolding lstrip is_space
strip t = reverse (lstrip (reverse (lstrip t)))

-- t.split(c)[0]
unfoldable pub before : ℕ → Text → Text
before c [] = []
before c (x ∷ t) = let rest = before c t in if x == c then [] else x ∷ rest

-- t.rsplit(c, 1)[0] where `c in t`, and `none` where it is not.
unfoldable pub before_last : ℕ → Text → Option Text
before_last c [] = none
before_last c (x ∷ t) = elim (before_last c t) [
  | some p ↦ some (x ∷ p)
  | none ↦ if x == c then some [] else none
]

abbrev pub Lacks : ℕ → Text → Type 0
Lacks c = All (λ x. (x == c) ≡ false)

pub before_last-Lacks : (c : ℕ) (t : Text) → Lacks c t → before_last c t ≡ none
unfolding before_last
before_last-Lacks c [] h = refl
before_last-Lacks c (x ∷ t) h = ground (arith, before_last-Lacks c t h.1)

pub before_last-append : (c : ℕ) (p t : Text) → Lacks c t → before_last c (p ++ c ∷ t) ≡ some p
unfolding before_last
before_last-append c [] t h = ground (arith, before_last-Lacks c t h)
before_last-append c (x ∷ p) t h = ground (arith, before_last-append c p t h)

pub Lacks-append : (c : ℕ) (p t : Text) → Lacks c p → Lacks c t → Lacks c (p ++ t)
Lacks-append c [] t h k = k
Lacks-append c (x ∷ p) t h k = (h.0, Lacks-append c p t h.1 k)

pub before-append : (c : ℕ) (p t : Text) → Lacks c p → before c (p ++ c ∷ t) ≡ p
unfolding before
before-append c [] t h = ground arith
before-append c (x ∷ p) t h = ground (arith, before-append c p t h.1)

pub Lacks-of_none : (c : ℕ) (t : Text) → before_last c t ≡ none → Lacks c t
unfolding before_last
Lacks-of_none c [] h = tt
Lacks-of_none c (x ∷ t) h = ground (arith, Lacks-of_none c t)

pub Lacks-before_last : (c d : ℕ) (t p : Text) → Lacks c t → before_last d t ≡ some p → Lacks c p
unfolding before_last
Lacks-before_last c d [] p l h = cc
Lacks-before_last c d (x ∷ t) [] l h = tt
Lacks-before_last c d (x ∷ t) (y ∷ p) l h = ground (arith, Lacks-before_last c d t p l.1)

-- str(n), with fuel; `decimal` gives enough, since each digit needs one round.
decimal_rounds : ℕ → ℕ → Text
decimal_rounds zero n = []
decimal_rounds (suc f) n =
    let rest = decimal_rounds f (n / 10) in
    if ltb n 10 then (48 + n) ∷ [] else rest ++ (48 + n % 10) ∷ []

unfoldable pub decimal : ℕ → Text
unfolding decimal_rounds
decimal n = decimal_rounds (suc n) n

-- The first character, if any, is no white space.
abbrev Begins : Text → Type 0
Begins [] = Unit
Begins (c ∷ t) = is_space c ≡ false

lstrip-Begins : (t : Text) → Begins (lstrip t)
unfolding lstrip
lstrip-Begins [] = tt
lstrip-Begins (c ∷ t) = elim (Bool-cases (is_space c)) [
  | inl h ↦ rw h (lstrip-Begins t)
  | inr h ↦ rw h h
]

lstrip_lem : (t : Text) → Begins t → lstrip t ≡ t
unfolding lstrip
lstrip_lem [] h = refl
lstrip_lem (c ∷ t) h = rw h refl

Begins-append : (t u : Text) → Begins (t ++ u) → Begins t
Begins-append [] u h = tt
Begins-append (c ∷ t) u h = h

lstrip-suffix : (t : Text) → (p : Text) × (p ++ lstrip t ≡ t)
unfolding lstrip
lstrip-suffix [] = ([], refl)
lstrip-suffix (c ∷ t) = elim (Bool-cases (is_space c)) [
  | inl h ↦ let (p, whole) = lstrip-suffix t in (c ∷ p, rw (h, whole) refl)
  | inr h ↦ ([], rw h refl)
]

-- What is stripped stays as it is when it is stripped again.
pub strip-strip : (t : Text) → strip (strip t) ≡ strip t
unfolding strip
strip-strip t =
    let a = lstrip t in
    let b = lstrip (reverse a) in
    let (p, whole) = lstrip-suffix (reverse a) in
    let parts : reverse b ++ reverse p ≡ a =
      sym (reverse-append p b) ∙ ap reverse whole ∙ reverse-reverse a in
    let front : Begins (reverse b) =
      Begins-append (reverse b) (reverse p) (subst Begins (sym parts) (lstrip-Begins t)) in
    ap (λ u. reverse (lstrip (reverse u))) (lstrip_lem (reverse b) front)
    ∙ ap (λ u. reverse (lstrip u)) (reverse-reverse b)
    ∙ ap reverse (lstrip_lem b (lstrip-Begins (reverse a)))
