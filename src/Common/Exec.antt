-- ===== src/Common/Exec.antt =====
-- Calls that change a state and may raise: what was written before a raise stays written.
use mathlib.Core.Bool.{Bool}
use mathlib.Core.Option.{Option, none, some}
use social_badge_api.Common.Tests.{if◌then◌else◌}

pub data Result (E A : Type 0) : Type 0 where
  ok : A → Result E A
  err : E → Result E A

abbrev pub Exec : Type 0 → Type 0 → Type 0 → Type 0
Exec E W A = W → Result E A × W

module _ {E W : Type 0} where
  abbrev pub pure : {A : Type 0} → A → Exec E W A
  pure a w = (ok a, w)

  abbrev pub raise : {A : Type 0} → E → Exec E W A
  raise e w = (err e, w)

  abbrev pub gets : {A : Type 0} → (W → A) → Exec E W A
  gets f w = (ok (f w), w)

  abbrev pub modify : (W → W) → Exec E W (Unit {0})
  modify f w = (ok tt, f w)

  abbrev pub raise_if : Bool → E → Exec E W (Unit {0})
  raise_if c e w = (if c then err e else ok tt, w)

  abbrev pub or_raise : {A : Type 0} → Option A → E → Exec E W A
  or_raise none e w = (err e, w)
  or_raise (some a) e w = (ok a, w)

  infixl 5 ◌>>=◌ ◌>>◌
  abbrev pub ◌>>=◌ : {A B : Type 0} → Exec E W A → (A → Exec E W B) → Exec E W B
  ◌>>=◌ m f w = let (r, v) = m w in elim r [ ok a ↦ f a v | err e ↦ (err e, v) ]

  abbrev pub ◌>>◌ : {B : Type 0} → Exec E W (Unit {0}) → Exec E W B → Exec E W B
  m >> k = m >>= λ _. k
