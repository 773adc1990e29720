-- ===== src/Platform/Redis.antt =====
-- The Redis server, as app/core/token.py and app/services/auth.py call it. Times are microseconds.
use social_badge_api.Common.{
  ℕ, suc, ◌+◌, ◌-◌, ◌*◌, ◌≤◌, ◌≡◌, Bool, true, false, Option, none, some, Text, text_eq, truthy,
  leb, if◌then◌else◌,
}

-- Microseconds in a second.
abbrev pub second : ℕ
second = 1000000

pub record Entry : Type 0 where
  pub value : Text
  pub deadline : Option ℕ

-- The reply of TTL: -2, -1, or the seconds left.
pub data Ttl : Type 0 where
  missing persistent : Ttl
  seconds : ℕ → Ttl

-- An entry is gone once its deadline has come.
abbrev pub live : ℕ → Option Entry → Option Entry
live now none = none
live now (some e) = elim e.deadline [ none ↦ some e | some d ↦ if leb d now then none else some e ]

abbrev pub read : ℕ → Option Entry → Option Text
read now o = elim (live now o) [ none ↦ none | some e ↦ some e.value ]

abbrev pub is_some : Option Text → Bool
is_some none = false
is_some (some v) = true

-- INCR keeps the time to live of a live counter, and makes a missing one with none.
abbrev pub bumped : ℕ → Option Entry → Text → Entry
bumped now o t = record {
  value = t;
  deadline = elim (live now o) [ none ↦ none | some e ↦ e.deadline ];
}

abbrev pub expiring : ℕ → Option Entry → Option Entry
expiring d none = none
expiring d (some e) = some (record e { deadline = some d })

-- `entry` is a view for statements: what the server stores under a key, expired or not.
pub record Redis : Type 1 where
  pub State : Type 0
  pub entry : State → Text → Option Entry
  -- the text of a counter, and Python's int() of a text
  pub decimal : ℕ → Text
  pub int : Text → Option ℕ
  pub int-decimal : (n : ℕ) → int (decimal n) ≡ some n
  pub decimal-truthy : (n : ℕ) → truthy (decimal n) ≡ true
  pub get : Text → ℕ → State → Option Text
  pub exists : Text → ℕ → State → Bool
  pub ttl : Text → ℕ → State → Ttl
  -- SET key value EX seconds, at a time
  pub set : Text → Text → ℕ → ℕ → State → State
  pub delete : Text → State → State
  pub getdel : Text → ℕ → State → Option Text × State
  pub incr : Text → ℕ → State → ℕ × State
  -- EXPIRE key seconds, at a time
  pub expire : Text → ℕ → ℕ → State → State
  pub get-entry : (k : Text) (now : ℕ) (s : State) → get k now s ≡ read now (entry s k)
  pub exists-entry :
      (k : Text) (now : ℕ) (s : State) → exists k now s ≡ is_some (read now (entry s k))
  -- the reply is rounded to whole seconds
  pub ttl-le :
      (k : Text) (now d n : ℕ) (v : Text) (s : State)
      → entry s k ≡ some (record { value = v; deadline = some d })
      → ttl k now s ≡ Ttl.seconds n
      → n * second ≤ (d - now) + second
  pub entry-set :
      (k : Text) (v : Text) (ex now : ℕ) (s : State) (j : Text)
      → entry (set k v ex now s) j ≡ (
          if text_eq k j
          then some (record { value = v; deadline = some (now + ex * second) })
          else entry s j)
  pub entry-delete :
      (k : Text) (s : State) (j : Text)
      → entry (delete k s) j ≡ (if text_eq k j then none else entry s j)
  pub getdel-value : (k : Text) (now : ℕ) (s : State) → (getdel k now s).0 ≡ read now (entry s k)
  pub entry-getdel :
      (k : Text) (now : ℕ) (s : State) (j : Text)
      → entry (getdel k now s).1 j ≡ (if text_eq k j then none else entry s j)
  pub incr-none :
      (k : Text) (now : ℕ) (s : State) → read now (entry s k) ≡ none → (incr k now s).0 ≡ 1
  pub incr-number :
      (k : Text) (now n : ℕ) (t : Text) (s : State)
      → read now (entry s k) ≡ some t
      → int t ≡ some n
      → (incr k now s).0 ≡ suc n
  pub entry-incr :
      (k : Text) (now : ℕ) (s : State) (j : Text)
      → entry (incr k now s).1 j ≡ (
          if text_eq k j
          then some (bumped now (entry s k) (decimal (incr k now s).0))
          else entry s j)
  pub entry-expire :
      (k : Text) (ex now : ℕ) (s : State) (j : Text)
      → entry (expire k ex now s) j
        ≡ (if text_eq k j then expiring (now + ex * second) (live now (entry s k)) else entry s j)
