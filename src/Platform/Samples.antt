-- ===== src/Platform/Samples.antt =====
-- A list of rows and a function from keys meet the laws of the two services: the theorems are tried
-- on these.
use social_badge_api.Common.{
  ℕ, suc, ◌+◌, ◌-◌, ◌*◌, ◌/◌, ◌≤◌, ◌≡◌, refl, inl, inr, Bool, true, false, Option, none, some, List,
  [], ◌∷◌, map, filterb, countb, not, ◌&&◌, All, All-imp, Member, Text, text_eq, Bool-cases,
  if◌then◌else◌, arith,
}
use social_badge_api.Platform.Table.{Table}
use social_badge_api.Platform.Redis.{
  Redis, Entry, Ttl, missing, persistent, seconds, second, live, read, is_some, bumped, expiring,
}

module _ {Row : Type 0} where
  abbrev pub head_of : List Row → Option Row
  head_of [] = none
  head_of (r ∷ rs) = some r

  pub first-some :
      (p : Row → Bool) (s : List Row) (r : Row)
      → head_of (filterb p s) ≡ some r
      → (p r ≡ true) × Member r s
  first-some p [] r h = cc
  first-some p (x ∷ s) r h = ground (arith, first-some p s r)

  pub first-none :
      (p : Row → Bool) (s : List Row) → head_of (filterb p s) ≡ none → All (λ r. p r ≡ false) s
  first-none p [] h = tt
  first-none p (x ∷ s) h = ground (arith, first-none p s)

  weaken :
      (p : Row → Bool) (x : Row) (s l : List Row)
      → All (λ r. (p r ≡ true) × Member r s) l
      → All (λ r. (p r ≡ true) × Member r (x ∷ s)) l
  weaken p x s l =
      All-imp (λ r. (p r ≡ true) × Member r s) (λ r. (p r ≡ true) × Member r (x ∷ s)) l
        (λ a h. (h.0, inr h.1))

  pub mem-select :
      (p : Row → Bool) (s : List Row) → All (λ r. (p r ≡ true) × Member r s) (filterb p s)
  mem-select p [] = tt
  mem-select p (x ∷ s) =
      let rest = weaken p x s (filterb p s) (mem-select p s) in
      elim (Bool-cases (p x)) [ inl e ↦ rw e ((e, inl refl), rest) | inr e ↦ rw e rest ]

  pub count-select :
      (p q : Row → Bool) (s : List Row) → countb q (filterb p s) ≡ countb (λ r. p r && q r) s
  count-select p q [] = refl
  count-select p q (x ∷ s) = ground (arith, count-select p q s)

-- The table as the list of its rows.
abbrev pub list_table : (Row : Type 0) → Table Row
list_table Row = record {
  State = List Row;
  rows = λ s. s;
  first = λ p s. head_of (filterb p s);
  select = filterb;
  insert = λ r s. r ∷ s;
  update = λ p f s. map (λ r. if p r then f r else r) s;
  count = countb;
  delete = λ p s. filterb (λ r. not (p r)) s;
  first-some = first-some;
  first-none = first-none;
  mem-select = mem-select;
  count-select = count-select;
  rows-insert = λ r s. refl;
  rows-update = λ p f s. refl;
  count-rows = λ p s. refl;
  rows-delete = λ p s. refl;
}

abbrev pub Keys : Type 0
Keys = Text → Option Entry

abbrev pub store : Text → Option Entry → Keys → Keys
store k e s j = if text_eq k j then e else s j

-- A number written with one digit, itself.
abbrev pub decimal : ℕ → Text
decimal n = n ∷ []

abbrev pub int : Text → Option ℕ
int [] = none
int (n ∷ []) = some n
int (n ∷ m ∷ t) = none

abbrev pub next : Option Text → ℕ
next none = 1
next (some t) = elim (int t) [ none ↦ 1 | some n ↦ suc n ]

abbrev pub remaining : ℕ → Option Entry → Ttl
remaining now none = missing
remaining now (some e) = elim e.deadline [
  | none ↦ persistent
  | some d ↦ seconds ((d - now) / second)
]

pub ttl-le :
    (k : Text) (now d n : ℕ) (v : Text) (s : Keys)
    → s k ≡ some (record { value = v; deadline = some d })
    → remaining now (s k) ≡ seconds n
    → n * second ≤ (d - now) + second
ttl-le k now d n v s e h = ground (arith, bound e h)
  where
    bound :
        s k ≡ some (record { value = v; deadline = some d })
        → remaining now (s k) ≡ seconds n
        → n ≡ (d - now) / second
    bound e h = ground arith

pub incr-number :
    (k : Text) (now n : ℕ) (t : Text) (s : Keys)
    → read now (s k) ≡ some t
    → int t ≡ some n
    → next (read now (s k)) ≡ suc n
incr-number k now n t s h e = rw h (rw (e, next))

-- The server as a function from keys to entries.
abbrev pub key_redis : Redis
key_redis = record {
  State = Keys;
  entry = λ s k. s k;
  decimal = decimal;
  int = int;
  int-decimal = λ n. refl;
  decimal-truthy = λ n. refl;
  get = λ k now s. read now (s k);
  exists = λ k now s. is_some (read now (s k));
  ttl = λ k now s. remaining now (s k);
  set =
      λ k v ex now s. store k (some (record { value = v; deadline = some (now + ex * second) })) s;
  delete = λ k s. store k none s;
  getdel = λ k now s. (read now (s k), store k none s);
  incr = λ k now s.
      let n = next (read now (s k)) in (n, store k (some (bumped now (s k) (decimal n))) s);
  expire = λ k ex now s. store k (expiring (now + ex * second) (live now (s k))) s;
  get-entry = λ k now s. refl;
  exists-entry = λ k now s. refl;
  ttl-le = ttl-le;
  entry-set = λ k v ex now s j. refl;
  entry-delete = λ k s j. refl;
  getdel-value = λ k now s. refl;
  entry-getdel = λ k now s j. refl;
  incr-none = λ k now s h. rw h refl;
  incr-number = incr-number;
  entry-incr = λ k now s j. refl;
  entry-expire = λ k ex now s j. refl;
}
