-- ===== src/Platform/Table.antt =====
-- One database table, as app/services/ uses it through `select`, `update`, `delete` and `session.add`.
-- `rows` is a view for statements: the rows that the table holds, the newest first. No call of the
-- program returns it, so the order in which the database scans a table stays open.
use social_badge_api.Common.{
  ℕ, ◌≡◌, Bool, true, false, Option, none, some, List, ◌∷◌, map, filterb, countb, not, ◌&&◌, All,
  All-Member, Member, Option-cases, unique-Member, countb-pos, inl, inr, ◌≤◌, ◌∙◌, ap, arith, refl,
  countb-map-le, Member-map, if◌then◌else◌,
}
use mathlib.Core.Path.{subst}

pub record Table (Row : Type 0) : Type 1 where
  pub State : Type 0
  pub rows : State → List Row
  -- select(Row).where(p), then .scalars().first()
  pub first : (Row → Bool) → State → Option Row
  -- select(Row).where(p), in no order that the program relies on
  pub select : (Row → Bool) → State → List Row
  -- session.add(row), then flush
  pub insert : Row → State → State
  -- update(Row).where(p).values(f), and the UPDATE that a changed attribute flushes
  pub update : (Row → Bool) → (Row → Row) → State → State
  -- the `rowcount` of that update, and select(func.count(Row.id)).where(p)
  pub count : (Row → Bool) → State → ℕ
  -- delete(Row).where(p)
  pub delete : (Row → Bool) → State → State
  pub first-some :
      (p : Row → Bool) (s : State) (r : Row) → first p s ≡ some r → (p r ≡ true) × Member r (rows s)
  pub first-none : (p : Row → Bool) (s : State) → first p s ≡ none → All (λ r. p r ≡ false) (rows s)
  pub mem-select :
      (p : Row → Bool) (s : State) → All (λ r. (p r ≡ true) × Member r (rows s)) (select p s)
  pub count-select :
      (p q : Row → Bool) (s : State) → countb q (select p s) ≡ countb (λ r. p r && q r) (rows s)
  pub rows-insert : (r : Row) (s : State) → rows (insert r s) ≡ r ∷ rows s
  pub rows-update :
      (p : Row → Bool) (f : Row → Row) (s : State)
      → rows (update p f s) ≡ map (λ r. if p r then f r else r) (rows s)
  pub count-rows : (p : Row → Bool) (s : State) → count p s ≡ countb p (rows s)
  pub rows-delete :
      (p : Row → Bool) (s : State) → rows (delete p s) ≡ filterb (λ r. not (p r)) (rows s)

module _ {Row : Type 0} (t : Table Row) where
  -- Where at most one row matches and one is there, it is the one that is found.
  pub first_is :
      (p : Row → Bool) (s : t.State) (a : Row)
      → countb p (t.rows s) ≤ 1
      → Member a (t.rows s)
      → p a ≡ true
      → t.first p s ≡ some a
  first_is p s a one m h = elim (Option-cases (t.first p s)) [
    | inl e ↦ cc (h, All-Member (λ r. p r ≡ false) (t.rows s) a (t.first-none p s e) m)
    | inr (b, e) ↦
        let (q, n) = t.first-some p s b e in
        e ∙ ap some (unique-Member p b a (t.rows s) one n m q h)
  ]

  -- Where none matches, none is found.
  pub first_none_of : (p : Row → Bool) (s : t.State) → countb p (t.rows s) ≡ 0 → t.first p s ≡ none
  first_none_of p s zero_rows = elim (Option-cases (t.first p s)) [
    | inl e ↦ e
    | inr (b, e) ↦
        let (q, n) = t.first-some p s b e in absurd (omega (arith, countb-pos p b (t.rows s) n q))
  ]

  -- The row that an update changes is found changed.
  pub first-update :
      (p : Row → Bool) (f : Row → Row) (s : t.State) (a : Row)
      → countb p (t.rows s) ≤ 1
      → t.first p s ≡ some a
      → p (f a) ≡ true
      → t.first p (t.update p f s) ≡ some (f a)
  first-update p f s a one found keeps =
      let g : Row → Row = λ r. if p r then f r else r in
      let (q, m) = t.first-some p s a found in
      let image : g a ≡ f a = rw q refl in
      first_is p (t.update p f s) (f a)
        (rw t.rows-update (omega (arith, one, countb-map-le p g (t.rows s) (λ r. ground arith))))
        (rw t.rows-update
          (subst (λ x. Member x (map g (t.rows s))) image (Member-map g a (t.rows s) m)))
        keeps
