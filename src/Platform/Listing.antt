-- ===== src/Platform/Listing.antt =====
-- A paginated query: SELECT with WHERE, ORDER BY, OFFSET and LIMIT, next to its count.
use social_badge_api.Common.{
  ℕ, suc, ◌*◌, ◌≤◌, ◌≡◌, ◌∙◌, sym, ap, refl, Bool, true, false, ◌&&◌, List, [], ◌∷◌, length, countb,
  arith,
}
use social_badge_api.Common.Exec.{Result, ok, err}
use social_badge_api.Common.Order.{
  sort_by, IsOrdered, sort_by-IsOrdered, countb-sort_by, length-sort_by, page_of, joined,
  first_pages, first_pages_all,
}
use social_badge_api.Platform.Table.{Table}

-- A comparison that ORDER BY may use.
pub record Order {A : Type 0} (le : A → A → Bool) : Type 0 where
  pub total : (a b : A) → le a b ≡ false → le b a ≡ true
  pub trans : (a b c : A) → le a b ≡ true → le b c ≡ true → le a c ≡ true

-- The rows of a response with a page and a total.
abbrev pub listed : {E A : Type 0} → Result E (List A × ℕ) → List A
listed (ok (rows, total)) = rows
listed (err x) = []

count_all : {A : Type 0} (xs : List A) → countb (λ a. true) xs ≡ length xs
count_all [] = refl
count_all (x ∷ xs) = ap suc (count_all xs)

count_and_true :
    {A : Type 0} (p : A → Bool) (xs : List A) → countb (λ a. p a && true) xs ≡ countb p xs
count_and_true p [] = refl
count_and_true p (x ∷ xs) = ground (arith, count_and_true p xs)

-- The pages hold the matching rows and no others, each as often as the table, in the order.
pub record IsListing {A : Type 0} (le : A → A → Bool) (p : A → Bool) (rows shown : List A)
    : Type 0 where
  pub ordered : IsOrdered le shown
  pub complete : (q : A → Bool) → countb q shown ≡ countb (λ a. p a && q a) rows

module _ {Row : Type 0} (t : Table Row) where
  pub length-select : (p : Row → Bool) (s : t.State) → length (t.select p s) ≡ t.count p s
  length-select p s =
      sym (count_all (t.select p s))
      ∙ (t.count-select p (λ a. true) s ∙ (count_and_true p (t.rows s) ∙ sym (t.count-rows p s)))

module _ {Row : Type 0} (t : Table Row) (le : Row → Row → Bool) where
  -- One page of the rows that match.
  unfoldable pub query : (Row → Bool) → ℕ → ℕ → t.State → List Row
  query p page limit s = page_of page limit (sort_by le (t.select p s))

  pub query-IsListing :
      Order le
      → (p : Row → Bool) (k limit : ℕ) (s : t.State) → t.count p s ≤ k * limit
      → IsListing le p (t.rows s) (joined (λ i. query p i limit s) k)
  unfolding query
  query-IsListing o p k limit s fits =
      let xs = sort_by le (t.select p s) in
      let size : length xs ≡ t.count p s = length-sort_by le (t.select p s) ∙ length-select t p s in
      let whole : first_pages k limit xs ≡ xs =
        first_pages_all k limit xs (omega (arith, size, fits)) in
      rw whole (record {
        ordered = sort_by-IsOrdered le o.total o.trans (t.select p s);
        complete = λ q. countb-sort_by le q (t.select p s) ∙ t.count-select p q s;
      })
