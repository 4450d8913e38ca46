-- ===== src/Storage.antt =====
-- Tables of the database, which the models reach through the query builder of the crate `diesel`.
-- What a query does is the parameter `Table`: a table is a set of rows. A query that the database
-- refuses ends the transaction around it and leaves no trace; it is not modelled.
pub mod Lists
pub mod Joins
pub mod Groups
pub mod Upserts
pub mod Orders
use adaptarr_server.Prelude.{
  ℕ, ◌≤◌, ◌≡◌, ◌≢◌, ◌↔◌, ◌⊎◌, Bool, true, false, Option, none, some, List, [], ◌∷◌, All,
  if◌then◌else◌,
}

-- Membership in a list, by cases.
abbrev pub In : {Row : Type 0} → Row → List Row → Type 0
In r [] = ⊥
In r (x ∷ xs) = (r ≡ x) ⊎ In r xs

-- A list of rows in ascending order of a column.
abbrev pub Ascending : {Row : Type 0} → (Row → ℕ) → List Row → Type 0
Ascending by [] = Unit
Ascending by (r ∷ rs) = All (λ s. by r ≤ by s) rs × Ascending by rs

-- The queries on one table, and their documented behaviour. `key` is a column of serial numbers.
pub record Table (Row : Type 0) (key : Row → ℕ) : Type 1 where
  pub Content : Type 0
  pub Contains : Content → Row → Type 0
  -- `get_result(…).optional()`.
  pub find : (Row → Bool) → Content → Option Row
  -- `order_by(… .asc()).get_results(…)`; without an order the column is the key.
  pub select : (Row → Bool) → (Row → ℕ) → Content → List Row
  pub update : (Row → Bool) → (Row → Row) → Content → Content
  pub delete : (Row → Bool) → Content → Content
  pub insert : Row → Content → Content
  -- The next serial number.
  pub fresh : Content → ℕ
  pub find_some :
      (p : Row → Bool) (c : Content) (r : Row) → find p c ≡ some r → Contains c r × (p r ≡ true)
  pub find_none :
      (p : Row → Bool) (c : Content) (r : Row) → find p c ≡ none → Contains c r → p r ≡ false
  pub select_iff :
      (p : Row → Bool) (by : Row → ℕ) (c : Content) (r : Row)
      → In r (select p by c) ↔ (Contains c r × (p r ≡ true))
  pub select_ascending :
      (p : Row → Bool) (by : Row → ℕ) (c : Content) → Ascending by (select p by c)
  pub update_iff :
      (p : Row → Bool) (f : Row → Row) (c : Content) (r : Row)
      → Contains (update p f c) r ↔ ((s : Row) × Contains c s × (r ≡ (if p s then f s else s)))
  pub delete_iff :
      (p : Row → Bool) (c : Content) (r : Row)
      → Contains (delete p c) r ↔ (Contains c r × (p r ≡ false))
  pub insert_iff :
      (x : Row) (c : Content) (r : Row) → Contains (insert x c) r ↔ ((r ≡ x) ⊎ Contains c r)
  pub fresh_lem : (c : Content) (r : Row) → Contains c r → key r ≢ fresh c
