-- ===== src/Books/Trees/Read.antt =====
-- Reading a tree of parts ends (bookpart.rs).
use adaptarr_server.Prelude.{
  ℕ, zero, suc, ◌<◌, ◌≡◌, ◌≢◌, inl, inr, ◌==◌, ◌&&◌, not, Option-cases, Option, none, some, String,
  List, [], ◌∷◌, Result, ok, expect, refl, arith,
}
use adaptarr_server.Storage.{In, Table}
use adaptarr_server.Books.{Part, in_group}
use adaptarr_server.Books.Parts.{children}
use adaptarr_server.Books.Trees.{
  Tree, Trees, tree_module, tree_group, no_trees, more_trees, collect_trees, get_tree,
}

module _ {Public : Type 0} (table : Table Part Part.id)
    (modules : ℕ → Option (String × Public)) where
  open table use {Content, Contains, select_iff}

  collect_trees-ok :
      (tree_of : Part → Result ⊥ (Tree Public)) (rs : List Part)
      → ((r : Part) → In r rs → (t : Tree Public) × (tree_of r ≡ ok t))
      → (ts : Trees Public) × (collect_trees table modules tree_of rs ≡ ok ts)
  unfolding collect_trees
  collect_trees-ok tree_of [] h = (no_trees, refl)
  collect_trees-ok tree_of (r ∷ rs) h =
      let (t, e) = h r (inl refl) in
      let (ts, es) = collect_trees-ok tree_of rs (λ s m. h s (inr m)) in
      (more_trees t ts, rw (e, es))

  -- What the query for the parts of a group finds.
  children_lem :
      (self : Part) (c : Content) (r : Part)
      → In r (children table self c)
      → Contains c r × (r.book ≡ self.book) × (r.parent ≡ self.id) × (r.id ≢ self.id)
  unfolding children in_group
  children_lem self c r m =
      let (here, hit) =
        (select_iff (λ r. in_group self.book self.id r && not (r.id == self.id)) Part.index c r).0
          m in
      (here, grind (arith, hit), grind (arith, hit), grind (arith, hit))

  get_tree-group :
      (fuel : ℕ) (self : Part) (c : Content) (ts : Trees Public)
      → self.module_id ≡ none
      → collect_trees table modules (λ r. get_tree table modules fuel r c) (children table self c)
        ≡ ok ts
      → get_tree table modules (suc fuel) self c ≡ ok (tree_group self.id self.title ts)
  unfolding get_tree collect_trees children
  get_tree-group fuel self c ts is_group e = rw (is_group, e)

  -- Where the parts of a group have a lower rank than the group, and the modules of parts exist,
  -- fuel above a part's rank is enough: `get_tree` ends, and returns a tree.
  pub get_tree-ok :
      (rank : Part → ℕ) (c : Content)
      → ((group r : Part)
          → Contains c group
          → Contains c r
          → r.book ≡ group.book
          → r.parent ≡ group.id
          → r.id ≢ group.id
          → rank r < rank group)
      → ((r : Part) (m : ℕ) → Contains c r → r.module_id ≡ some m → modules m ≢ none)
      → (fuel : ℕ) (self : Part) → Contains c self
      → rank self < fuel
      → (t : Tree Public) × (get_tree table modules fuel self c ≡ ok t)
  unfolding get_tree expect
  get_tree-ok rank c lower known zero self here enough = absurd (omega arith)
  get_tree-ok rank c lower known (suc fuel) self here enough = elim (Option-cases self.module_id) [
    | inr (m, is_one) ↦ elim (Option-cases (modules m)) [
      | inl gone ↦ absurd (known self m here is_one gone)
      | inr (((title, public)), e) ↦ (tree_module self.id self.title public, rw (is_one, e))
    ]
    | inl is_group ↦
        let (ts, e) =
          collect_trees-ok (λ r. get_tree table modules fuel r c) (children table self c)
            (λ r m.
              let (there, book, parent, other) = children_lem self c r m in
              let less = lower self r here there book parent other in
              get_tree-ok rank c lower known fuel r there (omega (arith, less, enough))) in
        (tree_group self.id self.title ts, get_tree-group fuel self c ts is_group e)
  ]
