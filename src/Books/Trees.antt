-- ===== src/Books/Trees.antt =====
-- Trees of book parts (bookpart.rs): creating one, and reading one back. The modules of the server
-- are a lookup from an identifier to the title and the public data of a module.
pub mod Read
use adaptarr_server.Prelude.{
  ℕ, zero, suc, ◌+◌, ◌%◌, ◌^◌, ◌==◌, ◌&&◌, not, Bool, true, false, Option, none, some, String, List,
  [], ◌∷◌, if◌then◌else◌, Result, ok, err, panic, stuck, expect, ◌>>=◌,
}
use adaptarr_server.Storage.{Table}
use adaptarr_server.Books.{Part, in_group, State}
use adaptarr_server.Books.Parts.{CreatePartError, is_module, children, insert_module, create_group}

mutual
  pub data NewTree : Type 0 where
    new_module : Option String → ℕ → NewTree
    new_group : String → NewTrees → NewTree

  -- `Vec<NewTree>`
  pub data NewTrees : Type 0 where
    no_new : NewTrees
    more_new : NewTree → NewTrees → NewTrees

pub data RealizeTemplateError : Type 0 where
  is_a_module : RealizeTemplateError
  module_not_found : RealizeTemplateError
  create_part : CreatePartError → RealizeTemplateError

-- `From<CreatePartError>`, and the `?` that uses it.
unfoldable pub created {ℓ} : {A : Type ℓ} → Result CreatePartError A → Result RealizeTemplateError A
created (ok a) = ok a
created (err e) = err (create_part e)
created panic = panic
created stuck = stuck

-- `as i32` keeps the low 32 bits; a position is a number greater by 2^31.
unfoldable pub nth_index : ℕ → ℕ
nth_index n = (n + 2 ^ 31) % 2 ^ 32

module _ (Public : Type 0) where
  mutual
    pub data Tree : Type 0 where
      tree_module : ℕ → String → Public → Tree
      tree_group : ℕ → String → Trees → Tree

    -- `Vec<Tree>`
    pub data Trees : Type 0 where
      no_trees : Trees
      more_trees : Tree → Trees → Trees

module _ {Public : Type 0} (table : Table Part Part.id)
    (modules : ℕ → Option (String × Public)) where
  open table use {Content}

  abbrev is_known : ℕ → Bool
  is_known m = elim (modules m) [ none ↦ false | some known ↦ true ]

  -- `create_part_inner`; `create_parts` is its loop over the parts of a group.
  unfoldable mutual
    pub create_part_inner :
        Part
        → ℕ
        → NewTree
        → State Content
        → Result RealizeTemplateError (Tree Public × State Content)
    create_part_inner self index (new_module title module_id) s = do
      (module_title, public) ← elim (modules module_id) [
        | none ↦ err module_not_found
        | some known ↦ ok known
      ]
      let shown : String = elim title [ none ↦ module_title | some own ↦ own ]
      (part, s) ← created (insert_module table is_known self index shown module_id s)
      ok (tree_module part.id shown public, s)
    create_part_inner self index (new_group title parts) s = do
      (group, s) ← created (create_group table self index title s)
      (trees, s) ← create_parts group zero parts s
      ok (tree_group group.id title trees, s)

    pub create_parts :
        Part
        → ℕ
        → NewTrees
        → State Content
        → Result RealizeTemplateError (Trees Public × State Content)
    create_parts group n no_new s = ok (no_trees, s)
    create_parts group n (more_new t ts) s = do
      (tree, s) ← create_part_inner group (nth_index n) t s
      (trees, s) ← create_parts group (suc n) ts s
      ok (more_trees tree trees, s)

  unfoldable pub create_tree :
      Part → ℕ → NewTree → State Content → Result RealizeTemplateError (Tree Public × State Content)
  create_tree self index tree s =
      if is_module self then err is_a_module else create_part_inner self index tree s

  -- `.map(…get_tree…).collect::<Result<Vec<_>, _>>()`
  unfoldable pub collect_trees :
      (Part → Result ⊥ (Tree Public)) → List Part → Result ⊥ (Trees Public)
  collect_trees tree_of [] = ok no_trees
  collect_trees tree_of (r ∷ rs) = do
    tree ← tree_of r
    trees ← collect_trees tree_of rs
    ok (more_trees tree trees)

  -- The first argument is fuel; the source runs on while a group has parts.
  unfoldable pub get_tree : ℕ → Part → Content → Result ⊥ (Tree Public)
  get_tree zero self c = stuck
  get_tree (suc fuel) self c = elim self.module_id [
    | some module_id ↦ do
      (title, public) ← expect (modules module_id)
      ok (tree_module self.id self.title public)
    | none ↦ do
      trees ← collect_trees (λ r. get_tree fuel r c) (children table self c)
      ok (tree_group self.id self.title trees)
  ]
