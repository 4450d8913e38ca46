-- ===== src/Books/Examples.antt =====
-- A book with a module and a group, in a table that is a list of rows.
use adaptarr_server.Prelude.{
  ℕ, ◌<◌, ◌≡◌, ◌≢◌, inl, inr, ◌==◌, if◌then◌else◌, Option, none, true, some, String, List, [], ◌∷◌,
  ok, refl, sym, subst, arith,
}
use adaptarr_server.Storage.{In, Table}
use adaptarr_server.Storage.Lists.{list_table, update, find}
use adaptarr_server.Books.{Part, in_group, is_part, State, reparent_part}
use adaptarr_server.Books.Parts.{
  is_module, exists, at_last, refers, later, sooner, create_at, reparent,
}
use adaptarr_server.Books.Positions.{IsValid}
use adaptarr_server.Books.Moves.{HasRoom, create_at-IsValid, reparent-IsValid}
use adaptarr_server.Books.Trees.{NewTree, new_module, new_group, no_new, more_new, Tree, get_tree}
use adaptarr_server.Books.Trees.Read.{get_tree-ok}

abbrev rows : Table Part Part.id
rows = list_table Part Part.id

abbrev root : Part
root = record { book = 9; id = 0; title = "Physics"; module_id = none; parent = 0; index = 0 }

abbrev intro : Part
intro = record {
  book = 9;
  id = 1;
  title = "Introduction";
  module_id = some 70;
  parent = 0;
  index = 1;
}

abbrev chapter : Part
chapter = record { book = 9; id = 2; title = "Motion"; module_id = none; parent = 0; index = 2 }

abbrev book : List Part
book = root ∷ intro ∷ chapter ∷ []

abbrev start : State (List Part)
start = record { parts = book; log = [] }

abbrev modules : ℕ → Option (String × ℕ)
modules m = some ("Introduction", m)

abbrev template : NewTree
template =
    new_group "Forces" (more_new (new_module none 70) (more_new (new_group "Energy" no_new) no_new))

one_of : (P : Part → Type 0) → P root → P intro → P chapter → (r : Part) → In r book → P r
one_of P a b c r (inl e) = subst P (sym e) a
one_of P a b c r (inr (inl e)) = subst P (sym e) b
one_of P a b c r (inr (inr (inl e))) = subst P (sym e) c
one_of P a b c r (inr (inr (inr e))) = absurd e

book-IsValid : IsValid rows book
book-IsValid = record {
  key = λ r s hr hs eb ei.
      one_of (λ r. r.id ≡ s.id → r ≡ s)
        (one_of (λ s. 0 ≡ s.id → root ≡ s) (λ e. refl) (λ e. absurd (omega arith))
          (λ e. absurd (omega arith)) s hs)
        (one_of (λ s. 1 ≡ s.id → intro ≡ s) (λ e. absurd (omega arith)) (λ e. refl)
          (λ e. absurd (omega arith)) s hs)
        (one_of (λ s. 2 ≡ s.id → chapter ≡ s) (λ e. absurd (omega arith))
          (λ e. absurd (omega arith)) (λ e. refl) s hs)
        r hr ei;
  position = λ r s hr hs eb ep ei.
      one_of (λ r. r.index ≡ s.index → r ≡ s)
        (one_of (λ s. 0 ≡ s.index → root ≡ s) (λ e. refl) (λ e. absurd (omega arith))
          (λ e. absurd (omega arith)) s hs)
        (one_of (λ s. 1 ≡ s.index → intro ≡ s) (λ e. absurd (omega arith)) (λ e. refl)
          (λ e. absurd (omega arith)) s hs)
        (one_of (λ s. 2 ≡ s.index → chapter ≡ s) (λ e. absurd (omega arith))
          (λ e. absurd (omega arith)) (λ e. refl) s hs)
        r hr ei;
}

rank : Part → ℕ
rank r = if r.id == 0 then 1 else 0

lower :
    (group r : Part)
    → In group book
    → In r book
    → r.book ≡ group.book
    → r.parent ≡ group.id
    → r.id ≢ group.id
    → rank r < rank group
unfolding rank
lower group r listed =
    one_of (λ r. r.book ≡ group.book → r.parent ≡ group.id → r.id ≢ group.id → rank r < rank group)
      (λ eb ep ne. absurd (ne ep)) (λ eb ep ne. grind (arith, ep)) (λ eb ep ne. grind (arith, ep)) r

low_positions : (group : ℕ) → HasRoom rows book 9 group
low_positions group r here eb eg =
    one_of (λ r. r.index < 4294967295) (omega arith) (omega arith) (omega arith) r here

create_at-IsValid_example :
    (r : Part) × (after : State (List Part)) × (create_at rows
        (λ m. true)
        root
        1
        "Forces"
        none
        start
      ≡ ok (r, after))
    × IsValid rows after.parts
    × In r after.parts
    × (r.parent ≡ 0)
    × (r.index ≡ 1)
    × (r.module_id ≡ none)
unfolding is_module refers
create_at-IsValid_example =
    create_at-IsValid rows (λ m. true) root 1 "Forces" none start book-IsValid refl (inl refl)
      (low_positions 0) refl

reparent-IsValid_example :
    (r : Part) × (after : State (List Part)) × (reparent rows intro chapter 0 start ≡ ok (r, after))
    × IsValid rows after.parts
    × (r.id ≡ 1)
    × (r.parent ≡ 2)
    × (r.index ≡ 0)
unfolding is_module
reparent-IsValid_example =
    reparent-IsValid rows intro chapter 0 start book-IsValid (inr (inl refl)) (inr (inr (inl refl)))
      (low_positions 2) refl refl

get_tree-ok_example : (t : Tree ℕ) × (get_tree rows modules 2 root book ≡ ok t)
unfolding rank
get_tree-ok_example =
    get_tree-ok rows modules rank book lower (λ r m here e gone. cc gone) 2 root (inl refl)
      (omega arith)

-- Motion moves to the front of the book.
moved_test :
    reparent rows chapter root 0 start
    ≡ ok (
      record chapter { index = 0 },
      record {
        parts =
            record root { index = 1 }
            ∷ record intro { index = 2 }
            ∷ record chapter { index = 0 }
            ∷ [];
        log = reparent_part 9 2 0 0 ∷ [];
      },
    )
unfolding reparent exists at_last in_group is_part later sooner is_module update find
moved_test = refl
