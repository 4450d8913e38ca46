-- ===== src/Books/Parts.antt =====
-- The operations on the parts of a book (bookpart.rs).
use adaptarr_server.Prelude.{
  ℕ, ◌+◌, ◌-◌, ◌==◌, ◌&&◌, ◌||◌, not, Bool, true, false, Option, none, some, String, List, ◌∷◌, map,
  ltb, leb, if◌then◌else◌, Result, ok, err,
}
use adaptarr_server.Storage.{Table}
use adaptarr_server.Books.{
  Part, in_group, is_part, create_part, delete_part, clear_part, set_part_title, reparent_part,
  State,
}

pub data CreatePartError : Type 0 where
  -- A position leaves the range of an `i32`, or a foreign key finds no row.
  database : CreatePartError
  is_a_module : CreatePartError

pub data DeletePartError : Type 0 where
  root_group : DeletePartError

pub data GetPartsError : Type 0 where
  is_a_module : GetPartsError

pub data ReparentPartError : Type 0 where
  -- A position leaves the range of an `i32`, a key or a foreign key is broken, or the second query
  -- finds no row to move.
  database : ReparentPartError
  is_a_module : ReparentPartError

unfoldable pub is_module : Part → Bool
is_module r = elim r.module_id [ none ↦ false | some m ↦ true ]

-- `index + 1` and `index - 1`: the former only where `at_last` finds no position to be the last of
-- an `i32`, the latter only for positions behind another.
unfoldable pub later : Part → Part
later r = record r { index = r.index + 1 }

unfoldable pub sooner : Part → Part
sooner r = record r { index = r.index - 1 }

-- The position is the last that an `i32` has.
unfoldable pub at_last : Part → Bool
at_last r = leb 4294967295 r.index

-- The foreign key `module`.
unfoldable pub refers : (ℕ → Bool) → Option ℕ → Bool
refers is_known none = true
refers is_known (some m) = is_known m

module _ (table : Table Part Part.id) where
  open table use {Content, find, select, update, delete, insert, fresh}

  abbrev pub Books : Type 0
  Books = State Content

  unfoldable pub exists : (Part → Bool) → Content → Bool
  exists p c = elim (find p c) [ none ↦ false | some r ↦ true ]

  -- `is_known` says which modules there are.
  unfoldable pub create_at :
      (ℕ → Bool) → Part → ℕ → String → Option ℕ → Books → Result CreatePartError (Part × Books)
  create_at is_known self index title module_id s =
      if is_module self
      then err is_a_module
      else (let siblings : Part → Bool = λ r. in_group self.book self.id r && leb index r.index in
          let parts = update siblings later s.parts in
          let created : Part = record {
            book = self.book;
            id = fresh parts;
            title = title;
            module_id = module_id;
            parent = self.id;
            index = index;
          } in
          if exists (λ r. siblings r && at_last r) s.parts
            || not (exists (is_part self.book self.id) s.parts && refers is_known module_id)
          then err database
          else ok (
            created,
            record { parts = insert created parts; log = create_part self.book created ∷ s.log },
          ))

  unfoldable pub insert_module :
      (ℕ → Bool) → Part → ℕ → String → ℕ → Books → Result CreatePartError (Part × Books)
  insert_module is_known self index title module_id s =
      create_at is_known self index title (some module_id) s

  unfoldable pub create_group : Part → ℕ → String → Books → Result CreatePartError (Part × Books)
  create_group self index title s = create_at (λ m. false) self index title none s

  -- The query of `get_parts` and of `get_tree`: the group itself is left out, which matters for the
  -- group 0.
  unfoldable pub children : Part → Content → List Part
  children self = select (λ r. in_group self.book self.id r && not (r.id == self.id)) Part.index

  unfoldable pub get_parts : Part → Books → Result GetPartsError (List ℕ)
  get_parts self s =
      if is_module self then err is_a_module else ok (map Part.id (children self s.parts))

  unfoldable pub set_title : Part → String → Books → Part × Books
  set_title self title s =
      let rename : Part → Part = λ r. record r { title = title } in
      (
        rename self,
        record {
          parts = update (is_part self.book self.id) rename s.parts;
          log = set_part_title self.book self.id title ∷ s.log;
        },
      )

  -- The first component is the part in memory: what the second query returned.
  unfoldable pub reparent : Part → Part → ℕ → Books → Result ReparentPartError (Part × Books)
  reparent self new index s =
      if is_module new
      then err is_a_module
      else (let siblings : Part → Bool = λ r. in_group new.book new.id r && leb index r.index in
          let relocate : Part → Part =
            λ r. record r { book = new.book; parent = new.id; index = index } in
          let old_siblings : Part → Bool =
            λ r. in_group self.book self.parent r && ltb self.index r.index in
          let room = update siblings later s.parts in
          let moved = update (is_part self.book self.id) relocate room in
          let parts = update old_siblings sooner moved in
          -- The part that moves to another book takes no other parts along.
          let breaks_key : Bool =
            not (new.book == self.book)
            && (exists (in_group self.book self.id) moved
                || exists (is_part new.book self.id) s.parts) in
          if exists (λ r. siblings r && at_last r) s.parts
            || not (exists (is_part new.book new.id) s.parts)
            || breaks_key
          then err database
          else elim (find (is_part new.book self.id) moved) [
            | none ↦ err database
            | some data' ↦ ok (
              data',
              record { parts = parts; log = reparent_part self.book self.id new.id index ∷ s.log },
            )
          ])

  -- `cascade` is what the foreign key of the table does for deleted rows.
  module _ (cascade : (Part → Bool) → Content → Content) where
    unfoldable pub delete_self : Part → Books → Result DeletePartError Books
    delete_self self s =
        if self.id == 0
        then err root_group
        else ok (record {
          parts = cascade (is_part self.book self.id) s.parts;
          log = delete_part self.book self.id ∷ s.log;
        })

    unfoldable pub clear : Part → Books → Books
    clear self s = record {
      parts = cascade (λ r. in_group self.book self.id r && not (r.id == 0)) s.parts;
      log = clear_part self.book self.id ∷ s.log;
    }
