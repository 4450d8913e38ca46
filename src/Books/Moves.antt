-- ===== src/Books/Moves.antt =====
-- Creating and moving parts of a book (bookpart.rs).
use adaptarr_server.Prelude.{
  ℕ, ◌+◌, ◌≡◌, ◌⊎◌, inl, inr, ◌==◌, ==_iff, ◌&&◌, ◌<◌, Bool, true, false, Bool-cases, Option-cases,
  Option, some, ◌∷◌, String, leb, ok, refl, sym, ap, arith,
}
use adaptarr_server.Storage.{Table}
use adaptarr_server.Books.{Part, in_group, is_part, State, create_part, reparent_part}
use adaptarr_server.Books.Parts.{
  exists, at_last, refers, later, sooner, is_module, create_at, reparent,
}
use adaptarr_server.Books.Positions.{
  changed, siblings_from, behind, relocated, IsValid, IsFree, later-IsValid, sooner-IsValid,
  moved-IsValid, insert-IsValid,
}

module _ (table : Table Part Part.id) where
  open table use {
    Content, Contains, find, find_some, find_none, update, insert, fresh, update_iff, insert_iff,
    fresh_lem,
  }

  -- Every position of the group is before the last that an `i32` has.
  abbrev pub HasRoom : Content → ℕ → ℕ → Type 0
  HasRoom c book group =
      (r : Part) → Contains c r → r.book ≡ book → r.parent ≡ group → r.index < 4294967295

  room_left :
      (book group index : ℕ) (c : Content)
      → HasRoom c book group
      → exists table (λ r. siblings_from book group index r && at_last r) c ≡ false
  unfolding exists at_last in_group
  room_left book group index c free =
      elim (Option-cases (find (λ r. siblings_from book group index r && at_last r) c)) [
        | inl gone ↦ rw (exists, gone) refl
        | inr (r, found) ↦
            let (here, hit) =
              find_some (λ r. siblings_from book group index r && at_last r) c r found in
            absurd (grind (arith, hit, free r here (grind (arith, hit)) (grind (arith, hit))))
      ]

  row_there :
      (c : Content) (group : Part)
      → Contains c group
      → exists table (is_part group.book group.id) c ≡ true
  unfolding exists is_part
  row_there c group here = elim (Option-cases (find (is_part group.book group.id) c)) [
    | inr (r, found) ↦ rw (exists, found) refl
    | inl gone ↦ absurd (grind (arith, find_none (is_part group.book group.id) c group gone here))
  ]

  -- In a table whose groups have distinct positions, a new part takes its position in a group of the
  -- table that is not a module and has no part at the last position of an `i32`, and the others make
  -- room: the parts of every group keep distinct positions. The module, if any, exists.
  pub create_at-IsValid :
      (is_known : ℕ → Bool) (self : Part) (index : ℕ) (title : String) (module_id : Option ℕ)
      (s : State Content)
      → IsValid table s.parts
      → is_module self ≡ false
      → Contains s.parts self
      → HasRoom s.parts self.book self.id
      → refers is_known module_id ≡ true
      → (r : Part) × (after : State Content) × (create_at table is_known self index title module_id
            s
          ≡ ok (r, after))
        × IsValid table after.parts
        × Contains after.parts r
        × (r.parent ≡ self.id)
        × (r.index ≡ index)
        × (r.module_id ≡ module_id)
  unfolding create_at
  create_at-IsValid is_known self index title module_id s h group here free known =
      let (valid, gap) = later-IsValid table self.book self.id index s.parts h in
      let room = update (siblings_from self.book self.id index) later s.parts in
      let created : Part = record {
        book = self.book;
        id = fresh room;
        title = title;
        module_id = module_id;
        parent = self.id;
        index = index;
      } in
      (
        created,
        record { parts = insert created room; log = create_part self.book created ∷ s.log },
        rw (
          group,
          room_left self.book self.id index s.parts free,
          row_there s.parts self here,
          known,
        ),
        insert-IsValid table created room valid (λ r m e. fresh_lem room r m (sym e)) gap,
        (insert_iff created room created).1 (inl refl),
        refl,
        refl,
        refl,
      )

  module _ (self new : Part) (index : ℕ) (c : Content) where
    abbrev room : Content
    room = update (siblings_from new.book new.id index) later c

    abbrev moved : Content
    moved = update (is_part self.book self.id) (relocated new.book new.id index) room

    -- Where a row of the table with the part moved comes from.
    moved_from :
        (r : Part)
        → Contains moved r
        → (s : Part) × Contains c s
          × (r
              ≡ changed
                  (is_part self.book self.id)
                  (relocated new.book new.id index)
                  (changed (siblings_from new.book new.id index) later s))
    moved_from r hr =
        let (m, hm, em) =
          (update_iff (is_part self.book self.id) (relocated new.book new.id index) room r).0 hr in
        let (s, hs, es) = (update_iff (siblings_from new.book new.id index) later c m).0 hm in
        (s, hs, cc (em, es))

    -- The position that the part had, or the one behind it, is free.
    vacated :
        IsValid table c
        → Contains c self
        → new.book ≡ self.book
        → IsFree table moved self.book self.parent self.index
          ⊎ IsFree table moved self.book self.parent (self.index + 1)
    unfolding in_group later is_part
    vacated h here same_book = elim (Bool-cases (new.id == self.parent && leb index self.index)) [
      | inl back ↦ inr (λ r hr eb eg ei.
          let (s, hs, e) = moved_from r hr in
          grind (
            arith,
            h.position s self hs here,
            ap Part.book e,
            ap Part.parent e,
            ap Part.index e,
            back,
          ))
      | inr away ↦ inl (λ r hr eb eg ei.
          let (s, hs, e) = moved_from r hr in
          grind (
            arith,
            h.position s self hs here,
            ap Part.book e,
            ap Part.parent e,
            ap Part.index e,
            away,
          ))
    ]

    -- The row of the part is found again where it moved to.
    refound :
        Contains c self
        → new.book ≡ self.book
        → (r : Part) × (find (is_part new.book self.id) moved ≡ some r)
          × (r.id ≡ self.id)
          × (r.parent ≡ new.id)
          × (r.index ≡ index)
    unfolding in_group later is_part
    refound here same_book = elim (Option-cases (find (is_part new.book self.id) moved)) [
      | inr (r, e) ↦
          let (hr, hit) = find_some (is_part new.book self.id) moved r e in
          let (s, hs, from) = moved_from r hr in
          (
            r,
            e,
            grind (arith, hit),
            grind (arith, hit, ap Part.book from, ap Part.parent from, ap Part.id from),
            grind (arith, hit, ap Part.book from, ap Part.index from, ap Part.id from),
          )
      | inl gone ↦
          let shifted = changed (siblings_from new.book new.id index) later self in
          let there = relocated new.book new.id index shifted in
          let hm : Contains room shifted =
            (update_iff (siblings_from new.book new.id index) later c shifted).1
              (self, here, refl) in
          let hit : is_part self.book self.id shifted ≡ true = grind arith in
          let found : Contains moved there =
            (update_iff (is_part self.book self.id) (relocated new.book new.id index) room there).1
              (shifted, hm, rw hit) in
          let miss = find_none (is_part new.book self.id) moved there gone found in
          absurd (grind (arith, miss))
    ]

  -- In a table whose groups have distinct positions, a part moves to a position of another group
  -- of the same book, or of its own, that is not a module and has no part at the last position of an
  -- `i32`: the move succeeds and gives back the part in that group and at that position, and the parts
  -- of every group keep distinct positions.
  pub reparent-IsValid :
      (self new : Part) (index : ℕ) (s : State Content)
      → IsValid table s.parts
      → Contains s.parts self
      → Contains s.parts new
      → HasRoom s.parts new.book new.id
      → is_module new ≡ false
      → new.book ≡ self.book
      → (r : Part) × (after : State Content) × (reparent table self new index s ≡ ok (r, after))
        × IsValid table after.parts
        × (r.id ≡ self.id)
        × (r.parent ≡ new.id)
        × (r.index ≡ index)
  unfolding reparent
  reparent-IsValid self new index s h here there free group same_book =
      let (valid, gap) = later-IsValid table new.book new.id index s.parts h in
      let valid' =
        moved-IsValid table new.book self.book self.id new.id index (room self new index s.parts)
          same_book valid gap in
      let (r, e, id, parent, at) = refound self new index s.parts here same_book in
      (
        r,
        record {
          parts =
              update (behind self.book self.parent self.index) sooner
                (moved self new index s.parts);
          log = reparent_part self.book self.id new.id index ∷ s.log;
        },
        rw (
          group,
          room_left new.book new.id index s.parts free,
          row_there s.parts new there,
          (==_iff new.book self.book).1 same_book,
          e,
        ),
        sooner-IsValid table self.book self.parent self.index (moved self new index s.parts) valid'
            (vacated self new index s.parts h here same_book),
        id,
        parent,
        at,
      )
