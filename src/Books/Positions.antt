-- ===== src/Books/Positions.antt =====
-- The positions of the parts of a group stay distinct (bookpart.rs).
use adaptarr_server.Prelude.{
  ℕ, ◌+◌, ◌≡◌, ◌≢◌, ◌⊎◌, inl, inr, ◌&&◌, Bool, Bool-cases, ltb, leb, if◌then◌else◌, ap, arith,
}
use adaptarr_server.Storage.{Table}
use adaptarr_server.Books.{Part, in_group, is_part}
use adaptarr_server.Books.Parts.{later, sooner}

-- What the update does to one row.
abbrev pub changed : (Part → Bool) → (Part → Part) → Part → Part
changed p f r = if p r then f r else r

abbrev pub siblings_from : ℕ → ℕ → ℕ → Part → Bool
siblings_from book group index r = in_group book group r && leb index r.index

abbrev pub behind : ℕ → ℕ → ℕ → Part → Bool
behind book group index r = in_group book group r && ltb index r.index

abbrev pub relocated : ℕ → ℕ → ℕ → Part → Part
relocated book group index r = record r { book = book; parent = group; index = index }

module _ (table : Table Part Part.id) where
  open table use {
    Content, Contains, find, find_some, find_none, update, insert, fresh, update_iff, insert_iff,
    fresh_lem,
  }

  -- The primary key, and the unique constraint on book, parent and index.
  pub record IsValid (c : Content) : Type 0 where
    pub key : (r s : Part) → Contains c r → Contains c s → r.book ≡ s.book → r.id ≡ s.id → r ≡ s
    pub position :
        (r s : Part)
        → Contains c r
        → Contains c s
        → r.book ≡ s.book
        → r.parent ≡ s.parent
        → r.index ≡ s.index
        → r ≡ s

  -- No part of the group stands at the position.
  abbrev pub IsFree : Content → ℕ → ℕ → ℕ → Type 0
  IsFree c book group index =
      (r : Part) → Contains c r → r.book ≡ book → r.parent ≡ group → r.index ≢ index

  -- An update keeps the constraints when two rows whose images clash are one row.
  pub update-IsValid :
      (p : Part → Bool) (f : Part → Part) (c : Content)
      → ((r s : Part)
          → Contains c r
          → Contains c s
          → (changed p f r).book ≡ (changed p f s).book
          → (changed p f r).id ≡ (changed p f s).id
          → r ≡ s)
      → ((r s : Part)
          → Contains c r
          → Contains c s
          → (changed p f r).book ≡ (changed p f s).book
          → (changed p f r).parent ≡ (changed p f s).parent
          → (changed p f r).index ≡ (changed p f s).index
          → r ≡ s)
      → IsValid (update p f c)
  update-IsValid p f c keys positions = record {
    key = λ r s hr hs eb ei.
        let (r0, h0, e0) = (update_iff p f c r).0 hr in
        let (s0, k0, d0) = (update_iff p f c s).0 hs in
        let same : r0 ≡ s0 = keys r0 s0 h0 k0 (cc (e0, d0, eb)) (cc (e0, d0, ei)) in
        cc (e0, d0, same);
    position = λ r s hr hs eb ep ei.
        let (r0, h0, e0) = (update_iff p f c r).0 hr in
        let (s0, k0, d0) = (update_iff p f c s).0 hs in
        let same : r0 ≡ s0 =
          positions r0 s0 h0 k0 (cc (e0, d0, eb)) (cc (e0, d0, ep)) (cc (e0, d0, ei)) in
        cc (e0, d0, same);
  }

  pub later-IsValid :
      (book group index : ℕ) (c : Content)
      → IsValid c
      → IsValid (update (siblings_from book group index) later c)
        × IsFree (update (siblings_from book group index) later c) book group index
  unfolding in_group later
  later-IsValid book group index c h = (
    update-IsValid (siblings_from book group index) later c
        (λ r s hr hs eb ei. h.key r s hr hs (grind arith) (grind arith))
        (λ r s hr hs eb ep ei. h.position r s hr hs (grind arith) (grind arith) (grind arith)),
    λ r hr eb eg ei.
        let (s, hs, e) = (update_iff (siblings_from book group index) later c r).0 hr in
        grind (arith, ap Part.book e, ap Part.parent e, ap Part.index e),
  )

  -- Positions behind a free one, or behind one whose successor is free, can move down by one.
  pub sooner-IsValid :
      (book group index : ℕ) (c : Content)
      → IsValid c
      → IsFree c book group index ⊎ IsFree c book group (index + 1)
      → IsValid (update (behind book group index) sooner c)
  unfolding in_group sooner
  sooner-IsValid book group index c h (inl gap) =
      update-IsValid (behind book group index) sooner c
        (λ r s hr hs eb ei. h.key r s hr hs (grind arith) (grind arith))
        (λ r s hr hs eb ep ei.
          h.position r s hr hs (grind arith) (grind arith) (grind (arith, gap r hr, gap s hs)))
  sooner-IsValid book group index c h (inr gap) =
      update-IsValid (behind book group index) sooner c
        (λ r s hr hs eb ei. h.key r s hr hs (grind arith) (grind arith))
        (λ r s hr hs eb ep ei.
          h.position r s hr hs (grind arith) (grind arith) (grind (arith, gap r hr, gap s hs)))

  -- One row of the book moves to a free position of a group.
  pub moved-IsValid :
      (book old_book id group index : ℕ) (c : Content)
      → book ≡ old_book
      → IsValid c
      → IsFree c book group index
      → IsValid (update (is_part old_book id) (relocated book group index) c)
  unfolding is_part
  moved-IsValid book old_book id group index c same_book h gap =
      update-IsValid (is_part old_book id) (relocated book group index) c
        (λ r s hr hs eb ei. h.key r s hr hs (grind arith) (grind arith))
        (λ r s hr hs eb ep ei. elim (Bool-cases (is_part old_book id r)) [
          | inl moves ↦ elim (Bool-cases (is_part old_book id s)) [
            | inl too ↦ h.key r s hr hs (grind (arith, moves, too)) (grind (arith, moves, too))
            | inr stays ↦ absurd (grind (arith, moves, stays, gap s hs))
          ]
          | inr stays ↦ elim (Bool-cases (is_part old_book id s)) [
            | inl moves ↦ absurd (grind (arith, moves, stays, gap r hr))
            | inr too ↦
                h.position r s hr hs (grind (arith, stays, too)) (grind (arith, stays, too))
                  (grind (arith, stays, too))
          ]
        ])

  pub insert-IsValid :
      (x : Part) (c : Content)
      → IsValid c
      → ((r : Part) → Contains c r → x.id ≢ r.id)
      → IsFree c x.book x.parent x.index
      → IsValid (insert x c)
  insert-IsValid x c h new gap = record {
    key = λ r s hr hs eb ei. elim ((insert_iff x c r).0 hr) [
      | inl er ↦ elim ((insert_iff x c s).0 hs) [
        | inl es ↦ cc (er, es)
        | inr old ↦ absurd (new s old (cc (er, ei)))
      ]
      | inr old ↦ elim ((insert_iff x c s).0 hs) [
        | inl es ↦ absurd (new r old (cc (es, ei)))
        | inr too ↦ h.key r s old too eb ei
      ]
    ];
    position = λ r s hr hs eb ep ei. elim ((insert_iff x c r).0 hr) [
      | inl er ↦ elim ((insert_iff x c s).0 hs) [
        | inl es ↦ cc (er, es)
        | inr old ↦ absurd (gap s old (cc (er, eb)) (cc (er, ep)) (cc (er, ei)))
      ]
      | inr old ↦ elim ((insert_iff x c s).0 hs) [
        | inl es ↦ absurd (gap r old (cc (es, eb)) (cc (es, ep)) (cc (es, ei)))
        | inr too ↦ h.position r s old too eb ep ei
      ]
    ];
  }
