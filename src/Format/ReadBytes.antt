-- ===== src/Format/ReadBytes.antt =====
-- The cursor `ReadBytes` of bytes_ext.rs, the way it is written. A `usize` has 64 bits and wraps, as
-- in a release build.
use adaptarr_server.Prelude.{
  ℕ, zero, suc, ◌+◌, ◌-◌, ◌%◌, ◌^◌, ◌<◌, ◌≡◌, Bool, Option, none, some, List, [], ◌∷◌, ltb, leb,
  if◌then◌else◌, length, take, drop, refl, arith,
}
use adaptarr_server.Prelude.Words.{from_le}
use adaptarr_server.Wire.{Crates}

pub record ReadBytes : Type 0 where
  pub bytes : List ℕ
  pub cursor : ℕ
  pub limit : ℕ

unfoldable pub new : List ℕ → ReadBytes
new bytes = record { bytes = bytes; cursor = 0; limit = length bytes }

-- The test is true while bytes are left.
unfoldable pub is_empty : ReadBytes → Bool
is_empty r = leb r.cursor r.limit

-- `self.limit - self.cursor`, which wraps.
unfoldable pub remaining : ReadBytes → ℕ
remaining r = (r.limit + 2 ^ 64 - r.cursor) % 2 ^ 64

unfoldable pub advance : ℕ → ReadBytes → ReadBytes
advance cnt r = record r { cursor = (r.cursor + cnt) % 2 ^ 64 }

-- The bytes of the result start at the beginning of the buffer. `none` is a panic.
unfoldable pub get_slice : ℕ → ReadBytes → Option (List ℕ × ReadBytes)
get_slice len r =
    if ltb (remaining r) len
    then none
    else if ltb (length r.bytes) len
    then none
    else some (take len r.bytes, advance len r)

-- The limit of the result is the length, wherever the cursor stands.
unfoldable pub slice : ℕ → ReadBytes → ReadBytes × ReadBytes
slice len r = (record r { limit = len }, advance len r)

-- All the bytes, wherever the cursor stands; also `AsRef::as_ref`.
unfoldable pub as_slice : ReadBytes → List ℕ
as_slice r = r.bytes

unfoldable pub as_bytes : Crates → ReadBytes → Option (List ℕ)
as_bytes crates r = Crates.slice crates r.cursor r.limit r.bytes

-- `Buf::copy_to_slice` into one byte and `Buf::get_u16_le`, which the crate `bytes` defines from
-- `remaining`, `bytes` and `advance`: what they do while bytes are left.
pub record Reads : Type 0 where
  pub read_byte : ReadBytes → Option (ℕ × ReadBytes)
  pub read_u16 : ReadBytes → Option (ℕ × ReadBytes)
  pub read_byte_lem :
      (r : ReadBytes) (b : ℕ) (bs : List ℕ)
      → 0 < remaining r
      → drop r.cursor r.bytes ≡ b ∷ bs
      → read_byte r ≡ some (b, advance 1 r)
  pub read_u16_lem :
      (r : ReadBytes) (a b : ℕ) (bs : List ℕ)
      → 1 < remaining r
      → drop r.cursor r.bytes ≡ a ∷ b ∷ bs
      → read_u16 r ≡ some (from_le (a ∷ b ∷ []), advance 2 r)

-- A cursor over the whole of some bytes, before the end `bs` of them.
pub record Holds (whole : List ℕ) (r : ReadBytes) (bs : List ℕ) : Type 0 where
  pub all : r.bytes ≡ whole
  pub full : r.limit ≡ length whole
  pub ahead : drop r.cursor whole ≡ bs
  pub ends : r.cursor + length bs ≡ length whole
  pub small : length whole < 2 ^ 64

drop_rest : (n : ℕ) (xs : List ℕ) (b : ℕ) (bs : List ℕ) → drop n xs ≡ b ∷ bs → drop (suc n) xs ≡ bs
drop_rest zero [] b bs e = cc
drop_rest zero (x ∷ xs) b bs e = cc
drop_rest (suc n) [] b bs e = cc
drop_rest (suc n) (x ∷ xs) b bs e = drop_rest n xs b bs e

pub remaining_lem :
    (whole : List ℕ) (r : ReadBytes) (bs : List ℕ) → Holds whole r bs → remaining r ≡ length bs
unfolding remaining
remaining_lem whole r bs h = omega (arith, h.full, h.ends, h.small)

pub new-Holds : (bs : List ℕ) → length bs < 2 ^ 64 → Holds bs (new bs) bs
unfolding new
new-Holds bs lt = record { all = refl; full = refl; ahead = refl; ends = omega arith; small = lt }

module _ (reads : Reads) where
  open reads use {read_byte, read_byte_lem}

  pub read_byte-Holds :
      (whole : List ℕ) (r : ReadBytes) (b : ℕ) (bs : List ℕ)
      → Holds whole r (b ∷ bs)
      → (r' : ReadBytes) × (read_byte r ≡ some (b, r')) × Holds whole r' bs
  unfolding advance
  read_byte-Holds whole r b bs h =
      let left : 0 < remaining r = omega (arith, remaining_lem whole r (b ∷ bs) h) in
      let next : (r.cursor + 1) % 2 ^ 64 ≡ suc r.cursor = omega (arith, h.ends, h.small) in
      let here : drop r.cursor r.bytes ≡ b ∷ bs = rw h.all h.ahead in
      (
        advance 1 r,
        read_byte_lem r b bs left here,
        record {
          all = h.all;
          full = h.full;
          ahead = rw next (drop_rest r.cursor whole b bs h.ahead);
          ends = rw next (omega (arith, h.ends));
          small = h.small;
        },
      )
