-- ===== src/Wire.antt =====
-- The wire format of conversations: crates/conversations/src/protocol.rs and the LEB128 part of
-- crates/util/src/bytes_ext.rs. A byte string is a list of numbers; an `i32` or `i64` stands for its
-- bit pattern. What the crates `bytes`, `bitflags` and `chrono` do is the parameter `Crates`.
pub mod Leb128
pub mod Cookie
pub mod Header
pub mod Body
pub mod History
pub mod Plain
mod Examples
use adaptarr_server.Prelude.{
  ℕ, ◌^◌, ◌≡◌, ◌<◌, ◌≤◌, Bool, Option, none, some, List, [], ◌∷◌, length, take, drop, ltb, leb,
  if◌then◌else◌, ◌&&◌, ◌-◌,
}
use adaptarr_server.Prelude.Words.{to_le, from_le}

-- A read of `n` bytes from the front, as a number; `none` is a panic.
abbrev pub read_le : ℕ → List ℕ → Option (ℕ × List ℕ)
read_le n bs = if ltb (length bs) n then none else some (from_le (take n bs), drop n bs)

-- The operations of third-party crates that the protocol calls, and their documented behaviour.
pub record Crates : Type 1 where
  -- `BufMut::put_*_le`: the bytes that are appended.
  pub put_u16_le : ℕ → List ℕ
  pub put_u32_le : ℕ → List ℕ
  pub put_i32_le : ℕ → List ℕ
  pub put_i64_le : ℕ → List ℕ
  pub put_u16_le_lem : (v : ℕ) → put_u16_le v ≡ to_le 2 v
  pub put_u32_le_lem : (v : ℕ) → put_u32_le v ≡ to_le 4 v
  pub put_i32_le_lem : (v : ℕ) → put_i32_le v ≡ to_le 4 v
  pub put_i64_le_lem : (v : ℕ) → put_i64_le v ≡ to_le 8 v
  -- `Buf::get_*_le` and `Buf::copy_to_slice` into one byte panic when bytes are missing.
  pub get_u16_le : List ℕ → Option (ℕ × List ℕ)
  pub get_i32_le : List ℕ → Option (ℕ × List ℕ)
  pub get_i64_le : List ℕ → Option (ℕ × List ℕ)
  pub get_byte : List ℕ → Option (ℕ × List ℕ)
  pub get_u16_le_lem : (bs : List ℕ) → get_u16_le bs ≡ read_le 2 bs
  pub get_i32_le_lem : (bs : List ℕ) → get_i32_le bs ≡ read_le 4 bs
  pub get_i64_le_lem : (bs : List ℕ) → get_i64_le bs ≡ read_le 8 bs
  pub get_byte_nil : get_byte [] ≡ none
  pub get_byte_cons : (b : ℕ) (bs : List ℕ) → get_byte (b ∷ bs) ≡ some (b, bs)
  -- `Bytes::slice(begin, end)` and `Bytes::slice_from(begin)` panic out of bounds.
  pub slice : ℕ → ℕ → List ℕ → Option (List ℕ)
  pub slice_from : ℕ → List ℕ → Option (List ℕ)
  pub slice_lem :
      (a b : ℕ) (bs : List ℕ)
      → slice a b bs
        ≡ (if leb a b && leb b (length bs) then some (take (b - a) (drop a bs)) else none)
  pub slice_from_lem :
      (a : ℕ) (bs : List ℕ)
      → slice_from a bs ≡ (if leb a (length bs) then some (drop a bs) else none)
  -- `Flags::from_bits` of bitflags, for flags with the values 1 and 2.
  pub flags_from_bits : ℕ → Option ℕ
  pub flags_known : (bits : ℕ) → bits < 4 → flags_from_bits bits ≡ some bits
  pub flags_unknown : (bits : ℕ) → 4 ≤ bits → flags_from_bits bits ≡ none
  -- `DateTime<Utc>`, its number of seconds, and `Utc.timestamp(seconds, 0)`.
  pub DateTime : Type 0
  pub timestamp : DateTime → ℕ
  pub utc_timestamp : ℕ → Option DateTime
  -- The same time without its fraction of a second, which those seconds make again.
  pub in_seconds : DateTime → DateTime
  pub utc_timestamp_lem : (t : DateTime) → utc_timestamp (timestamp t) ≡ some (in_seconds t)
  pub timestamp-in_seconds : (t : DateTime) → timestamp (in_seconds t) ≡ timestamp t
  pub timestamp_lt : (t : DateTime) → timestamp t < 2 ^ 64
  -- `String::from_utf8` and `str::from_utf8` succeed on these bytes.
  pub is_utf8 : List ℕ → Bool
