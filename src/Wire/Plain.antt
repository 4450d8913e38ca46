-- ===== src/Wire/Plain.antt =====
-- A plain instance of the crates, for the theorems at concrete inputs.
use adaptarr_server.Prelude.{
  ℕ, ◌-◌, ◌%◌, ◌^◌, ◌<◌, ◌≤◌, ◌≡◌, true, ◌&&◌, Option, none, some, List, [], ◌∷◌, ltb, leb,
  if◌then◌else◌, length, take, drop, refl, arith,
}
use adaptarr_server.Prelude.Words.{to_le}
use adaptarr_server.Wire.{Crates, read_le}

abbrev pub plain_get_byte : List ℕ → Option (ℕ × List ℕ)
plain_get_byte [] = none
plain_get_byte (b ∷ bs) = some (b, bs)

abbrev plain_flags : ℕ → Option ℕ
plain_flags bits = if ltb bits 4 then some bits else none

pub plain_flags_known : (bits : ℕ) → bits < 4 → plain_flags bits ≡ some bits
plain_flags_known bits h = ground arith

pub plain_flags_unknown : (bits : ℕ) → 4 ≤ bits → plain_flags bits ≡ none
plain_flags_unknown bits h = ground arith

-- Times are 64-bit numbers of seconds.
abbrev plain_timestamp : ℕ → ℕ
plain_timestamp t = t % 2 ^ 64

pub plain_seconds : (t : ℕ) → plain_timestamp (plain_timestamp t) ≡ plain_timestamp t
plain_seconds t = omega arith

pub plain_timestamp_lt : (t : ℕ) → plain_timestamp t < 2 ^ 64
plain_timestamp_lt t = omega arith

abbrev pub plain : Crates
plain = record {
  put_u16_le = to_le 2;
  put_u32_le = to_le 4;
  put_i32_le = to_le 4;
  put_i64_le = to_le 8;
  put_u16_le_lem = λ v. refl;
  put_u32_le_lem = λ v. refl;
  put_i32_le_lem = λ v. refl;
  put_i64_le_lem = λ v. refl;
  get_u16_le = read_le 2;
  get_i32_le = read_le 4;
  get_i64_le = read_le 8;
  get_byte = plain_get_byte;
  get_u16_le_lem = λ bs. refl;
  get_i32_le_lem = λ bs. refl;
  get_i64_le_lem = λ bs. refl;
  get_byte_nil = refl;
  get_byte_cons = λ b bs. refl;
  slice = λ a b bs. if leb a b && leb b (length bs) then some (take (b - a) (drop a bs)) else none;
  slice_from = λ a bs. if leb a (length bs) then some (drop a bs) else none;
  slice_lem = λ a b bs. refl;
  slice_from_lem = λ a bs. refl;
  flags_from_bits = plain_flags;
  flags_known = plain_flags_known;
  flags_unknown = plain_flags_unknown;
  DateTime = ℕ;
  timestamp = plain_timestamp;
  utc_timestamp = λ s. some s;
  in_seconds = plain_timestamp;
  utc_timestamp_lem = λ t. refl;
  timestamp-in_seconds = plain_seconds;
  timestamp_lt = plain_timestamp_lt;
  is_utf8 = λ bs. true;
}
