-- ===== src/Permissions/Values.antt =====
-- How a set of permissions is written and read. A value is what a format of the crate `serde` offers:
-- a 64-bit integer by its bit pattern, a string or a sequence.
use adaptarr_server.Prelude.{
  ℕ, ◌+◌, ◌-◌, ◌%◌, ◌^◌, ◌||◌, not, Bool, true, false, none, some, String, List, [], ◌∷◌, ltb,
  if◌then◌else◌, Result, ok, err, ◌>>=◌,
}
use adaptarr_server.Permissions.{Bitflags}
use adaptarr_server.Permissions.Names.{all_flags, from_str, named}

mutual
  pub data Value : Type 0 where
    signed : ℕ → Value
    unsigned : ℕ → Value
    string : String → Value
    sequence : Values → Value
    other : Value

  pub data Values : Type 0 where
    nil : Values
    cons : Value → Values → Values

pub data Error : Type 0 where
  not_32_bit : ℕ → Error
  not_flags : ℕ → Error
  not_a_name : String → Error
  invalid_type : Error

unfoldable pub visit_str : String → Result Error ℕ
visit_str v = elim (from_str v) [ none ↦ err (not_a_name v) | some p ↦ ok p ]

module _ (flags : Bitflags) where
  open flags use {contains, union, from_bits}

  unfoldable pub elements : ℕ → List (ℕ × String) → Values
  elements s [] = nil
  elements s ((p, name) ∷ ps) =
      let rest = elements s ps in if contains s p then cons (string name) rest else rest

  -- The first argument is `ser.is_human_readable()`. An `i32` is extended to 64 bits.
  unfoldable pub serialize : Bool → ℕ → Value
  serialize false s = signed (if ltb s (2 ^ 31) then s else s + (2 ^ 64 - 2 ^ 32))
  serialize true s = sequence (elements s named)

  -- The patterns of the numbers from -2^31 to 2^31 - 1; `v as i32` keeps the low 32 bits.
  unfoldable pub visit_i64 : ℕ → Result Error ℕ
  visit_i64 v =
      if ltb v (2 ^ 31) || not (ltb v (2 ^ 64 - 2 ^ 31))
      then elim (from_bits all_flags (v % 2 ^ 32)) [ none ↦ err (not_flags v) | some s ↦ ok s ]
      else err (not_32_bit v)

  unfoldable mutual
    pub deserialize : Value → Result Error ℕ
    deserialize (signed v) = visit_i64 v
    deserialize (unsigned v) = visit_i64 v
    deserialize (string v) = visit_str v
    deserialize (sequence vs) = visit_seq 0 vs
    deserialize other = err invalid_type

    -- `bits` is what the loop has collected.
    pub visit_seq : ℕ → Values → Result Error ℕ
    visit_seq bits nil = ok bits
    visit_seq bits (cons v vs) = do permission ← deserialize v; visit_seq (union bits permission) vs
