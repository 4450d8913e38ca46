-- ===== src/Format/Plain.antt =====
-- A plain instance of the reads of a cursor, and a message that is accepted.
use adaptarr_server.Prelude.{
  suc, [], ◌++◌, length, ok, refl, ℕ, ◌<◌, ◌≡◌, ◌==◌, Option, none, some, false, List, [], ◌∷◌, ltb,
  if◌then◌else◌, drop, arith,
}
use adaptarr_server.Prelude.Words.{from_le}
use adaptarr_server.Format.ReadBytes.{ReadBytes, Reads, remaining, advance}
use adaptarr_server.Wire.Plain.{plain}
use adaptarr_server.Wire.Leb128.{put_leb128}
use adaptarr_server.Format.Frames.{from_u64}
use adaptarr_server.Format.Content.{Validation, validate_message}
use adaptarr_server.Format.Accepts.{frame_header, message_first}

-- Reads that panic where no bytes are left.
abbrev pub plain_byte : ReadBytes → Option (ℕ × ReadBytes)
plain_byte r = elim (drop r.cursor r.bytes) [
  | [] ↦ none
  | b ∷ _ ↦ if remaining r == 0 then none else some (b, advance 1 r)
]

abbrev pub plain_u16 : ReadBytes → Option (ℕ × ReadBytes)
plain_u16 r = elim (drop r.cursor r.bytes) [
  | [] ↦ none
  | a ∷ [] ↦ none
  | a ∷ b ∷ _ ↦ if ltb (remaining r) 2 then none else some (from_le (a ∷ b ∷ []), advance 2 r)
]

pub plain_byte_lem :
    (r : ReadBytes) (b : ℕ) (bs : List ℕ)
    → 0 < remaining r
    → drop r.cursor r.bytes ≡ b ∷ bs
    → plain_byte r ≡ some (b, advance 1 r)
plain_byte_lem r b bs left e =
    let more : (remaining r == 0) ≡ false = ground arith in rw (e, plain_byte, more)

pub plain_u16_lem :
    (r : ReadBytes) (a b : ℕ) (bs : List ℕ)
    → 1 < remaining r
    → drop r.cursor r.bytes ≡ a ∷ b ∷ bs
    → plain_u16 r ≡ some (from_le (a ∷ b ∷ []), advance 2 r)
plain_u16_lem r a b bs left e =
    let more : ltb (remaining r) 2 ≡ false = ground arith in rw (e, plain_u16, more)

abbrev pub plain_reads : Reads
plain_reads = record {
  read_byte = plain_byte;
  read_u16 = plain_u16;
  read_byte_lem = plain_byte_lem;
  read_u16_lem = plain_u16_lem;
}

-- A message whose body is no frame, which the validation lets pass.
abbrev pub letter : List ℕ
letter = frame_header 0 3 ++ 9 ∷ 9 ∷ 9 ∷ []

abbrev pub accepted : Validation
accepted = record { mentions = []; body = letter; rest = [] }

pub letter_lem : validate_message plain plain_reads (suc (length letter)) letter ≡ ok accepted
unfolding put_leb128 from_u64
letter_lem =
    message_first plain plain_reads 0 3 (9 ∷ 9 ∷ 9 ∷ []) (omega arith) (omega arith) (omega arith)
      (length letter) refl (omega arith) (omega arith)
