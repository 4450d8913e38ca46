-- ===== src/Format/Content.antt =====
-- The validation of a message that a user sent (format.rs). The loop over the frames of a body runs
-- on fuel.
use adaptarr_server.Prelude.{
  ℕ, zero, suc, ◌%◌, ◌*◌, ◌/◌, ◌^◌, ◌==◌, Bool, true, false, not, Option, none, some, List, [], ◌∷◌,
  ◌++◌, ltb, if◌then◌else◌, Result, ok, err, panic, stuck, expect, reject, ◌>>=◌, ◌>>◌,
}
use adaptarr_server.Wire.{Crates}
use adaptarr_server.Format.ReadBytes.{
  ReadBytes, Reads, new, is_empty, remaining, slice, as_slice, as_bytes,
}
use adaptarr_server.Format.Frames.{
  Frame, message, paragraph, text, push_format, pop_format, hyperlink, mention, can_contain, is_in,
  Error, frame_length, frame_too_long, bad_root, bad_child, invalid_text, unknown_format,
  non_ascii_url, get_number, read_frame,
}

pub record Validation : Type 0 where
  pub mentions : List ℕ
  pub body : List ℕ
  pub rest : List ℕ

abbrev pub all_ascii : List ℕ → Bool
all_ascii [] = true
all_ascii (b ∷ bs) = if ltb b 128 then all_ascii bs else false

unfoldable pub is_message : Frame → Bool
is_message message = true
is_message frame = false

module _ (crates : Crates) (reads : Reads) where
  open crates use {is_utf8, flags_from_bits}
  open reads use {read_u16}

  unfoldable pub read_text : ReadBytes → Result Error (List ℕ)
  read_text body = do reject (not (is_utf8 (as_slice body))) invalid_text; ok (as_slice body)

  unfoldable pub read_format : Frame → ReadBytes → Result Error ℕ
  read_format frame body = do
    reject (not (remaining body == 2)) (frame_length frame 2 (remaining body))
    (bits, body) ← expect (read_u16 body)
    elim (flags_from_bits bits) [
      | none ↦ err (unknown_format (bits / 4 * 4))
      | some format ↦ ok format
    ]

  unfoldable pub read_hyperlink : ReadBytes → Result Error (Option (List ℕ) × List ℕ)
  read_hyperlink body = do
    (len, body) ← get_number reads body
    let (label, body') = slice len body
    (label, body) ← elim (len == 0) [
      | true ↦ ok (none, body)
      | false ↦ do label ← read_text label; ok (some label, body')
    ]
    reject (not (is_utf8 (as_slice body))) invalid_text
    reject (not (all_ascii (as_slice body))) non_ascii_url
    ok (label, as_slice body)

  -- `as i32` keeps the low 32 bits.
  unfoldable pub read_user_mention : ReadBytes → Result Error ℕ
  read_user_mention body = do
    (user, body) ← get_number reads body
    reject (not (is_empty body)) (frame_too_long mention (remaining body))
    ok (user % 2 ^ 32)

  -- The mentions that the context collects go in and come out.
  unfoldable pub validate_frame : ℕ → List ℕ → Frame → ReadBytes → Result Error (List ℕ)
  validate_frame zero mentions ty body = stuck
  validate_frame (suc fuel) mentions ty body = elim (is_empty body) [
    | true ↦ ok mentions
    | false ↦ do
      ((frame, inner), body) ← read_frame reads body
      reject (not (is_in frame (can_contain ty))) (bad_child ty frame)
      mentions ← elim frame [
        | message ↦ panic
        | paragraph ↦ validate_frame fuel mentions paragraph inner
        | text ↦ do _ ← read_text inner; ok mentions
        | push_format ↦ do _ ← read_format push_format inner; ok mentions
        | pop_format ↦ do _ ← read_format pop_format inner; ok mentions
        | hyperlink ↦ do _ ← read_hyperlink inner; ok mentions
        | mention ↦ do user ← read_user_mention inner; ok (mentions ++ user ∷ [])
      ]
      validate_frame fuel mentions ty body
  ]

  -- `slice_to(n)` is `slice(0, n)`.
  unfoldable pub validate_message : ℕ → List ℕ → Result Error Validation
  validate_message fuel bytes = do
    ((ty, body), read) ← read_frame reads (new bytes)
    reject (not (is_message ty)) (bad_root ty)
    mentions ← validate_frame fuel [] ty body
    accepted ← expect (Crates.slice crates 0 read.cursor bytes)
    rest ← expect (as_bytes crates read)
    ok (record { mentions = mentions; body = accepted; rest = rest })
