-- ===== src/Format/Frames.antt =====
-- Frames of the message format (format.rs).
use adaptarr_server.Prelude.{
  ℕ, ◌==◌, ◌||◌, Bool, false, Option, none, some, List, [], ◌∷◌, ltb, if◌then◌else◌, Result, ok,
  err, no_error, reject, ◌>>=◌, ◌>>◌,
}
use adaptarr_server.Wire.Leb128.{get_leb128}
use adaptarr_server.Format.ReadBytes.{ReadBytes, Reads, remaining, slice}

pub data Frame : Type 0 where
  message paragraph text push_format pop_format hyperlink mention : Frame

-- `frame as u64`.
unfoldable pub to_u64 : Frame → ℕ
to_u64 message = 0
to_u64 paragraph = 1
to_u64 text = 2
to_u64 push_format = 3
to_u64 pop_format = 4
to_u64 hyperlink = 5
to_u64 mention = 6

unfoldable pub from_u64 : ℕ → Option Frame
from_u64 n =
    if n == 0
    then some message
    else if n == 1
    then some paragraph
    else if n == 2
    then some text
    else if n == 3
    then some push_format
    else if n == 4
    then some pop_format
    else if n == 5
    then some hyperlink
    else if n == 6
    then some mention
    else none

unfoldable pub can_contain : Frame → List Frame
can_contain message = paragraph ∷ []
can_contain paragraph = text ∷ push_format ∷ pop_format ∷ hyperlink ∷ mention ∷ []
can_contain frame = []

-- `binary_search(&frame).is_ok()` in a sorted list.
unfoldable pub is_in : Frame → List Frame → Bool
unfolding to_u64
is_in frame [] = false
is_in frame (f ∷ fs) = to_u64 f == to_u64 frame || is_in frame fs

pub data Error : Type 0 where
  io : Error
  leb128_overflow : Error
  frame_overflow : Frame → ℕ → ℕ → Error
  frame_length : Frame → ℕ → ℕ → Error
  frame_too_long : Frame → ℕ → Error
  unknown_frame : ℕ → Error
  bad_root : Frame → Error
  bad_child : Frame → Frame → Error
  invalid_text : Error
  unknown_format : ℕ → Error
  non_ascii_url : Error

-- The number of the frame, checked.
unfoldable pub frame_of : ℕ → Result Error Frame
frame_of n = elim (from_u64 n) [ none ↦ err (unknown_frame n) | some frame ↦ ok frame ]

module _ (reads : Reads) where
  unfoldable pub get_number : ReadBytes → Result Error (ℕ × ReadBytes)
  get_number r = no_error (get_leb128 (Reads.read_byte reads) r)

  -- The frame and its body, and the buffer behind it.
  unfoldable pub read_frame : ReadBytes → Result Error ((Frame × ReadBytes) × ReadBytes)
  read_frame r = do
    (n, r) ← get_number r
    ty ← frame_of n
    (size, r) ← get_number r
    reject (ltb (remaining r) size) (frame_overflow ty size (remaining r))
    let (body, r') = slice size r
    ok ((ty, body), r')
