-- ===== src/Format/Examples.antt =====
-- The validation of concrete messages.
use adaptarr_server.Prelude.{ℕ, ◌≡◌, List, [], ◌∷◌, ◌++◌, ok, refl, arith}
use adaptarr_server.Wire.Plain.{plain}
use adaptarr_server.Wire.Leb128.{put_leb128}
use adaptarr_server.Format.Frames.{from_u64}
use adaptarr_server.Format.Content.{validate_message}
use adaptarr_server.Format.Accepts.{frame_header, message_first}
use adaptarr_server.Format.Plain.{plain_reads}

-- A body of three bytes, none of which is a frame, and a byte behind it.
abbrev garbage : List ℕ
garbage = 9 ∷ 9 ∷ 9 ∷ 200 ∷ []

message_first_example :
    validate_message plain plain_reads 1 (frame_header 0 3 ++ garbage)
    ≡ ok (record { mentions = []; body = frame_header 0 3 ++ 9 ∷ 9 ∷ 9 ∷ []; rest = 200 ∷ [] })
unfolding put_leb128 from_u64
message_first_example =
    message_first plain plain_reads 0 3 garbage (omega arith) (omega arith) (omega arith) 0 refl
      (omega arith) (omega arith)
