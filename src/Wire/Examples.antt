-- ===== src/Wire/Examples.antt =====
-- The theorems on the wire format at concrete inputs, with a plain instance of the crates, and the
-- numbers of the tests in bytes_ext.rs.
use adaptarr_server.Prelude.{
  ℕ, ◌^◌, ◌<◌, ◌≡◌, none, List, [], ◌∷◌, ◌++◌, if◌then◌else◌, length, ok, panic, refl, arith, ◌==◌,
}
use adaptarr_server.Prelude.Words.{to_le, from_le}
use adaptarr_server.Wire.Plain.{plain_get_byte, plain}
use adaptarr_server.Wire.Cookie.{CookieGenerator}
use adaptarr_server.Wire.Leb128.{put_leb128, get_leb128, get_leb128-put_leb128}
use adaptarr_server.Wire.Header.{Kind, Message, parse}
use adaptarr_server.Wire.Body.{NewMessage, GetHistory, build, write_send_message, write_new_message}
use adaptarr_server.Wire.Body.RoundTrip.{IsNewMessage, build_send_message}
use adaptarr_server.Wire.History.{
  new_message, nil, cons, HistoryEntries, write_history, read_history,
}
use adaptarr_server.Wire.History.RoundTrip.{outcome, bytes_of}
use adaptarr_server.Wire.History.Seconds.{cut_history, read-write_history}

-- The encodings that bytes_ext.rs tests.
put_leb128-127 : put_leb128 127 ≡ 127 ∷ []
unfolding put_leb128
put_leb128-127 = refl

put_leb128-12857 : put_leb128 12857 ≡ 185 ∷ 100 ∷ []
unfolding put_leb128
put_leb128-12857 = refl

put_leb128-624485 : put_leb128 624485 ≡ 229 ∷ 142 ∷ 38 ∷ []
unfolding put_leb128
put_leb128-624485 = refl

get_leb128-put_leb128_example :
    get_leb128 plain_get_byte (put_leb128 624485 ++ 7 ∷ []) ≡ ok (624485, 7 ∷ [])
get_leb128-put_leb128_example =
    get_leb128-put_leb128 plain_get_byte (λ b bs. refl) 624485 (7 ∷ []) (omega arith)

abbrev last_counter : CookieGenerator
last_counter = record { counter = 0x7fff }

abbrev request : Message
request = record { cookie = 0x01020304; kind = 3; flags = 2; body = 7 ∷ 0 ∷ [] }

abbrev request_bytes : List ℕ
request_bytes = 4 ∷ 3 ∷ 2 ∷ 1 ∷ 3 ∷ 0 ∷ 2 ∷ 0 ∷ 7 ∷ 0 ∷ []

parse-request : parse plain request_bytes ≡ ok request
unfolding parse from_le
parse-request = refl

abbrev hello : NewMessage ℕ
hello = record { id = 300; user = 2; timestamp = 1560000000; message = 104 ∷ 105 ∷ [] }

hello-IsNewMessage : IsNewMessage plain hello
hello-IsNewMessage = record { id = omega arith; user = omega arith }

abbrev latest : GetHistory
latest = record { from = none; number_before = 20; number_after = 0 }

abbrev letter : List ℕ
letter = 104 ∷ []

abbrev history : HistoryEntries ℕ
history = record { before = cons (new_message hello) nil; after = nil }

hello-bytes : length (bytes_of plain hello) < 2 ^ 64
unfolding outcome write_new_message to_le
hello-bytes = omega arith

read-write_history_example :
    (bs : List ℕ) × ((into : List ℕ) → write_history plain history into ≡ ok (into ++ bs))
    × (read_history plain bs ≡ ok (cut_history plain history))
read-write_history_example =
    read-write_history plain history ((hello-IsNewMessage, hello-bytes), tt) tt (omega arith)

build_send_message_example :
    build plain 1 Kind.send_message 3 (write_send_message letter)
    ≡ (if length letter == 8 then ok letter else panic)
build_send_message_example = build_send_message plain 1 3 letter
