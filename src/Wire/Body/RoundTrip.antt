-- ===== src/Wire/Body/RoundTrip.antt =====
-- Each kind of body is read back from what was written for it.
use mathlib.Core.List.{append-nil}
use adaptarr_server.Prelude.{
  ℕ, ◌^◌, ◌<◌, ◌≡◌, ◌≢◌, true, false, Option, none, some, List, [], ◌∷◌, ◌++◌, ltb, ◌==◌, length,
  take-append, drop-append, length-append, ok, panic, expect, reject, if◌then◌else◌, ◌>>=◌, refl,
  arith,
}
use adaptarr_server.Prelude.Words.{to_le, length-to_le, from_le-to_le}
use adaptarr_server.Wire.{Crates, read_le}
use adaptarr_server.Wire.Header.{send_message}
use adaptarr_server.Wire.Body.{
  NewMessage, GetHistory, build, write_send_message, write_new_message, read_new_message,
  write_get_history, read_get_history, write_message_received, read_message_received,
  write_message_invalid, read_message_invalid,
}

read_le-to_le :
    (n v : ℕ) (rest : List ℕ) → v < 256 ^ n → read_le n (to_le n v ++ rest) ≡ some (v, rest)
read_le-to_le n v rest h =
    let size = length-to_le n v in
    let enough : ltb (length (to_le n v ++ rest)) n ≡ false =
      ground (arith, length-append (to_le n v) rest, size) in
    rw (
      enough,
      take-append n (to_le n v) rest size,
      drop-append n (to_le n v) rest size,
      from_le-to_le n v h,
    )

module _ (crates : Crates) where
  open crates use {
    put_u16_le, put_i32_le, put_i64_le, get_u16_le, get_i32_le, get_i64_le, slice_from, DateTime,
    timestamp, utc_timestamp, is_utf8, put_u16_le_lem, put_u32_le_lem, put_i32_le_lem,
    put_i64_le_lem, get_u16_le_lem, get_i32_le_lem, get_i64_le_lem, slice_from_lem, timestamp_lt,
  }

  pub get-put_u16 :
      (v : ℕ) (rest : List ℕ) → v < 2 ^ 16 → get_u16_le (put_u16_le v ++ rest) ≡ some (v, rest)
  get-put_u16 v rest h = rw (put_u16_le_lem, get_u16_le_lem) (read_le-to_le 2 v rest (omega arith))

  pub get-put_i32 :
      (v : ℕ) (rest : List ℕ) → v < 2 ^ 32 → get_i32_le (put_i32_le v ++ rest) ≡ some (v, rest)
  get-put_i32 v rest h = rw (put_i32_le_lem, get_i32_le_lem) (read_le-to_le 4 v rest (omega arith))

  pub get-put_i64 :
      (v : ℕ) (rest : List ℕ) → v < 2 ^ 64 → get_i64_le (put_i64_le v ++ rest) ≡ some (v, rest)
  get-put_i64 v rest h = rw (put_i64_le_lem, get_i64_le_lem) (read_le-to_le 8 v rest (omega arith))

  -- A message as the server makes it: with identifiers of 32 bits.
  pub record IsNewMessage (m : NewMessage DateTime) : Type 0 where
    pub id : m.id < 2 ^ 32
    pub user : m.user < 2 ^ 32

  -- A message that has a time in whole seconds besides.
  pub record IsExact (m : NewMessage DateTime) : Type 0 where
    pub id : m.id < 2 ^ 32
    pub user : m.user < 2 ^ 32
    pub whole : utc_timestamp (timestamp m.timestamp) ≡ some m.timestamp

  -- The bytes of a new message.
  abbrev pub new_message_header : NewMessage DateTime → List ℕ
  new_message_header m =
      put_u16_le 18
      ++ (put_i32_le m.id ++ (put_i32_le m.user ++ put_i64_le (timestamp m.timestamp)))

  slice_message :
      (m : NewMessage DateTime)
      → slice_from 18 (
          put_u16_le 18
          ++ (put_i32_le m.id
              ++ (put_i32_le m.user ++ (put_i64_le (timestamp m.timestamp) ++ m.message))))
        ≡ some m.message
  unfolding to_le
  slice_message m =
      rw (slice_from_lem, put_u16_le_lem, put_i32_le_lem, put_i32_le_lem, put_i64_le_lem)
        (ground arith)

  -- A new message of a whole second is read back from the bytes that were written for it.
  pub read-write_new_message :
      (m : NewMessage DateTime)
      → IsExact m
      → (bs : List ℕ) × (write_new_message crates m [] ≡ ok bs)
        × (read_new_message crates bs ≡ ok m)
  unfolding write_new_message read_new_message expect reject
  read-write_new_message m h = (
    put_u16_le 18
        ++ (put_i32_le m.id
            ++ (put_i32_le m.user ++ (put_i64_le (timestamp m.timestamp) ++ m.message))),
    refl,
    rw (
      get-put_u16 18 _ (omega arith),
      get-put_i32 m.id _ h.id,
      get-put_i32 m.user _ h.user,
      get-put_i64 (timestamp m.timestamp) _ (timestamp_lt m.timestamp),
      h.whole,
      slice_message m,
      expect,
      ◌>>=◌,
      reject,
    ),
  )

  -- A request for history is read back unless it refers to the event 0, which stands for no event.
  pub read-write_get_history :
      (m : GetHistory)
      → ((id : ℕ) → m.from ≡ some id → (id < 2 ^ 32) × (id ≢ 0))
      → m.number_before < 2 ^ 16
      → m.number_after < 2 ^ 16
      → (bs : List ℕ) × (write_get_history crates m [] ≡ ok bs)
        × (read_get_history crates bs ≡ ok m)
  unfolding write_get_history read_get_history expect
  read-write_get_history m h hb ha = go m.from refl
    where
      after : get_u16_le (put_u16_le m.number_after) ≡ some (m.number_after, [])
      after = rw append-nil at (get-put_u16 m.number_after [] ha)

      go :
          (from : Option ℕ)
          → m.from ≡ from
          → (bs : List ℕ) × (write_get_history crates m [] ≡ ok bs)
            × (read_get_history crates bs ≡ ok m)
      go none e = (
        put_i32_le 0 ++ (put_u16_le m.number_before ++ put_u16_le m.number_after),
        rw e,
        rw (get-put_i32 0 _ (omega arith), get-put_u16 m.number_before _ hb, after)
            (ground (arith, e)),
      )
      go (some id) e = (
        put_i32_le id ++ (put_u16_le m.number_before ++ put_u16_le m.number_after),
        rw e,
        rw (get-put_i32 id _ (h id e).0, get-put_u16 m.number_before _ hb, after)
            (ground (arith, e, (h id e).1)),
      )

  -- A receipt is read back.
  pub read-write_message_received :
      (id : ℕ)
      → id < 2 ^ 32
      → (bs : List ℕ) × (write_message_received crates id [] ≡ ok bs)
        × (read_message_received crates bs ≡ ok id)
  unfolding write_message_received read_message_received expect
  read-write_message_received id h =
      let back : get_i32_le (put_i32_le id) ≡ some (id, []) =
        rw append-nil at (get-put_i32 id [] h) in
      (put_i32_le id, refl, rw back)

  -- A refusal is read back when its text, if it has one, is UTF-8 and not empty.
  pub read-write_message_invalid :
      (message : Option (List ℕ))
      → ((text : List ℕ) → message ≡ some text → (is_utf8 text ≡ true) × (text ≢ []))
      → (bs : List ℕ) × (write_message_invalid crates message [] ≡ ok bs)
        × (read_message_invalid crates bs ≡ ok message)
  unfolding write_message_invalid read_message_invalid
  read-write_message_invalid none h = ([], refl, refl)
  read-write_message_invalid (some []) h = absurd ((h [] refl).1 refl)
  read-write_message_invalid (some (c ∷ text)) h =
      (c ∷ text, refl, rw (h (c ∷ text) refl).0 (ground arith))

  -- `Message::build` of a message that a client sends panics unless the message has exactly eight
  -- bytes, and then the result is the message alone: the header is overwritten.
  pub build_send_message :
      (cookie flags : ℕ) (message : List ℕ)
      → build crates cookie send_message flags (write_send_message message)
        ≡ (if length message == 8 then ok message else panic)
  unfolding build write_send_message to_le
  build_send_message cookie flags message =
      rw (put_u32_le_lem, put_u16_le_lem, put_u16_le_lem) (ground arith)
