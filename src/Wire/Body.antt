-- ===== src/Wire/Body.antt =====
-- The bodies of the messages that hold no other messages (protocol.rs). A body is written into the
-- buffer `into`, and a string is its UTF-8 bytes.
pub mod RoundTrip
use adaptarr_server.Prelude.{
  ℕ, Bool, not, ◌==◌, Option, none, some, List, [], ◌++◌, ltb, length, if◌then◌else◌, Result, ok,
  err, panic, expect, reject, ◌>>=◌, ◌>>◌,
}
use adaptarr_server.Prelude.Words.{set_bit}
use adaptarr_server.Wire.{Crates}
use adaptarr_server.Wire.Header.{Kind, to_u16, header, write}

pub data ParseMessageError : Type 0 where
  -- Expected at least, and got.
  underflow : ℕ → ℕ → ParseMessageError
  unknown_kind : ℕ → ParseMessageError
  other : ParseMessageError

abbrev pub Parsed : Type 0 → Type 0
Parsed A = Result ParseMessageError A

-- What is left of `into` after a write; a write may panic, and has no error.
abbrev pub Written : Type 0
Written = Result ⊥ (List ℕ)

pub record NewMessage (T : Type 0) : Type 0 where
  pub id : ℕ
  pub user : ℕ
  pub timestamp : T
  pub message : List ℕ

pub record GetHistory : Type 0 where
  pub from : Option ℕ
  pub number_before : ℕ
  pub number_after : ℕ

-- `Flags::MUST_PROCESS`, `Flags::RESPONSE_REQUIRED` and both.
abbrev pub must_process : ℕ
must_process = set_bit 0 0

abbrev pub response_required : ℕ
response_required = set_bit 0 1

-- `into.copy_from_slice(&self.message)` panics unless the two are equally long, and overwrites.
unfoldable pub write_send_message : List ℕ → List ℕ → Written
write_send_message message into = if length into == length message then ok message else panic

unfoldable pub read_send_message : List ℕ → Parsed (List ℕ)
read_send_message from = ok from

-- `length()` of a `NewMessage`: its header.
abbrev pub new_message_length : ℕ
new_message_length = 18

module _ (crates : Crates) where
  open crates use {
    put_u16_le, put_i32_le, put_i64_le, get_u16_le, get_i32_le, get_i64_le, slice_from, DateTime,
    timestamp, utc_timestamp, is_utf8,
  }

  -- `Message::build`: the header, and then the body, which is written behind it.
  unfoldable pub build : ℕ → Kind → ℕ → (List ℕ → Written) → Written
  unfolding write header
  build cookie kind flags write_body =
      write_body (write crates (header crates cookie kind flags) [])

  unfoldable pub write_new_message : NewMessage DateTime → List ℕ → Written
  write_new_message m into = ok (
      into
      ++ (put_u16_le new_message_length
          ++ (put_i32_le m.id
              ++ (put_i32_le m.user ++ (put_i64_le (timestamp m.timestamp) ++ m.message)))))

  unfoldable pub read_new_message : List ℕ → Parsed (NewMessage DateTime)
  read_new_message from = do
    (length, buf) ← expect (get_u16_le from)
    reject (ltb length new_message_length) (underflow new_message_length length)
    (id, buf) ← expect (get_i32_le buf)
    (user, buf) ← expect (get_i32_le buf)
    (seconds, buf) ← expect (get_i64_le buf)
    timestamp ← expect (utc_timestamp seconds)
    message ← expect (slice_from length from)
    ok (record { id = id; user = user; timestamp = timestamp; message = message })

  unfoldable pub write_get_history : GetHistory → List ℕ → Written
  write_get_history m into =
      let from : ℕ = elim m.from [ none ↦ 0 | some id ↦ id ] in
      ok (into ++ (put_i32_le from ++ (put_u16_le m.number_before ++ put_u16_le m.number_after)))

  unfoldable pub read_get_history : List ℕ → Parsed GetHistory
  read_get_history from = do
    (from, buf) ← expect (get_i32_le from)
    (number_before, buf) ← expect (get_u16_le buf)
    (number_after, buf) ← expect (get_u16_le buf)
    ok (record {
      from = if from == 0 then none else some from;
      number_before = number_before;
      number_after = number_after;
    })

  unfoldable pub write_message_received : ℕ → List ℕ → Written
  write_message_received id into = ok (into ++ put_i32_le id)

  unfoldable pub read_message_received : List ℕ → Parsed ℕ
  read_message_received from = do (id, buf) ← expect (get_i32_le from); ok id

  unfoldable pub write_message_invalid : Option (List ℕ) → List ℕ → Written
  write_message_invalid message into = ok (into ++ elim message [ none ↦ [] | some text ↦ text ])

  unfoldable pub read_message_invalid : List ℕ → Parsed (Option (List ℕ))
  read_message_invalid from =
      if length from == 0 then ok none else (if is_utf8 from then ok (some from) else err other)
