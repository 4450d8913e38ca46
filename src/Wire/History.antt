-- ===== src/Wire/History.antt =====
-- Messages of any kind, and the body that holds other messages (protocol.rs). `Vec<AnyMessage>` is
-- `Entries`. What `write` computes with floating point is only the capacity that it reserves.
pub mod RoundTrip
pub mod Seconds
use adaptarr_server.Prelude.{
  ℕ, zero, suc, ◌+◌, ◌-◌, ◌%◌, ◌^◌, Option, none, some, List, [], ◌++◌, length, drop, Result, ok,
  err, expect, no_error, ◌>>=◌,
}
use adaptarr_server.Wire.{Crates}
use adaptarr_server.Wire.Leb128.{put_leb128, get_leb128}
use adaptarr_server.Wire.Header.{Kind, to_u16, from_u16}
use adaptarr_server.Wire.Body.{
  NewMessage, GetHistory, ParseMessageError, unknown_kind, Parsed, Written, write_send_message,
  write_new_message, read_new_message, write_get_history, write_message_received,
  write_message_invalid,
}

mutual
  pub data AnyMessage (T : Type 0) : Type 0 where
    connected : AnyMessage T
    new_message : NewMessage T → AnyMessage T
    send_message : List ℕ → AnyMessage T
    get_history : GetHistory → AnyMessage T
    unknown_event : AnyMessage T
    message_received : ℕ → AnyMessage T
    message_invalid : Option (List ℕ) → AnyMessage T
    history_entries : Entries T → Entries T → AnyMessage T

  pub data Entries (T : Type 0) : Type 0 where
    nil : Entries T
    cons : AnyMessage T → Entries T → Entries T

pub record HistoryEntries (T : Type 0) : Type 0 where
  pub before : Entries T
  pub after : Entries T

unfoldable pub kind_of : {T : Type 0} → AnyMessage T → Kind
kind_of connected = Kind.connected
kind_of (new_message m) = Kind.new_message
kind_of (send_message m) = Kind.send_message
kind_of (get_history m) = Kind.get_history
kind_of unknown_event = Kind.unknown_event
kind_of (message_received id) = Kind.message_received
kind_of (message_invalid m) = Kind.message_invalid
kind_of (history_entries before after) = Kind.history_entries

abbrev pub count : {T : Type 0} → Entries T → ℕ
count nil = 0
count (cons e es) = suc (count es)

-- `entries.split_off(at)`: the entries before the position and those from it on; `none` is a panic.
unfoldable pub split_off : {T : Type 0} → ℕ → Entries T → Option (Entries T × Entries T)
split_off zero es = some (nil, es)
split_off (suc n) nil = none
split_off (suc n) (cons e es) = elim (split_off n es) [
  | none ↦ none
  | some (before, after) ↦ some (cons e before, after)
]

module _ (crates : Crates) where
  open crates use {put_u16_le, get_u16_le, get_byte, slice, DateTime}

  unfoldable mutual
    -- `AnyMessage::write`.
    pub write_any : AnyMessage DateTime → List ℕ → Written
    write_any connected into = ok into
    write_any (new_message m) into = write_new_message crates m into
    write_any (send_message m) into = write_send_message m into
    write_any (get_history m) into = write_get_history crates m into
    write_any unknown_event into = ok into
    write_any (message_received id) into = write_message_received crates id into
    write_any (message_invalid m) into = write_message_invalid crates m into
    write_any (history_entries before after) into = do
      into' ←
          write_entries before
            (into ++ (put_u16_le (count before % 2 ^ 16) ++ put_u16_le (count after % 2 ^ 16)))
      write_entries after into'

    -- The loop over the entries: the kind, the length and the bytes of each, written in a buffer.
    pub write_entries : Entries DateTime → List ℕ → Written
    write_entries nil into = ok into
    write_entries (cons e es) into = do
      buf ← write_any e []
      write_entries es
          (into ++ (put_u16_le (to_u16 (kind_of e)) ++ (put_leb128 (length buf) ++ buf)))

  unfoldable pub write_history : HistoryEntries DateTime → List ℕ → Written
  unfolding write_any
  write_history h into = write_any (history_entries h.before h.after) into

  -- The loop that reads `n` entries; `from` is the whole body, `buf` what the cursor has not passed.
  unfoldable pub read_entries : ℕ → List ℕ → List ℕ → Parsed (Entries DateTime)
  read_entries zero from buf = ok nil
  read_entries (suc n) from buf = do
    (code, buf) ← expect (get_u16_le buf)
    kind ← elim (from_u16 code) [ none ↦ err (unknown_kind code) | some kind ↦ ok kind ]
    (size, buf) ← no_error (get_leb128 get_byte buf)
    let start = length from - length buf
    body ← expect (slice start (start + size) from)
    entry ← elim kind [
      | Kind.new_message ↦ read_new_message crates body
      | other ↦ err (unknown_kind (to_u16 other))
    ]
    rest ← read_entries n from (drop (start + size) from)
    ok (cons (new_message entry) rest)

  -- The sum of the two `u16` wraps.
  unfoldable pub read_history : List ℕ → Parsed (HistoryEntries DateTime)
  read_history from = do
    (count_before, buf) ← expect (get_u16_le from)
    (count_after, buf) ← expect (get_u16_le buf)
    entries ← read_entries ((count_before + count_after) % 2 ^ 16) from buf
    (before, after) ← expect (split_off count_before entries)
    ok (record { before = before; after = after })
