-- ===== src/Client.antt =====
-- The remote client of a conversation: crates/conversations/src/client.rs. A call of the broker is an
-- action, and its answer comes later, in a call of its own; `none` for the answer is an error of the
-- mailbox. The pings that keep a connection open are left out.
pub mod Answers
pub mod Conversed
pub mod Recalled
mod Examples
use adaptarr_server.Prelude.{
  ℕ, Bool, true, false, String, Option, none, some, List, [], ◌∷◌, Result, ok, err, panic, stuck,
  expect, no_error, ◌>>=◌, if◌then◌else◌, not, str_eq,
}
use adaptarr_server.Prelude.Words.{has_bit}
use adaptarr_server.Wire.{Crates}
use adaptarr_server.Format.Frames.{Error}
use adaptarr_server.Broker.Messages.{NewMessageError, validation}
use adaptarr_server.Wire.Cookie.{CookieGenerator, next, is_server}
use adaptarr_server.Wire.Header.{Kind, Message, from_u16, parse, close_code}
use adaptarr_server.Wire.Body.{
  NewMessage, GetHistory, Written, build, must_process, read_get_history, write_new_message,
  write_message_received, write_message_invalid,
}
use adaptarr_server.Wire.History.{Entries, nil, cons, AnyMessage, HistoryEntries, write_history}

pub record Client : Type 0 where
  pub conversation : ℕ
  pub user : ℕ
  pub cookie : CookieGenerator

-- A message of the web socket.
pub data SocketMessage : Type 0 where
  text : List ℕ → SocketMessage
  binary : List ℕ → SocketMessage
  ping pong close : SocketMessage

-- What is asked of the broker.
pub data Request : Type 0 where
  new_message : ℕ → ℕ → List ℕ → Request
  get_history : ℕ → Option ℕ → ℕ → ℕ → Request

-- What is done with the context: nothing, a message is sent, the connection is closed with a code,
-- the actor is stopped, or the broker is asked for a message with a cookie, where incoming messages
-- wait for the answer or not.
pub data Reaction : Type 0 where
  nothing stop : Reaction
  send : List ℕ → Reaction
  close_with : ℕ → Reaction
  ask : Request → ℕ → Bool → Reaction

-- `CloseCode::Unsupported` and `CloseCode::Error`.
abbrev pub unsupported : ℕ
unsupported = 1003

abbrev pub internal_error : ℕ
internal_error = 1011

-- `flags.contains(Flags::RESPONSE_REQUIRED)`
unfoldable pub maybe_suspend : ℕ → Bool
maybe_suspend flags = has_bit flags 1

unfoldable pub send_new_message : Client → Message → Reaction
send_new_message c m =
    ask (new_message c.conversation c.user m.body) m.cookie (maybe_suspend m.flags)

-- A row of the events of a conversation, with the type of times of `chrono`.
pub record DbConversationEvent (T : Type 0) : Type 0 where
  pub id : ℕ
  pub kind : String
  pub timestamp : T
  pub author : Option ℕ
  pub content : List ℕ

module _ (crates : Crates) where
  open crates use {DateTime}

  -- `ctx.binary(Message::build(…))`
  unfoldable pub reply : ℕ → Kind → ℕ → (List ℕ → Written) → Result ⊥ Reaction
  reply cookie kind flags body = do bs ← build crates cookie kind flags body; ok (send bs)

  unfoldable pub get_history_request : Client → Message → Result ⊥ Reaction
  get_history_request c m = elim (read_get_history crates m.body) [
    | ok data' ↦ ok (
        ask (get_history c.conversation data'.from data'.number_before data'.number_after) m.cookie
          (maybe_suspend m.flags))
    | err e ↦ ok (close_with 4000)
    | panic ↦ panic
    | stuck ↦ stuck
  ]

  -- The `match` on the kind of a message.
  unfoldable pub dispatch : Client → Message → Result ⊥ Reaction
  dispatch c m = elim (from_u16 m.kind) [
    | some kind ↦ elim kind [
      | Kind.send_message ↦ ok (send_new_message c m)
      | Kind.get_history ↦ get_history_request c m
      | Kind.unknown_event ↦ ok nothing
      | other ↦ reply m.cookie Kind.unknown_event 0 ok
    ]
    | none ↦
        if has_bit m.flags 0 then ok (close_with 4001) else reply m.cookie Kind.unknown_event 0 ok
  ]

  unfoldable pub handle : Client → SocketMessage → Result ⊥ Reaction
  handle c (binary bs) = elim (parse crates bs) [
    | ok m ↦ if is_server m.cookie then ok nothing else dispatch c m
    | err e ↦ ok (close_with (close_code e))
    | panic ↦ panic
    | stuck ↦ stuck
  ]
  handle c (text t) = ok (close_with unsupported)
  handle c ping = ok (close_with unsupported)
  handle c pong = ok nothing
  handle c close = ok stop

  -- The broker's answer to a new message. The first argument is how an error of the validation is
  -- displayed.
  unfoldable pub message_sent :
      (Error → List ℕ) → ℕ → Option (Result NewMessageError ℕ) → Result ⊥ Reaction
  message_sent to_string cookie none = ok (close_with internal_error)
  message_sent to_string cookie (some (ok id)) =
      reply cookie Kind.message_received 0 (write_message_received crates id)
  message_sent to_string cookie (some (err (validation e))) =
      reply cookie Kind.message_invalid 0 (write_message_invalid crates (some (to_string e)))
  message_sent to_string cookie (some (err e)) = ok (close_with internal_error)
  message_sent to_string cookie (some panic) = panic
  message_sent to_string cookie (some stuck) = stuck

  unfoldable pub message_of : ℕ → DbConversationEvent DateTime → NewMessage DateTime
  message_of author e = record {
    id = e.id;
    user = author;
    timestamp = e.timestamp;
    message = e.content;
  }

  -- `author.unwrap()`, and `unreachable!()` for another kind.
  unfoldable pub serialize_events :
      List (DbConversationEvent DateTime) → Result ⊥ (Entries DateTime)
  serialize_events [] = ok nil
  serialize_events (e ∷ es) =
      let rest = serialize_events es in
      if str_eq e.kind "new-message"
      then elim e.author [
        | none ↦ panic
        | some author ↦
            rest >>= (λ entries. ok (cons (AnyMessage.new_message (message_of author e)) entries))
      ]
      else panic

  -- The broker's answer to a request for history, whose error is not looked at.
  unfoldable pub history_sent :
      ℕ
      → Option (Option (List (DbConversationEvent DateTime) × List (DbConversationEvent DateTime)))
      → Result ⊥ Reaction
  history_sent cookie none = ok (close_with internal_error)
  history_sent cookie (some none) = ok (close_with internal_error)
  history_sent cookie (some (some (before, after))) = do
    before' ← serialize_events before
    after' ← serialize_events after
    reply cookie Kind.history_entries 0
        (write_history crates (record { before = before'; after = after' }))

  -- `started`, with the broker's answer.
  unfoldable pub connected : Client → Option Bool → Result ⊥ (Client × Reaction)
  connected c (some true) = do
    action ← reply (next c.cookie).1 Kind.connected 0 ok
    ok (record c { cookie = (next c.cookie).0 }, action)
  connected c answer = ok (c, close_with internal_error)

  -- An event of the broker.
  unfoldable pub handle_event : Client → NewMessage DateTime → Result ⊥ (Client × Reaction)
  handle_event c m = do
    action ← reply (next c.cookie).1 Kind.new_message must_process (write_new_message crates m)
    ok (record c { cookie = (next c.cookie).0 }, action)
