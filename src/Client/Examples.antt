-- ===== src/Client/Examples.antt =====
-- Runs and instances: the client of a conversation.
use adaptarr_server.Prelude.{
  ℕ, ◌<◌, ◌≡◌, ◌⊎◌, inl, inr, none, some, List, [], ◌∷◌, Memᴰ, ok, err, panic, expect, true, refl,
  sym, subst, arith,
}
use adaptarr_server.Prelude.Words.{from_le, to_le, has_bit}
use adaptarr_server.Wire.Plain.{plain}
use adaptarr_server.Wire.Cookie.{is_server}
use adaptarr_server.Wire.Header.{Message, parse, to_u16, from_u16, to_bytes}
use adaptarr_server.Wire.Body.{GetHistory, read_get_history, write_get_history, write_new_message}
use adaptarr_server.Format.Plain.{plain_reads, letter, accepted, letter_lem}
use adaptarr_server.Format.Frames.{Error}
use adaptarr_server.Format.Content.{Validation}
use adaptarr_server.Storage.{Table}
use adaptarr_server.Storage.Lists.{list_table, above_all}
use adaptarr_server.Broker.{Listener, Conversation, Broker, put, insert, connect, entry_of}
use adaptarr_server.Broker.Plain.{searching, members, load, members-Strict}
use adaptarr_server.Broker.History.{ConversationEvent, History, is_event, database, get_history}
use adaptarr_server.Broker.Chosen.{IsChosen}
use adaptarr_server.Broker.Slices.{IsSlice}
use adaptarr_server.Wire.History.RoundTrip.{outcome}
use adaptarr_server.Client.Recalled.{IsSendable, sent_row, request, IsRecalled, handle-get_history}
use adaptarr_server.Broker.Reached.{Reached}
use adaptarr_server.Client.Conversed.{validated, IsPosted, IsRefused, handle-new_message}
use adaptarr_server.Client.{
  Request, Client, SocketMessage, ask, close_with, internal_error, history_sent, message_of, handle,
  maybe_suspend, dispatch, get_history_request,
}

abbrev somebody : Client
somebody = record { conversation = 3; user = 5; cookie = record { counter = 0 } }

-- A request for history without a body makes the client's actor panic.
short_test :
    handle plain somebody (SocketMessage.binary (7 ∷ 0 ∷ 0 ∷ 0 ∷ 3 ∷ 0 ∷ 0 ∷ 0 ∷ [])) ≡ panic
unfolding handle parse is_server dispatch from_u16 get_history_request read_get_history expect
    from_le has_bit
short_test = refl

-- An unknown kind that must be processed closes the connection.
unknown_test :
    handle plain somebody (SocketMessage.binary (7 ∷ 0 ∷ 0 ∷ 0 ∷ 9 ∷ 0 ∷ 1 ∷ 0 ∷ []))
    ≡ ok (close_with 4001)
unfolding handle parse is_server dispatch from_u16 from_le has_bit
unknown_test = refl

abbrev quiet : Broker
quiet = λ k. none

abbrev listener : Listener
listener = record { user = 2; addr = 7 }

abbrev open_conversation : Conversation
open_conversation = record { members = members; listeners = insert searching listener [] }

abbrev joined : Broker
joined = put 3 (some open_conversation) quiet

joined_lem : connect searching load 2 3 7 quiet ≡ ok joined
unfolding connect entry_of
joined_lem = refl

joined-Reached : Reached searching load joined
joined-Reached =
    Reached.connects 2 3 7 members quiet joined Reached.start refl (Memᴰ.tail (Memᴰ.head refl))
      joined_lem

joined-open : joined 3 ≡ some open_conversation
unfolding put
joined-open = refl

abbrev client : Client
client = record { conversation = 3; user = 2; cookie = record { counter = 0 } }

abbrev letter_message : Message
letter_message = record { cookie = 7; kind = 2; flags = 3; body = letter }

abbrev first_event : ConversationEvent
first_event = record {
  id = 1;
  conversation = 3;
  kind = "new-message";
  timestamp = 100;
  author = some 5;
  content = [];
}

abbrev rows : Table ConversationEvent ConversationEvent.id
rows = list_table ConversationEvent ConversationEvent.id

-- What an error of the validation displays.
abbrev to_string : Error → List ℕ
to_string e = 33 ∷ []

handle-new_message_example :
    (handle plain client (SocketMessage.binary (to_bytes plain letter_message))
      ≡ ok (ask (Request.new_message 3 2 letter) 7 true))
    × (((v : Validation) × (validated plain plain_reads rows searching load to_string client
              letter_message 200
              (first_event ∷ [])
              joined
              open_conversation
            ≡ ok v)
          × IsPosted plain plain_reads rows searching load to_string client letter_message 200
              (first_event ∷ [])
              joined
              open_conversation
              v)
        ⊎ ((e : Error) × (validated plain plain_reads rows searching load to_string client
                letter_message 200
                (first_event ∷ [])
                joined
                open_conversation
              ≡ err e)
            × IsRefused plain plain_reads rows searching load to_string client letter_message 200
                (first_event ∷ [])
                joined
                open_conversation
                e))
unfolding maybe_suspend is_server to_u16 above_all
handle-new_message_example =
    handle-new_message plain plain_reads rows searching load to_string client letter_message 200
      (first_event ∷ []) joined open_conversation
      (record { cookie = omega arith; kind = omega arith; flags = omega arith }) refl refl
      joined-Reached members-Strict joined-open (omega arith)
      (λ r m same. elim m [
        | inl first ↦ subst (λ (x : ConversationEvent). x.timestamp < 200) (sym first) (omega arith)
        | inr none_there ↦ absurd none_there
      ])
      (inl (accepted, letter_lem))

-- A request for the last five events.
abbrev latest : GetHistory
latest = record { from = none; number_before = 5; number_after = 0 }

abbrev latest_message : Message
latest_message = record {
  cookie = 8;
  kind = 3;
  flags = 2;
  body = 0 ∷ 0 ∷ 0 ∷ 0 ∷ 5 ∷ 0 ∷ 0 ∷ 0 ∷ [];
}

-- Times are seconds.
abbrev seconds : ℕ → ℕ
seconds t = t

first-IsSendable : IsSendable plain (sent_row plain rows seconds first_event)
unfolding outcome message_of write_new_message to_le
first-IsSendable = (5, refl, refl, record { id = omega arith; user = omega arith }, omega arith)

handle-get_history_example :
    (handle plain client (SocketMessage.binary (to_bytes plain latest_message))
      ≡ ok (ask (Request.get_history 3 none 5 0) 8 true))
    × (((h : History) × (get_history rows
              (request plain rows seconds client latest)
              (first_event ∷ [])
            ≡ ok h)
          × IsSlice rows (first_event ∷ []) 3 h
          × IsChosen rows (first_event ∷ []) (request plain rows seconds client latest) h
          × IsRecalled plain rows seconds 8 h)
        ⊎ ((id : ℕ) × (none ≡ some id)
            × (get_history rows (request plain rows seconds client latest) (first_event ∷ [])
                ≡ err database)
            × (rows.find (is_event 3 id) (first_event ∷ []) ≡ none)
            × (history_sent plain 8 (some none) ≡ ok (close_with internal_error))))
unfolding maybe_suspend is_server to_u16 write_get_history to_le
handle-get_history_example =
    handle-get_history plain rows seconds client latest_message latest (first_event ∷ [])
      (record { cookie = omega arith; kind = omega arith; flags = omega arith }) refl refl refl
      (λ id e. absurd (cc e)) (omega arith) (omega arith)
      (λ r m same. elim m [
        | inl first ↦
            subst (λ x. IsSendable plain (sent_row plain rows seconds x)) (sym first)
              first-IsSendable
        | inr none_there ↦ absurd none_there
      ])
