-- ===== src/Broker/Messages.antt =====
-- A new message in a conversation: its handler in broker.rs, and `new_message_in` of
-- crates/models/src/models/conversation/event.rs.
use adaptarr_server.Prelude.{
  ℕ, suc, Bool, none, some, List, length, if◌then◌else◌, Result, ok, err, panic, stuck,
}
use adaptarr_server.Storage.{Table}
use adaptarr_server.Wire.{Crates}
use adaptarr_server.Format.ReadBytes.{Reads}
use adaptarr_server.Format.Frames.{Error}
use adaptarr_server.Format.Content.{Validation, validate_message}
use adaptarr_server.Broker.{Broker, Conversation}
use adaptarr_server.Broker.Delivery.{Action, deliver}
use adaptarr_server.Broker.History.{ConversationEvent}

pub record NewMessage : Type 0 where
  pub conversation : ℕ
  pub user : ℕ
  pub message : List ℕ

pub data NewMessageError : Type 0 where
  validation : Error → NewMessageError
  database db_pool not_connected : NewMessageError

-- What listeners are sent.
pub record Event : Type 0 where
  pub conversation : ℕ
  pub id : ℕ
  pub user : ℕ
  pub timestamp : ℕ
  pub message : List ℕ

-- What a new message comes to: the table of events, the event, and what is done with it.
pub record Posted (Content : Type 0) : Type 0 where
  pub content : Content
  pub event : Event
  pub actions : List Action

module _ (crates : Crates) (reads : Reads)
    (table : Table ConversationEvent ConversationEvent.id) where
  open table use {Content, insert, fresh}

  -- The database gives the row its identifier and the present as its time.
  unfoldable pub row_of : ℕ → ℕ → Validation → ℕ → Content → ConversationEvent
  row_of conversation author message now c = record {
    id = fresh c;
    conversation = conversation;
    kind = "new-message";
    timestamp = now;
    author = some author;
    content = message.body;
  }

  unfoldable pub new_message_in : ℕ → ℕ → Validation → ℕ → Content → Content × ConversationEvent
  new_message_in conversation author message now c =
      let row = row_of conversation author message now c in (insert row c, row)

  unfoldable pub event_of : NewMessage → ConversationEvent → Event
  event_of msg row = record {
    conversation = msg.conversation;
    id = row.id;
    user = msg.user;
    timestamp = row.timestamp;
    message = row.content;
  }

  -- What follows the validation. The first argument is whether the pool has a connection.
  unfoldable pub post :
      Bool
      → ℕ
      → NewMessage
      → Conversation
      → Validation
      → Content
      → Result NewMessageError (Posted Content)
  post pool now msg conversation accepted c =
      let row = (new_message_in msg.conversation msg.user accepted now c).1 in
      if pool
      then elim (deliver (length conversation.listeners) conversation.listeners
          conversation.members) [
            | none ↦ stuck
            | some actions ↦ ok (record {
              content = (new_message_in msg.conversation msg.user accepted now c).0;
              event = event_of msg row;
              actions = actions;
            })
          ]
      else err db_pool

  -- `Handler<NewMessage>`; the answer is the identifier of the event.
  unfoldable pub new_message :
      Bool → ℕ → NewMessage → Broker → Content → Result NewMessageError (Posted Content)
  new_message pool now msg broker c = elim (broker msg.conversation) [
    | none ↦ err not_connected
    | some conversation ↦
        elim (validate_message crates reads (suc (length msg.message)) msg.message) [
          | ok accepted ↦ post pool now msg conversation accepted c
          | err e ↦ err (validation e)
          | panic ↦ panic
          | stuck ↦ stuck
        ]
  ]
