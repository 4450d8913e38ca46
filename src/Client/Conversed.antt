-- ===== src/Client/Conversed.antt =====
-- A message from the socket of a client to the conversation and back (client.rs, broker.rs).
use adaptarr_server.Prelude.{
  ℕ, suc, ◌^◌, ◌≢◌, ◌∙◌, ap, arith, ◌<◌, ◌≡◌, ◌⊎◌, ◌↔◌, inl, inr, sym, subst, true, false, some,
  List, length, Result, ok, err, refl,
}
use adaptarr_server.Storage.{Table}
use adaptarr_server.Wire.{Crates}
use adaptarr_server.Wire.Cookie.{is_server}
use adaptarr_server.Wire.Header.{Kind, Message, IsMessage, to_u16, to_bytes}
use adaptarr_server.Wire.Body.{read_message_received}
use adaptarr_server.Format.ReadBytes.{Reads}
use adaptarr_server.Format.Frames.{Error, io}
use adaptarr_server.Format.Content.{Validation, validate_message}
use adaptarr_server.Broker.{Broker, Conversation, ConnectError, Search}
use adaptarr_server.Broker.Delivery.{notified, sent, absent, Strict}
use adaptarr_server.Broker.History.{ConversationEvent}
use adaptarr_server.Broker.Messages.{NewMessage, Event, Posted, validation, event_of, new_message}
use adaptarr_server.Broker.Reached.{Reached}
use adaptarr_server.Broker.Posted.{new_message_correct}
use adaptarr_server.Client.{
  Client, SocketMessage, Request, send, ask, maybe_suspend, handle, message_sent,
}
use adaptarr_server.Client.Answers.{Answers, handle-message_sent}

module _ (crates : Crates) (reads : Reads) (table : Table ConversationEvent ConversationEvent.id)
    (searching : Search) (load : ℕ → Result ConnectError (List ℕ))
    (to_string : Error → List ℕ) where
  open table use {Content, Contains}

  abbrev pub request : Client → Message → NewMessage
  request c m = record { conversation = c.conversation; user = c.user; message = m.body }

  invalid_lem :
      (now : ℕ) (msg : NewMessage) (content : Content) (b : Broker) (conversation : Conversation)
      (e : Error)
      → b msg.conversation ≡ some conversation
      → validate_message crates reads (suc (length msg.message)) msg.message ≡ err e
      → new_message crates reads table true now msg b content ≡ err (validation e)
  unfolding new_message
  invalid_lem now msg content b conversation e is_open invalid =
      rw (new_message, is_open, invalid) refl

  module _ (c : Client) (m : Message) (now : ℕ) (content : Content) (b : Broker)
      (conversation : Conversation) where
    abbrev pub validated : Result Error Validation
    validated = validate_message crates reads (suc (length m.body)) m.body

    -- The broker posts the message, which is a new row of the table, and its sender reads the identifier from the answer.
    abbrev pub IsPosted : Validation → Type 0
    IsPosted accepted =
        (posted : Posted Content) × (bs body : List ℕ) × (new_message crates reads table true now
            (request c m) b content
          ≡ ok posted)
        × (posted.event.message ≡ accepted.body)
        × ((row : ConversationEvent) × (row.id ≡ posted.event.id)
            × (row.conversation ≡ c.conversation)
            × (row.author ≡ some c.user)
            × (row.timestamp ≡ now)
            × (row.content ≡ accepted.body)
            × ((r : ConversationEvent)
                → Contains posted.content r ↔ ((r ≡ row) ⊎ Contains content r))
            × ((r : ConversationEvent) → Contains content r → r.id ≢ row.id))
        × (sent posted.actions ≡ conversation.listeners)
        × (notified posted.actions ≡ absent conversation.listeners conversation.members)
        × (message_sent crates to_string m.cookie (some (ok posted.event.id)) ≡ ok (send bs))
        × Answers crates m.cookie Kind.message_received bs body
        × (read_message_received crates body ≡ ok posted.event.id)

    -- The broker refuses the message, and its sender reads why from the answer.
    abbrev pub IsRefused : Error → Type 0
    IsRefused e =
        (bs : List ℕ) × (new_message crates reads table true now (request c m) b content
          ≡ err (validation e))
        × (message_sent crates to_string m.cookie (some (err (validation e))) ≡ ok (send bs))
        × Answers crates m.cookie Kind.message_invalid bs (to_string e)

    -- A client sends a message over its socket, under a cookie that is none of the server, to an open
    -- conversation of a broker to which only members connect. The database is there, gives strictly
    -- ascending members and has a new identifier of 32 bits; the message is later than those before,
    -- and its validation ends. Then the broker is asked with its body as it is. When the body passes,
    -- exactly one row, of the message, its author and its time, is added under a new identifier, every listener is sent it and the other members
    -- are notified, and the client reads that identifier from the answer, which has the cookie of its
    -- request. Otherwise the client reads the text of the error under that cookie.
    pub handle-new_message :
        IsMessage crates m
        → is_server m.cookie ≡ false
        → m.kind ≡ to_u16 Kind.send_message
        → Reached searching load b
        → ((k : ℕ) (members : List ℕ) → load k ≡ ok members → Strict members)
        → b c.conversation ≡ some conversation
        → table.fresh content < 2 ^ 32
        → ((r : ConversationEvent)
            → Contains content r
            → r.conversation ≡ c.conversation
            → r.timestamp < now)
        → ((accepted : Validation) × (validated ≡ ok accepted))
          ⊎ ((e : Error) × (validated ≡ err e))
        → (handle crates c (SocketMessage.binary (to_bytes crates m))
            ≡ ok (
                ask
                  (Request.new_message c.conversation c.user m.body)
                  m.cookie
                  (maybe_suspend m.flags)))
          × (((accepted : Validation) × (validated ≡ ok accepted) × IsPosted accepted)
              ⊎ ((e : Error) × (validated ≡ err e) × IsRefused e))
    unfolding event_of
    handle-new_message valid client kind reached strict is_open small earlier
          (inl (accepted, fine)) =
        let (
          posted,
          row,
          run,
          event,
          (next_id, own, author, time, stored),
          rows,
          new,
          all_sent,
          all_notified,
          history,
        ) =
          new_message_correct crates reads table searching load now (request c m) accepted content b
            conversation reached strict is_open fine earlier in
        let same_id : posted.event.id ≡ row.id = ap Event.id event in
        let (asked, (bs, body, answer, answers, back), refused) =
          handle-message_sent crates c m valid client to_string posted.event.id io kind
            (subst (λ i. i < 2 ^ 32) (sym (same_id ∙ next_id)) small) in
        (
          asked,
          inl (
            accepted,
            fine,
            (
              posted,
              bs,
              body,
              run,
              ap Event.message event ∙ stored,
              (row, sym same_id, own, author, time, stored, rows, new),
              all_sent,
              all_notified,
              answer,
              answers,
              back,
            ),
          ),
        )
    handle-new_message valid client kind reached strict is_open small earlier (inr (e, bad)) =
        let (asked, received, (bs, answer, answers)) =
          handle-message_sent crates c m valid client to_string 0 e kind (omega arith) in
        (
          asked,
          inr (
            e,
            bad,
            (
              bs,
              invalid_lem now (request c m) content b conversation e is_open bad,
              answer,
              answers,
            ),
          ),
        )
