-- ===== src/Broker/Posted.antt =====
-- A message in an open conversation is stored, delivered and part of the history (broker.rs).
use mathlib.Core.List.{reverse, reverse-append}
use adaptarr_server.Prelude.{
  ℕ, suc, ◌<◌, ◌≡◌, ◌≢◌, ◌↔◌, ◌⊎◌, ◌==◌, ==_iff, inl, inr, Bool, true, none, some, List, [], ◌∷◌,
  ◌++◌, take, length, min, ok, refl, sym, ap, ◌∙◌, Result, arith,
}
use adaptarr_server.Storage.{In, Ascending, Table}
use adaptarr_server.Storage.Orders.{last}
use adaptarr_server.Wire.{Crates}
use adaptarr_server.Format.ReadBytes.{Reads}
use adaptarr_server.Format.Content.{Validation, validate_message}
use adaptarr_server.Broker.{Broker, Conversation, ConnectError, Search}
use adaptarr_server.Broker.Delivery.{Action, deliver, notified, sent, absent, Strict}
use adaptarr_server.Broker.Delivered.{deliver_correct}
use adaptarr_server.Broker.History.{ConversationEvent, latest, get_history}
use adaptarr_server.Broker.Messages.{
  NewMessage, Posted, row_of, new_message_in, event_of, post, new_message,
}
use adaptarr_server.Broker.Reached.{Reached, Reached-IsOpen}

module _ {A : Type 0} (by : A → ℕ) where
  -- A row above all others is the last of an ascending list that has it.
  Ascending-last :
      (xs : List A) (x : A)
      → Ascending by xs
      → In x xs
      → ((y : A) → In y xs → (y ≡ x) ⊎ (by y < by x))
      → (front : List A) × (xs ≡ front ++ x ∷ [])
  Ascending-last [] x h m top = absurd m
  Ascending-last (y ∷ []) x h m top = elim m [
    | inl same ↦ ([], ap (λ z. z ∷ []) (sym same))
    | inr later ↦ absurd later
  ]
  Ascending-last (y ∷ z ∷ ys) x h m top =
      let (front, e) =
        Ascending-last (z ∷ ys) x h.1
          (elim m [
            | inl same ↦ elim (top z (inr (inl refl))) [
              | inl also ↦ inl (sym also)
              | inr lower ↦ absurd (omega (arith, lower, h.0.0, ap by same))
            ]
            | inr later ↦ later
          ])
          (λ w k. top w (inr k)) in
      (y ∷ front, ap (λ t. y ∷ t) e)

last-snoc :
    {A : Type 0} (n : ℕ) (front : List A) (x : A)
    → (more : List A) × (last (suc n) (front ++ x ∷ []) ≡ more ++ x ∷ [])
last-snoc n front x = (
  reverse (take n (reverse front)),
  ap (λ ys. reverse (take (suc n) ys)) (reverse-append front (x ∷ []))
      ∙ reverse-append (x ∷ []) (take n (reverse front)),
)

module _ (crates : Crates) (reads : Reads)
    (table : Table ConversationEvent ConversationEvent.id) where
  open table use {
    Content, Contains, insert, insert_iff, fresh_lem, select, select_iff, select_ascending,
  }

  abbrev time : ConversationEvent → ℕ
  time = ConversationEvent.timestamp

  module _ (now : ℕ) (msg : NewMessage) (accepted : Validation) (c : Content) where
    abbrev row : ConversationEvent
    row = row_of crates reads table msg.conversation msg.user accepted now c

    post-ok :
        (conversation : Conversation) (actions : List Action)
        → deliver (length conversation.listeners) conversation.listeners conversation.members
          ≡ some actions
        → post crates reads table true now msg conversation accepted c
          ≡ ok (record {
            content = insert row c;
            event = event_of crates reads table msg row;
            actions = actions;
          })
    unfolding post new_message_in
    post-ok conversation actions e = rw (post, e) refl

    new_message-post :
        (b : Broker) (conversation : Conversation)
        → b msg.conversation ≡ some conversation
        → validate_message crates reads (suc (length msg.message)) msg.message ≡ ok accepted
        → new_message crates reads table true now msg b c
          ≡ post crates reads table true now msg conversation accepted c
    unfolding new_message
    new_message-post b conversation is_open valid = rw (new_message, is_open, valid) refl

    -- The recent history ends with the new row, which is later than the others of the conversation.
    get_history-row :
        (n : ℕ)
        → ((r : ConversationEvent)
            → Contains c r
            → r.conversation ≡ msg.conversation
            → r.timestamp < now)
        → (before : List ConversationEvent) × (get_history table
              (record {
                conversation = msg.conversation;
                from = none;
                number_before = suc n;
                number_after = 0;
              })
              (insert row c)
            ≡ ok (record { before = before ++ row ∷ []; after = [] }))
    unfolding get_history latest row_of
    get_history-row n earlier =
        let here : ConversationEvent → Bool = λ r. r.conversation == msg.conversation in
        let rows = select here time (insert row c) in
        let (front, whole) =
          Ascending-last time rows row (select_ascending here time (insert row c))
            ((select_iff here time (insert row c) row).1 (
              (insert_iff row c row).1 (inl refl),
              (==_iff msg.conversation msg.conversation).1 refl,
            ))
            (λ r m.
              let (there, hit) = (select_iff here time (insert row c) r).0 m in
              elim ((insert_iff row c r).0 there) [
                | inl same ↦ inl same
                | inr old ↦ inr (earlier r old ((==_iff r.conversation msg.conversation).0 hit))
              ]) in
        let (more, ends) = last-snoc (min n 127) front row in
        let some_left : min (suc n) 128 ≡ suc (min n 127) = omega arith in
        (
          more,
          ap (λ before. ok (record { before = before; after = [] }))
              (ap (λ k. last k rows) some_left ∙ ap (last (suc (min n 127))) whole ∙ ends),
        )

  -- What a message that is posted comes to.
  abbrev pub IsPosted : ℕ → NewMessage → Validation → Content → Broker → Conversation → Type 0
  IsPosted now msg accepted c b conversation =
      (posted : Posted Content) × (row : ConversationEvent) × (new_message crates reads table true
          now msg b c
        ≡ ok posted)
      × (posted.event ≡ event_of crates reads table msg row)
      × ((row.id ≡ table.fresh c)
          × (row.conversation ≡ msg.conversation)
          × (row.author ≡ some msg.user)
          × (row.timestamp ≡ now)
          × (row.content ≡ accepted.body))
      × ((r : ConversationEvent) → Contains posted.content r ↔ ((r ≡ row) ⊎ Contains c r))
      × ((r : ConversationEvent) → Contains c r → r.id ≢ row.id)
      × (sent posted.actions ≡ conversation.listeners)
      × (notified posted.actions ≡ absent conversation.listeners conversation.members)
      × ((n : ℕ)
          → (before : List ConversationEvent) × (get_history table
                (record {
                  conversation = msg.conversation;
                  from = none;
                  number_before = suc n;
                  number_after = 0;
                })
                posted.content
              ≡ ok (record { before = before ++ row ∷ []; after = [] })))

  module _ (searching : Search) (load : ℕ → Result ConnectError (List ℕ)) where
    -- A message is sent to an open conversation of a broker to which only members connect. It passes
    -- validation, it is later than the stored events of the conversation, the database is there, and
    -- the members that it has for a conversation are strictly ascending. Then the message is stored
    -- under an identifier that no row had, and nothing else changes; every listener is sent it once,
    -- in order, every other member is notified once, and the recent history ends with it.
    pub new_message_correct :
        (now : ℕ) (msg : NewMessage) (accepted : Validation) (c : Content) (b : Broker)
        (conversation : Conversation)
        → Reached searching load b
        → ((k : ℕ) (members : List ℕ) → load k ≡ ok members → Strict members)
        → b msg.conversation ≡ some conversation
        → validate_message crates reads (suc (length msg.message)) msg.message ≡ ok accepted
        → ((r : ConversationEvent)
            → Contains c r
            → r.conversation ≡ msg.conversation
            → r.timestamp < now)
        → IsPosted now msg accepted c b conversation
    unfolding row_of
    new_message_correct now msg accepted c b conversation reached strict is_open valid earlier =
        let opened =
          Reached-IsOpen searching load b reached msg.conversation conversation is_open in
        let (actions, run, all_sent, all_notified) =
          deliver_correct conversation.listeners conversation.members opened.sorted
            (strict msg.conversation conversation.members opened.loaded) opened.among in
        let r = row now msg accepted c in
        (
          record {
            content = insert r c;
            event = event_of crates reads table msg r;
            actions = actions;
          },
          r,
          new_message-post now msg accepted c b conversation is_open valid
              ∙ post-ok now msg accepted c conversation actions run,
          refl,
          (refl, refl, refl, refl, refl),
          insert_iff r c,
          fresh_lem c,
          all_sent,
          all_notified,
          λ n. get_history-row now msg accepted c n earlier,
        )
