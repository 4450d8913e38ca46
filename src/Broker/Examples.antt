-- ===== src/Broker/Examples.antt =====
-- The broker at concrete inputs.
use adaptarr_server.Prelude.{
  ◌<◌, sym, subst, inl, inr, ℕ, ◌≡◌, none, some, List, [], ◌∷◌, Memᴰ, ok, refl, arith,
}
use adaptarr_server.Storage.Lists.{list_table, find, keep, sort, place}
use adaptarr_server.Broker.History.{
  ConversationEvent, GetHistory, is_event, is_earlier, is_later, latest, get_history,
}
use adaptarr_server.Broker.{Listener, Conversation, Broker, put, Sorted, entry_of, insert, connect}
use adaptarr_server.Broker.Steps.{IsValid, connect-IsValid}
use adaptarr_server.Broker.Plain.{searching, members, load, members-Strict}
use adaptarr_server.Wire.Plain.{plain}
use adaptarr_server.Format.Plain.{plain_reads, letter, accepted, letter_lem}
use adaptarr_server.Broker.Messages.{NewMessage}
use adaptarr_server.Broker.Reached.{Reached}
use adaptarr_server.Broker.Posted.{IsPosted, new_message_correct}

abbrev phone : Listener
phone = record { user = 2; addr = 7 }

abbrev laptop : Listener
laptop = record { user = 2; addr = 8 }

abbrev listening : List Listener
listening = phone ∷ laptop ∷ []

listening-Sorted : Sorted listening
listening-Sorted = ((omega arith, tt), (tt, tt))

two_listens : Memᴰ 2 members
two_listens = Memᴰ.tail (Memᴰ.head refl)

abbrev no_conversations : Broker
no_conversations = λ k. none

no_conversations-IsValid : IsValid no_conversations
no_conversations-IsValid k c e = cc

abbrev joined : Broker
joined =
    put 4 (some (record { members = members; listeners = insert searching phone [] }))
      no_conversations

joined_lem : connect searching load 2 4 7 no_conversations ≡ ok joined
unfolding connect entry_of
joined_lem = refl

joined-IsValid : IsValid joined
joined-IsValid =
    connect-IsValid searching load 2 4 7 no_conversations joined no_conversations-IsValid joined_lem

-- A conversation of two messages.
abbrev event : ℕ → ℕ → ConversationEvent
event id timestamp = record {
  id = id;
  conversation = 7;
  kind = "new-message";
  timestamp = timestamp;
  author = some 3;
  content = [];
}

abbrev events : List ConversationEvent
events = event 1 100 ∷ event 2 200 ∷ []

abbrev request : GetHistory
request = record { conversation = 7; from = some 2; number_before = 10; number_after = 0 }

history_test :
    get_history (list_table ConversationEvent ConversationEvent.id) request events
    ≡ ok (record { before = event 1 100 ∷ []; after = event 2 200 ∷ [] })
unfolding get_history latest is_event is_earlier is_later find keep sort place
history_test = refl

abbrev posting : NewMessage
posting = record { conversation = 4; user = 2; message = letter }

abbrev earlier_event : ConversationEvent
earlier_event = record (event 1 100) { conversation = 4 }

joined-Reached : Reached searching load joined
joined-Reached =
    Reached.connects 2 4 7 members no_conversations joined Reached.start refl two_listens joined_lem

abbrev phone_listens : Conversation
phone_listens = record { members = members; listeners = insert searching phone [] }

joined-open : joined 4 ≡ some phone_listens
unfolding put
joined-open = refl

new_message_correct_example :
    IsPosted plain plain_reads
      (list_table ConversationEvent ConversationEvent.id)
      200
      posting
      accepted
      (earlier_event ∷ [])
      joined
      phone_listens
new_message_correct_example =
    new_message_correct plain plain_reads (list_table ConversationEvent ConversationEvent.id)
      searching load 200 posting accepted (earlier_event ∷ []) joined phone_listens joined-Reached
      members-Strict joined-open letter_lem
      (λ r m same. elim m [
        | inl first ↦ subst (λ (x : ConversationEvent). x.timestamp < 200) (sym first) (omega arith)
        | inr none_there ↦ absurd none_there
      ])
