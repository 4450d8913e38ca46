-- ===== src/Broker/History.antt =====
-- A slice of the history of a conversation (broker.rs, `GetHistory`).
use mathlib.Core.List.{reverse}
use adaptarr_server.Prelude.{
  ℕ, ◌+◌, ◌%◌, ◌^◌, ◌==◌, ◌&&◌, Bool, Option, none, some, String, List, [], take, ltb, leb, min,
  Result, ok, err,
}
use adaptarr_server.Storage.{Table}

pub record ConversationEvent : Type 0 where
  pub id : ℕ
  pub conversation : ℕ
  pub kind : String
  pub timestamp : ℕ
  pub author : Option ℕ
  pub content : List ℕ

pub record GetHistory : Type 0 where
  pub conversation : ℕ
  pub from : Option ℕ
  pub number_before : ℕ
  pub number_after : ℕ

pub data GetHistoryError : Type 0 where
  database : GetHistoryError

pub record History : Type 0 where
  pub before : List ConversationEvent
  pub after : List ConversationEvent

unfoldable pub is_event : ℕ → ℕ → ConversationEvent → Bool
is_event conversation id r = r.conversation == conversation && r.id == id

unfoldable pub is_earlier : ℕ → ℕ → ConversationEvent → Bool
is_earlier conversation time r = r.conversation == conversation && ltb r.timestamp time

unfoldable pub is_later : ℕ → ℕ → ConversationEvent → Bool
is_later conversation time r = r.conversation == conversation && leb time r.timestamp

module _ (table : Table ConversationEvent ConversationEvent.id) where
  open table use {Content, Contains, find, select}

  -- The last events that pass a test, at most some number; first the latest.
  unfoldable pub latest : (ConversationEvent → Bool) → ℕ → Content → List ConversationEvent
  latest p limit c = take limit (reverse (select p ConversationEvent.timestamp c))

  -- The increment of a `u16` wraps around.
  unfoldable pub get_history : GetHistory → Content → Result GetHistoryError History
  get_history msg c = elim msg.from [
    | none ↦ ok (record {
      before =
          reverse (latest (λ r. r.conversation == msg.conversation) (min msg.number_before 128) c);
      after = [];
    })
    | some id ↦ elim (find (is_event msg.conversation id) c) [
      | none ↦ err database
      | some reference ↦ ok (record {
        before =
            reverse (
              latest (is_earlier msg.conversation reference.timestamp) (min msg.number_before 64)
                c);
        after =
            take (min ((msg.number_after + 1) % 2 ^ 16) 64) (
              select (is_later msg.conversation reference.timestamp) ConversationEvent.timestamp c);
      })
    ]
  ]
