-- ===== src/Events/Kinds.antt =====
-- The kinds of events and their groups, and how an event is stored and loaded (events.rs).
use adaptarr_server.Prelude.{
  ℕ, ◌≡◌, none, some, String, str_eq, List, [], if◌then◌else◌, Result, ok, err, sym, ap, ◌∙◌,
}
use mathlib.Core.List.{append-nil}
use adaptarr_server.Process.{SlotPermission}
use adaptarr_server.Secure.{Codec}

pub record Assigned : Type 0 where
  pub who : ℕ
  pub module_id : ℕ

pub record ProcessEnded : Type 0 where
  pub module_id : ℕ
  pub version : ℕ

pub record ProcessCancelled : Type 0 where
  pub module_id : ℕ

pub record SlotChange : Type 0 where
  pub slot : ℕ
  pub module_id : ℕ
  pub document : ℕ

pub record DraftAdvanced : Type 0 where
  pub module_id : ℕ
  pub document : ℕ
  pub step : ℕ
  pub permissions : List SlotPermission

pub record NewMessageEvent : Type 0 where
  pub conversation : ℕ
  pub author : ℕ
  pub message : ℕ

-- `SlotFilled` and `SlotVacated` have the same fields.
pub data Event : Type 0 where
  assigned : Assigned → Event
  process_ended : ProcessEnded → Event
  process_cancelled : ProcessCancelled → Event
  slot_filled slot_vacated : SlotChange → Event
  draft_advanced : DraftAdvanced → Event
  new_message : NewMessageEvent → Event

pub data EventKind : Type 0 where
  assigned process_ended process_cancelled slot_filled slot_vacated draft_advanced new_message
        other :
      EventKind

pub data Group : Type 0 where
  assigned process_ended slot_assignment draft_advanced conversation other : Group

unfoldable pub kind : Event → String
kind (Event.assigned e) = "assigned"
kind (Event.process_ended e) = "process-ended"
kind (Event.process_cancelled e) = "process-cancelled"
kind (Event.slot_filled e) = "slot-filled"
kind (Event.slot_vacated e) = "slot-vacated"
kind (Event.draft_advanced e) = "draft-advanced"
kind (Event.new_message e) = "new-message"

unfoldable pub kind_from_str : String → EventKind
kind_from_str s =
    if str_eq s "assigned"
    then EventKind.assigned
    else if str_eq s "process-ended"
    then EventKind.process_ended
    else if str_eq s "process-cancelled"
    then EventKind.process_cancelled
    else if str_eq s "slot-filled"
    then EventKind.slot_filled
    else if str_eq s "slot-vacated"
    then EventKind.slot_vacated
    else if str_eq s "draft-advanced"
    then EventKind.draft_advanced
    else if str_eq s "new-message"
    then EventKind.new_message
    else EventKind.other

unfoldable pub group : EventKind → Group
group EventKind.assigned = Group.assigned
group EventKind.process_ended = Group.process_ended
group EventKind.process_cancelled = Group.process_ended
group EventKind.slot_filled = Group.slot_assignment
group EventKind.slot_vacated = Group.slot_assignment
group EventKind.draft_advanced = Group.draft_advanced
group EventKind.new_message = Group.conversation
group EventKind.other = Group.other

pub data LoadEventError : Type 0 where
  unknown_event : String → LoadEventError
  deserialize : LoadEventError

-- The crate `rmps` at each of the structures.
pub record Codecs : Type 0 where
  pub assigned : Codec Assigned
  pub process_ended : Codec ProcessEnded
  pub process_cancelled : Codec ProcessCancelled
  pub slot_change : Codec SlotChange
  pub draft_advanced : Codec DraftAdvanced
  pub new_message : Codec NewMessageEvent

-- `rmps::from_slice(data)?` below a constructor.
unfoldable pub from_slice :
    {A : Type 0} → Codec A → (A → Event) → List ℕ → Result LoadEventError Event
from_slice codec make data' = elim (codec.deserialize data') [
  | none ↦ err deserialize
  | some e ↦ ok (make e)
]

module _ (codecs : Codecs) where
  -- The enumeration is untagged, so the structure alone is written.
  unfoldable pub serialize_event : Event → List ℕ
  serialize_event (Event.assigned e) = Codec.serialize codecs.assigned e
  serialize_event (Event.process_ended e) = Codec.serialize codecs.process_ended e
  serialize_event (Event.process_cancelled e) = Codec.serialize codecs.process_cancelled e
  serialize_event (Event.slot_filled e) = Codec.serialize codecs.slot_change e
  serialize_event (Event.slot_vacated e) = Codec.serialize codecs.slot_change e
  serialize_event (Event.draft_advanced e) = Codec.serialize codecs.draft_advanced e
  serialize_event (Event.new_message e) = Codec.serialize codecs.new_message e

  unfoldable pub load : String → List ℕ → Result LoadEventError Event
  load k data' = elim (kind_from_str k) [
    | assigned ↦ from_slice codecs.assigned Event.assigned data'
    | process_ended ↦ from_slice codecs.process_ended Event.process_ended data'
    | process_cancelled ↦ from_slice codecs.process_cancelled Event.process_cancelled data'
    | slot_filled ↦ from_slice codecs.slot_change Event.slot_filled data'
    | slot_vacated ↦ from_slice codecs.slot_change Event.slot_vacated data'
    | draft_advanced ↦ from_slice codecs.draft_advanced Event.draft_advanced data'
    | new_message ↦ from_slice codecs.new_message Event.new_message data'
    | other ↦ err (unknown_event k)
  ]

  from_slice-serialize_event :
      {A : Type 0} (codec : Codec A) (make : A → Event) (a : A)
      → from_slice codec make (codec.serialize a) ≡ ok (make a)
  unfolding from_slice
  from_slice-serialize_event codec make a =
      let whole : codec.deserialize (codec.serialize a) ≡ some a =
        ap codec.deserialize (sym (append-nil (codec.serialize a)))
        ∙ codec.deserialize-serialize a [] in
      cc whole

  -- An event that is stored, as its kind and its data, is loaded again.
  pub load-serialize_event : (e : Event) → load (kind e) (serialize_event e) ≡ ok e
  unfolding load kind kind_from_str serialize_event
  load-serialize_event (Event.assigned e) =
      from_slice-serialize_event codecs.assigned Event.assigned e
  load-serialize_event (Event.process_ended e) =
      from_slice-serialize_event codecs.process_ended Event.process_ended e
  load-serialize_event (Event.process_cancelled e) =
      from_slice-serialize_event codecs.process_cancelled Event.process_cancelled e
  load-serialize_event (Event.slot_filled e) =
      from_slice-serialize_event codecs.slot_change Event.slot_filled e
  load-serialize_event (Event.slot_vacated e) =
      from_slice-serialize_event codecs.slot_change Event.slot_vacated e
  load-serialize_event (Event.draft_advanced e) =
      from_slice-serialize_event codecs.draft_advanced Event.draft_advanced e
  load-serialize_event (Event.new_message e) =
      from_slice-serialize_event codecs.new_message Event.new_message e
