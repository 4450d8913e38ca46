-- ===== src/Drafts.antt =====
-- Drafts in a process of editing: crates/models/src/models/draft.rs, editing/slot.rs and editing/step.rs,
-- with the rows of crates/models/src/db/models.rs. Identifiers are numbers.
pub mod Slots
pub mod Seating
pub mod Advance
pub mod Checks
pub mod Advanced
pub mod Finished
pub mod Refused
pub mod Journey
pub mod Filled
mod Examples
use adaptarr_server.Prelude.{ℕ, Bool, ◌==◌, ◌&&◌, Option, String, List}
use adaptarr_server.Process.{SlotPermission}
use adaptarr_server.Storage.{Table}

pub record Draft : Type 0 where
  pub module_id : ℕ
  pub document : ℕ
  pub step : ℕ
  pub team : ℕ

pub record DraftSlot : Type 0 where
  pub draft : ℕ
  pub slot : ℕ
  pub user : ℕ

pub record Module : Type 0 where
  pub id : ℕ
  pub document : ℕ
  pub team : ℕ

pub record EditProcessSlot : Type 0 where
  pub id : ℕ
  pub process : ℕ
  pub name : String
  pub autofill : Bool

pub record EditProcessSlotRole : Type 0 where
  pub slot : ℕ
  pub role : ℕ

pub record EditProcessStep : Type 0 where
  pub id : ℕ
  pub process : ℕ
  pub name : String

pub record EditProcessStepSlot : Type 0 where
  pub step : ℕ
  pub slot : ℕ
  pub permission : SlotPermission

pub record EditProcessLink : Type 0 where
  pub from : ℕ
  pub to : ℕ
  pub name : String
  pub slot : ℕ

pub record TeamMember : Type 0 where
  pub team : ℕ
  pub user : ℕ
  pub permissions : ℕ
  pub role : Option ℕ

-- The tables. The column after each row is the one that `select` orders by.
pub record Tables : Type 1 where
  pub drafts : Table Draft Draft.module_id
  pub draft_slots : Table DraftSlot DraftSlot.user
  pub modules : Table Module Module.id
  pub slots : Table EditProcessSlot EditProcessSlot.id
  pub slot_roles : Table EditProcessSlotRole EditProcessSlotRole.role
  pub steps : Table EditProcessStep EditProcessStep.id
  pub step_slots : Table EditProcessStepSlot EditProcessStepSlot.slot
  pub links : Table EditProcessLink EditProcessLink.to
  pub team_members : Table TeamMember TeamMember.user

-- The events that users are notified of, and the request to process a document.
pub data Notice : Type 0 where
  slot_filled slot_vacated : (user slot module_id document : ℕ) → Notice
  process_ended : (members : List ℕ) (module_id version : ℕ) → Notice
  draft_advanced : (user module_id document step : ℕ) (permissions : List SlotPermission) → Notice
  process_document : ℕ → Notice

-- The entries of the audit log.
pub data Entry : Type 0 where
  fill_slot : (draft slot user : ℕ) → Entry
  finish : (user draft from to next document : ℕ) → Entry
  advance : (user draft from to next : ℕ) → Entry

pub record State (db : Tables) : Type 0 where
  pub drafts : db.drafts.Content
  pub draft_slots : db.draft_slots.Content
  pub modules : db.modules.Content
  pub slots : db.slots.Content
  pub slot_roles : db.slot_roles.Content
  pub steps : db.steps.Content
  pub step_slots : db.step_slots.Content
  pub links : db.links.Content
  pub team_members : db.team_members.Content
  pub notices : List Notice
  pub log : List Entry
