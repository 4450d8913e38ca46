-- ===== src/Process.antt =====
-- The description of an editing process, crates/models/src/models/editing/structure.rs: the types
-- that clients send and `validate` reads, and the errors of `validate`.
-- A `usize` is a native number, a `Vec` a list, an `i32` identifier a number.
pub mod Graph
pub mod WellFormed
use adaptarr_server.Prelude.{ℕ, String, Bool, List}

-- `SlotPermission` of crates/models/src/db/types.rs.
pub data SlotPermission : Type 0 where
  view edit propose_changes accept_changes : SlotPermission

pub record Slot : Type 0 where
  pub id : ℕ
  pub name : String
  pub roles : List ℕ
  pub autofill : Bool

pub record StepSlot : Type 0 where
  pub slot : ℕ
  pub permission : SlotPermission

pub record Link : Type 0 where
  pub name : String
  pub to : ℕ
  pub slot : ℕ

pub record Step : Type 0 where
  pub id : ℕ
  pub name : String
  pub slots : List StepSlot
  pub links : List Link

pub record Process : Type 0 where
  pub name : String
  pub start : ℕ
  pub slots : List Slot
  pub steps : List Step

-- The arguments stand in the order of the source's fields.
pub data ValidateStructureError : Type 0 where
  empty_process_name : ValidateStructureError
  empty_slot_name : ℕ → ValidateStructureError
  empty_step_name : ℕ → ValidateStructureError
  empty_link_name : (step link : ℕ) → ValidateStructureError
  invalid_start_step : (start total : ℕ) → ValidateStructureError
  duplicate_slot_name : (slot previous : ℕ) → ValidateStructureError
  duplicate_step_name : (step previous : ℕ) → ValidateStructureError
  duplicate_link_name : (step link previous : ℕ) → ValidateStructureError
  invalid_step_slot :
      (step slot : ℕ) (permission : SlotPermission) (total : ℕ) → ValidateStructureError
  invalid_link_target : (step link target total : ℕ) → ValidateStructureError
  looped_link : (step link : ℕ) → ValidateStructureError
  invalid_link_slot : (step link slot total : ℕ) → ValidateStructureError
  unusable_link : (step link slot : ℕ) → ValidateStructureError
  permission_duplication : (step : ℕ) (permission : SlotPermission) → ValidateStructureError
  conflicting_permissions :
      (step : ℕ) (permission_a permission_b : SlotPermission) → ValidateStructureError
  missing_required_permission :
      (step : ℕ) (requirer requiree : SlotPermission) → ValidateStructureError
  unreachable_state : ℕ → ValidateStructureError
  isolated_step : ℕ → ValidateStructureError
  start_is_final : ValidateStructureError
  changes_propose_no_accept : ℕ → ValidateStructureError
  changes_accept_no_propose : ℕ → ValidateStructureError
  changes_accept_not_only_propose : ℕ → ValidateStructureError
