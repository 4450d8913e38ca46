-- ===== src/Validate.antt =====
-- `validate` of crates/models/src/models/editing/structure.rs: each child has the part of the
-- function that it is named for, and proves what that part accepts; `Whole` puts them together.
pub mod Names
pub mod Ids
pub mod Grants
pub mod Search
pub mod Flow
pub mod Whole
mod Examples
use adaptarr_server.Prelude.{Result}
use adaptarr_server.Process.{ValidateStructureError}

abbrev pub Check : Type 0
Check = Result ValidateStructureError (Unit {0})
