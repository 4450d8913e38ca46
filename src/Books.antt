-- ===== src/Books.antt =====
-- Books and their parts: crates/models/src/models/bookpart.rs. A position is an `i32` as a number
-- that is greater by 2^31, so the order is the same; identifiers and titles are numbers and strings.
pub mod Parts
pub mod Positions
pub mod Moves
pub mod Trees
mod Examples
use adaptarr_server.Prelude.{ℕ, Bool, ◌==◌, ◌&&◌, Option, String, List}
use adaptarr_server.Storage.{Table}

-- A row of `book_parts`.
pub record Part : Type 0 where
  pub book : ℕ
  pub id : ℕ
  pub title : String
  pub module_id : Option ℕ
  pub parent : ℕ
  pub index : ℕ

-- Is the row a part of the group `id` of the book? The group 0 of a book is a part of itself.
unfoldable pub in_group : ℕ → ℕ → Part → Bool
in_group book id r = r.book == book && r.parent == id

-- Is it the row with this primary key?
unfoldable pub is_part : ℕ → ℕ → Part → Bool
is_part book id r = r.book == book && r.id == id

-- The entries of the audit log.
pub data Entry : Type 0 where
  create_part : ℕ → Part → Entry
  delete_part clear_part : ℕ → ℕ → Entry
  set_part_title : ℕ → ℕ → String → Entry
  reparent_part : ℕ → ℕ → ℕ → ℕ → Entry

pub record State (Content : Type 0) : Type 0 where
  pub parts : Content
  pub log : List Entry
