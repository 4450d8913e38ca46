-- ===== src/Format.antt =====
-- The rich-text format of messages: crates/models/src/models/conversation/format.rs, and the cursor
-- `ReadBytes` of crates/util/src/bytes_ext.rs. The renderer and the reader for it are not modelled.
pub mod ReadBytes
pub mod Frames
pub mod Content
pub mod Accepts
pub mod Plain
mod Examples
