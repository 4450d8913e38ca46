-- ===== src/Events.antt =====
-- Events that users are notified of, and how they are mailed: crates/models/src/events/events.rs and
-- service.rs.
pub mod Renderer
pub mod Nesting
pub mod Rendered
pub mod Meaning
pub mod Shows
pub mod Shown
pub mod Finish
pub mod Kinds
pub mod Service
pub mod Mailed
mod Examples
pub mod Notified
