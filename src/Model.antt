-- ===== src/Model.antt =====
-- internal/teams/model: Teams messages and their parts.
pub mod Conversation
pub mod Sequence
pub mod Html
pub mod Properties
pub mod Sorted
