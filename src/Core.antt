-- ===== src/Core.antt =====
-- crates/core: the show model, its numbers and its timecode.
pub mod Timecode
pub mod Model
pub mod Template
pub mod Show
pub mod Edit
pub mod Command
pub mod Patch
pub mod Number
pub mod Event
