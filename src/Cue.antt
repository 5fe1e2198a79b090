-- ===== src/Cue.antt =====
-- crates/cue/src/lib.rs: the cue engine, one module for each group of its methods.
pub mod Types
pub mod Search
pub mod Fade
pub mod Transitions
pub mod Commands
pub mod Follow
pub mod Chase
pub mod Load
pub mod Status
pub mod Tick
pub mod Safety
pub mod Landing
