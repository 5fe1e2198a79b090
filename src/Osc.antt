-- ===== src/Osc.antt =====
-- crates/control-osc: the messages that come in, and those that tell the state.
pub mod Ratelimit
pub mod Argument
pub mod Map
pub mod Feedback
