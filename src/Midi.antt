-- ===== src/Midi.antt =====
-- crates/control-midi: the decoding of messages, the pairing of 14-bit controllers, the MIDI time
-- code, and the soft takeover of faders. Each child module is one file of the crate.
pub mod Msg
pub mod Resolve
pub mod Learn
pub mod Msc
pub mod Cc14
pub mod Mtc
pub mod Pickup
pub mod Engine
