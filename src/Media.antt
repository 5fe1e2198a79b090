-- ===== src/Media.antt =====
-- crates/engine: the decoded frames of a media, between the thread that reads them and the display.
pub mod Pacing
pub mod Ring
pub mod Pool
