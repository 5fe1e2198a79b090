-- ===== src/Artnet.antt =====
-- crates/control-artnet: the packets that a lighting console sends to the player.
pub mod Packet
pub mod Mapper
