-- ===== src/Stub/Replies.antt =====
-- Every packet is answered.
pub mod Registers
pub mod Others
pub mod Packets
