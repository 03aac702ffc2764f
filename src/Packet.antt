-- ===== src/Packet.antt =====
-- packet/: packets, the replay window of a receiver, and the key phases of a direction.
pub mod Codec
pub mod KeyPhase
pub mod Direction
pub mod Protector
pub mod Receiver
pub mod Onion
pub mod Window
