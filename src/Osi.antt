-- ===== src/Osi.antt =====
-- src/osi.c and includes/osi.h.
pub mod Packet
pub mod Dissector
pub mod Contract
pub mod Stack
pub mod Trace
pub mod Layer
pub mod Walk
pub mod Select
pub mod Search
pub mod Reference
pub mod Steps
