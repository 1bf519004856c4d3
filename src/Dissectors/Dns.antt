-- ===== src/Dissectors/Dns.antt =====
-- src/dissectors/dns/dns.c and its header.
pub mod Types
pub mod Expand
pub mod Header
pub mod Questions
pub mod Dump
pub mod Lawful
pub mod Accepts
pub mod Asked
pub mod Query
pub mod Response
