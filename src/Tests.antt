-- ===== src/Tests.antt =====
-- Concrete lists, packets and signals on which the theorems are applied.
mod Chain
mod Addresses
mod Content
mod Stack
mod Fields
mod Link
mod Inner
mod Whole
mod Dns
mod Frames
mod Payloads
mod Run
