-- ===== src/Dissectors.antt =====
-- src/dissectors: one module for each protocol.
pub mod Table
pub mod Guard
pub mod Wire
pub mod Ethernet
pub mod Arp
pub mod Ip
pub mod Icmp
pub mod Udp
pub mod Tcp
pub mod Dhcp
pub mod Dns
pub mod Http
