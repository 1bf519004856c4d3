-- ===== src/Osi/Dissector.antt =====
-- includes/osi.h: what a dissector is.
use open_sniffer.Base.{ℕ, String, Bool, Option}
use open_sniffer.Machine.{Result, M}
use open_sniffer.Osi.Packet.{Packet}

-- `osi_dissector_operations_t`. A packet pointer may be NULL.
pub record Operations : Type 0 where
  pub handles : Option Packet → Result Bool
  pub decapsulate : Option Packet → M (Option Packet)
  pub dump : Option Packet → M (Unit {0})

-- `osi_dissector_t`
pub record Dissector : Type 0 where
  pub layer : ℕ
  pub operations : Operations
  pub name : String

abbrev pub osi_packet_not_supported : Bool
osi_packet_not_supported = Bool.false

abbrev pub osi_packet_supported : Bool
osi_packet_supported = Bool.true
