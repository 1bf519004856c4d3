-- ===== src/Dissectors/Ethernet.antt =====
-- src/dissectors/ethernet/ethernet.c and its header.
pub mod Lawful
pub mod Fields
use open_sniffer.Base.{ℕ, ◌+◌, ◌||◌, String, Bool, Option, none, some, [], ◌∷◌, ltb, if◌then◌else◌}
use open_sniffer.Base.Words.{ntohs, sub_size}
use open_sniffer.Machine.{
  Result, ok, and_then, M, ◌>>=◌, ◌>>◌, ret, lift, printf, text, Buffer, le16,
}
use open_sniffer.Inaddr.{stringify_hw_addr}
use open_sniffer.Osi.Packet.{Packet, osi_layer_1, data_of, build}
use open_sniffer.Osi.Dissector.{Dissector, osi_packet_not_supported, osi_packet_supported}

abbrev pub ethernet_output_header : String
ethernet_output_header =
    "\u{1b}[34m-------------------------------------------------------\n-----------------  \u{1b}[1mEthernet Header\u{1b}[21m  -------------------\n-------------------------------------------------------\n"

abbrev pub ethernet_output_footer : String
ethernet_output_footer = "-------------------------------------------------------\n\u{1b}[0m"

-- `sizeof(struct ether_header)`: two addresses of six bytes and the type.
abbrev pub ether_header_size : ℕ
ether_header_size = 14

-- The type field of the header, as a host number.
abbrev pub ether_type : Buffer → Result ℕ
ether_type b = and_then (le16 b 12) (λ x. ok (ntohs x))

unfoldable pub handles_data : Packet → Option Buffer → Result Bool
handles_data packet none = ok osi_packet_not_supported
handles_data packet (some b) =
    if ltb packet.size ether_header_size
    then ok osi_packet_not_supported
    else and_then (ether_type b) λ type. ok (
        if ltb type 0x0200 || ltb 0x9000 type
        then osi_packet_not_supported
        else osi_packet_supported)

-- `ethernet_dissector_handles`
unfoldable pub handles : Option Packet → Result Bool
unfolding handles_data
handles none = ok osi_packet_not_supported
handles (some packet) = handles_data packet packet.payload

unfoldable pub dump_header : Packet × Buffer → M (Unit {0})
dump_header (p, b) = do
  printf ethernet_output_header []
  source ← lift (stringify_hw_addr b 6)
  printf "Ethernet source address : %s\n" (text source ∷ [])
  destination ← lift (stringify_hw_addr b 0)
  printf "Ethernet destination address : %s\n" (text destination ∷ [])
  printf ethernet_output_footer []

-- `ethernet_dissector_dump`
unfoldable pub dump : Option Packet → M (Unit {0})
unfolding handles data_of dump_header
dump packet = do
  supported ← lift (handles packet)
  if supported then lift (data_of packet) >>= dump_header else ret tt

-- `ethernet_dissector_get_hint`
unfoldable pub get_hint : Buffer → Result ℕ
get_hint b = ether_type b

unfoldable pub strip_header : Packet × Buffer → M (Option Packet)
unfolding get_hint build
strip_header (p, b) =
    let size = sub_size p.size ether_header_size in
    build size (get_hint b) (ret none) b ether_header_size

-- `ethernet_dissector_decapsulate`
unfoldable pub decapsulate : Option Packet → M (Option Packet)
unfolding handles data_of strip_header
decapsulate packet = do
  supported ← lift (handles packet)
  if supported then lift (data_of packet) >>= strip_header else ret none

-- `ethernet_dissector_new`
abbrev pub dissector : Dissector
dissector = record {
  layer = osi_layer_1;
  operations = record { handles = handles; dump = dump; decapsulate = decapsulate };
  name = "Ethernet";
}
