-- ===== src/Dissectors/Arp.antt =====
-- src/dissectors/arp/arp.c and its header.
pub mod Lawful
pub mod Fields
use open_sniffer.Base.{
  ℕ, ◌+◌, ◌-◌, ◌*◌, ◌/◌, ◌%◌, ◌^◌, ◌||◌, ◌&&◌, String, Bool, true, false, not, Option, none, some,
  List, [], ◌∷◌, Bytes, codes, ltb, leb, ◌==◌, if◌then◌else◌, zero, suc, get_elem?,
}
use open_sniffer.Base.Words.{ntohs, ntohl, sub_size, bits}
use open_sniffer.Machine.{
  Result, ok, fault, out_of_bounds, and_then, M, ◌>>=◌, ◌>>◌, ret, lift, printf, text, int, str,
  Buffer, byte_at, le16, le32, in_range,
}
use open_sniffer.Inaddr.{stringify_hw_addr, inet_ntoa}
use open_sniffer.Osi.Packet.{
  Packet, osi_layer_1, osi_layer_2, osi_layer_3, osi_layer_7, data_of, build, create_session,
}
use open_sniffer.Osi.Dissector.{Dissector, osi_packet_not_supported, osi_packet_supported}

abbrev pub arp_output_header : String
arp_output_header =
    "\u{1b}[33m-------------------------------------------------------\n-------------------  \u{1b}[1mARP Header\u{1b}[21m  ----------------------\n-------------------------------------------------------\n"

abbrev pub arp_output_footer : String
arp_output_footer = "-------------------------------------------------------\n\u{1b}[0m"

-- `ETHERTYPE_ARP`
abbrev pub ethertype_arp : ℕ
ethertype_arp = 0x0806

-- `sizeof(struct ether_arp)`
abbrev pub ether_arp_size : ℕ
ether_arp_size = 28

unfoldable pub handles_data : Packet → Option Buffer → Result Bool
handles_data packet none = ok osi_packet_not_supported
handles_data packet (some b) =
    if not (packet.protocol == ethertype_arp) || ltb packet.size ether_arp_size
    then ok osi_packet_not_supported
    else ok osi_packet_supported

-- `arp_dissector_handles`
unfoldable pub handles : Option Packet → Result Bool
unfolding handles_data
handles none = ok osi_packet_not_supported
handles (some packet) = handles_data packet packet.payload

unfoldable pub dump_header : Packet × Buffer → M (Unit {0})
dump_header (p, b) = do
  printf arp_output_header []
  sender ← lift (stringify_hw_addr b 8)
  printf "ARP Sender Hardware address : %s\n" (text sender ∷ [])
  target ← lift (stringify_hw_addr b 18)
  printf "ARP Target Hardware address : %s\n" (text target ∷ [])
  printf arp_output_footer []

unfoldable pub strip_header : Packet × Buffer → M (Option Packet)
unfolding build
strip_header (p, b) = build (sub_size p.size ether_arp_size) (ok 0) (ret none) b ether_arp_size

-- `arp_dissector_dump`
unfoldable pub dump : Option Packet → M (Unit {0})
unfolding handles data_of dump_header
dump packet = do
  supported ← lift (handles packet)
  if supported then lift (data_of packet) >>= dump_header else ret tt

-- `arp_dissector_decapsulate`
unfoldable pub decapsulate : Option Packet → M (Option Packet)
unfolding handles data_of strip_header
decapsulate packet = do
  supported ← lift (handles packet)
  if supported then lift (data_of packet) >>= strip_header else ret none

-- `arp_dissector_new`
abbrev pub dissector : Dissector
dissector = record {
  layer = osi_layer_2;
  operations = record { handles = handles; dump = dump; decapsulate = decapsulate };
  name = "arp";
}
