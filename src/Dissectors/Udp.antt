-- ===== src/Dissectors/Udp.antt =====
-- src/dissectors/udp/udp.c and its header.
pub mod Lawful
pub mod Fields
use open_sniffer.Base.{
  ℕ, ◌+◌, ◌-◌, ◌*◌, ◌/◌, ◌%◌, ◌^◌, ◌||◌, ◌&&◌, String, Bool, true, false, not, Option, none, some,
  List, [], ◌∷◌, Bytes, codes, ltb, leb, ◌==◌, if◌then◌else◌, zero, suc, get_elem?,
}
use open_sniffer.Base.Words.{ntohs, ntohl, sub_size, bits}
use open_sniffer.Machine.{
  Result, ok, fault, out_of_bounds, and_then, M, ◌>>=◌, ◌>>◌, ret, lift, printf, text, int, str,
  Buffer, byte_at, le16, le32, in_range,
}
use open_sniffer.Inaddr.{stringify_hw_addr, inet_ntoa}
use open_sniffer.Osi.Packet.{
  Packet, Session, osi_layer_1, osi_layer_2, osi_layer_3, osi_layer_7, data_of, build,
  create_session,
}
use open_sniffer.Osi.Dissector.{Dissector, osi_packet_not_supported, osi_packet_supported}

abbrev pub udp_output_header : String
udp_output_header =
    "\u{1b}[31m-------------------------------------------------------\n---------------------  \u{1b}[1mUDP Header\u{1b}[21m  --------------------\n-------------------------------------------------------\n"

abbrev pub udp_output_footer : String
udp_output_footer = "-------------------------------------------------------\n\u{1b}[0m"

-- `IPPROTO_UDP`
abbrev pub ipproto_udp : ℕ
ipproto_udp = 17

-- `sizeof(struct udphdr)`
abbrev pub udphdr_size : ℕ
udphdr_size = 8

unfoldable pub handles_data : Packet → Option Buffer → Result Bool
handles_data packet none = ok osi_packet_not_supported
handles_data packet (some b) =
    if not (packet.protocol == ipproto_udp) || ltb packet.size udphdr_size
    then ok osi_packet_not_supported
    else ok osi_packet_supported

-- `udp_dissector_handles`
unfoldable pub handles : Option Packet → Result Bool
unfolding handles_data
handles none = ok osi_packet_not_supported
handles (some packet) = handles_data packet packet.payload

unfoldable pub dump_header : Packet × Buffer → M (Unit {0})
dump_header (p, b) = do
  printf udp_output_header []
  source ← lift (le16 b 0)
  printf "UDP source port : %d\n" (int (ntohs source) ∷ [])
  dest ← lift (le16 b 2)
  printf "UDP destination port : %d\n" (int (ntohs dest) ∷ [])
  printf udp_output_footer []

-- `osi_create_session(0, header->source, header->dest)`, the fields as they lie in memory.
unfoldable pub new_session : Buffer → M (Option Session)
unfolding create_session
new_session b = do source ← lift (le16 b 0); dest ← lift (le16 b 2); create_session 0 source dest

unfoldable pub strip_header : Packet × Buffer → M (Option Packet)
unfolding build new_session
strip_header (p, b) = build (sub_size p.size udphdr_size) (ok 0) (new_session b) b udphdr_size

-- `udp_dissector_dump`
unfoldable pub dump : Option Packet → M (Unit {0})
unfolding handles data_of dump_header
dump packet = do
  supported ← lift (handles packet)
  if supported then lift (data_of packet) >>= dump_header else ret tt

-- `udp_dissector_decapsulate`
unfoldable pub decapsulate : Option Packet → M (Option Packet)
unfolding handles data_of strip_header
decapsulate packet = do
  supported ← lift (handles packet)
  if supported then lift (data_of packet) >>= strip_header else ret none

-- `udp_dissector_new`
abbrev pub dissector : Dissector
dissector = record {
  layer = osi_layer_3;
  operations = record { handles = handles; dump = dump; decapsulate = decapsulate };
  name = "udp";
}
