-- ===== src/Dissectors/Ip.antt =====
-- src/dissectors/ip/ip.c and its header.
pub mod Lawful
pub mod Fields
use open_sniffer.Base.{
  ℕ, ◌+◌, ◌-◌, ◌*◌, ◌/◌, ◌%◌, ◌^◌, ◌||◌, ◌&&◌, String, Bool, true, false, not, Option, none, some,
  List, [], ◌∷◌, Bytes, codes, ltb, leb, ◌==◌, if◌then◌else◌, zero, suc, get_elem?,
}
use open_sniffer.Base.Words.{ntohs, ntohl, sub_size, bits}
use open_sniffer.Machine.{
  Result, ok, fault, out_of_bounds, and_then, M, ◌>>=◌, ◌>>◌, ret, lift, printf, text, int, str,
  Buffer, byte_at, le16, le32, in_range,
}
use open_sniffer.Inaddr.{stringify_hw_addr, inet_ntoa}
use open_sniffer.Osi.Packet.{
  Packet, osi_layer_1, osi_layer_2, osi_layer_3, osi_layer_7, data_of, build, create_session,
}
use open_sniffer.Osi.Dissector.{Dissector, osi_packet_not_supported, osi_packet_supported}

abbrev pub ip_output_header : String
ip_output_header =
    "\u{1b}[32m-------------------------------------------------------\n--------------------  \u{1b}[1mIP Header\u{1b}[21m  ----------------------\n-------------------------------------------------------\n"

abbrev pub ip_output_footer : String
ip_output_footer = "-------------------------------------------------------\n\u{1b}[0m"

-- `ETHERTYPE_IP`
abbrev pub ethertype_ip : ℕ
ethertype_ip = 0x0800

-- `sizeof(struct iphdr*)`: the size of a pointer.
abbrev pub pointer_size : ℕ
pointer_size = 8

-- `header->ihl`, `header->version` and `header->protocol`
unfoldable pub ihl : Buffer → Result ℕ
ihl b = and_then (byte_at b 0) (λ x. ok (bits x 0 4))

unfoldable pub version : Buffer → Result ℕ
version b = and_then (byte_at b 0) (λ x. ok (bits x 4 4))

-- `ip_to_string`
unfoldable pub ip_to_string : ℕ → Bytes
unfolding inet_ntoa
ip_to_string ip_address = inet_ntoa ip_address

unfoldable pub handles_data : Packet → Option Buffer → Result Bool
handles_data packet none = ok osi_packet_not_supported
handles_data packet (some b) =
    if ltb packet.size pointer_size || not (packet.protocol == ethertype_ip)
    then ok osi_packet_not_supported
    else and_then (ihl b) λ words. and_then (version b) λ v. ok (
        if ltb packet.size (words * 4) || (not (v == 4) && not (v == 6))
        then osi_packet_not_supported
        else osi_packet_supported)

-- `ip_dissector_handles`
unfoldable pub handles : Option Packet → Result Bool
unfolding handles_data ihl version
handles none = ok osi_packet_not_supported
handles (some packet) = handles_data packet packet.payload

unfoldable pub dump_header : Packet × Buffer → M (Unit {0})
unfolding ip_to_string
dump_header (p, b) = do
  printf ip_output_header []
  saddr ← lift (le32 b 12)
  printf "Source address : %s\n" (text (ip_to_string saddr) ∷ [])
  daddr ← lift (le32 b 16)
  printf "Destination address : %s\n" (text (ip_to_string daddr) ∷ [])
  check ← lift (le16 b 10)
  printf "Checksum : 0x%x\n" (int (ntohs check) ∷ [])
  printf ip_output_footer []

-- `ip_dissector_get_hint`
unfoldable pub get_hint : Buffer → Result ℕ
get_hint b = byte_at b 9

unfoldable pub strip_header : Packet × Buffer → M (Option Packet)
unfolding build get_hint ihl
strip_header (p, b) = do
  words ← lift (ihl b)
  build (sub_size p.size (words * 4)) (get_hint b) (ret none) b (words * 4)

-- `ip_dissector_dump`
unfoldable pub dump : Option Packet → M (Unit {0})
unfolding handles data_of dump_header
dump packet = do
  supported ← lift (handles packet)
  if supported then lift (data_of packet) >>= dump_header else ret tt

-- `ip_dissector_decapsulate`
unfoldable pub decapsulate : Option Packet → M (Option Packet)
unfolding handles data_of strip_header
decapsulate packet = do
  supported ← lift (handles packet)
  if supported then lift (data_of packet) >>= strip_header else ret none

-- `ip_dissector_new`
abbrev pub dissector : Dissector
dissector = record {
  layer = osi_layer_2;
  operations = record { handles = handles; dump = dump; decapsulate = decapsulate };
  name = "IP";
}
