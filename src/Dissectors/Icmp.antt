-- ===== src/Dissectors/Icmp.antt =====
-- src/dissectors/icmp/icmp.c and its header.
pub mod Lawful
pub mod Lookup
pub mod Fields
use open_sniffer.Base.{
  ℕ, ◌+◌, ◌-◌, ◌*◌, ◌/◌, ◌%◌, ◌^◌, ◌||◌, ◌&&◌, String, Bool, true, false, not, Option, none, some,
  List, [], ◌∷◌, Bytes, codes, ltb, leb, ◌==◌, if◌then◌else◌, zero, suc, get_elem?,
}
use open_sniffer.Base.Words.{ntohs, ntohl, sub_size, bits}
use open_sniffer.Machine.{
  Result, ok, fault, out_of_bounds, and_then, M, ◌>>=◌, ◌>>◌, ret, lift, printf, text, int, str,
  Buffer, byte_at, le16, le32, in_range,
}
use open_sniffer.Inaddr.{stringify_hw_addr, inet_ntoa}
use open_sniffer.Osi.Packet.{
  Packet, osi_layer_1, osi_layer_2, osi_layer_3, osi_layer_7, data_of, build, create_session,
}
use open_sniffer.Osi.Dissector.{Dissector, osi_packet_not_supported, osi_packet_supported}

abbrev pub icmp_output_header : String
icmp_output_header =
    "\u{1b}[35m-------------------------------------------------------\n--------------------  \u{1b}[1mICMP Header\u{1b}[21m  ---------------------\n-------------------------------------------------------\n"

abbrev pub icmp_output_footer : String
icmp_output_footer = "-------------------------------------------------------\n\u{1b}[0m"

-- `IPPROTO_ICMP`
abbrev pub ipproto_icmp : ℕ
ipproto_icmp = 1

-- `sizeof(struct icmphdr)`
abbrev pub icmphdr_size : ℕ
icmphdr_size = 8

-- `icmp_dissector_packet_types_t`
pub record PacketType : Type 0 where
  pub type_code : ℕ
  pub type_name : String

abbrev entry : ℕ → String → PacketType
entry code name = record { type_code = code; type_name = name }

-- `types`
abbrev pub types : List PacketType
types =
    entry 0 "ICMP_ECHOREPLY"
    ∷ entry 3 "ICMP_DEST_UNREACH"
    ∷ entry 4 "ICMP_SOURCE_QUENCH"
    ∷ entry 5 "ICMP_REDIRECT"
    ∷ entry 8 "ICMP_ECHO"
    ∷ entry 11 "ICMP_TIME_EXCEEDED"
    ∷ entry 12 "ICMP_PARAMETERPROB"
    ∷ entry 13 "ICMP_TIMESTAMP"
    ∷ entry 14 "ICMP_TIMESTAMPREPLY"
    ∷ entry 15 "ICMP_INFO_REQUEST"
    ∷ entry 16 "ICMP_INFO_REPLY"
    ∷ entry 17 "ICMP_ADDRESS"
    ∷ entry 18 "ICMP_ADDRESSREPLY"
    ∷ []

-- `sizeof(types)`, in bytes: thirteen entries of a byte, its padding and a pointer.
abbrev pub sizeof_types : ℕ
sizeof_types = 208

abbrev pub icmp_type_unknown : String
icmp_type_unknown = "ICMP_TYPE_UNKNOWN"

-- The loop from index `i` on, with `rounds` rounds left.
unfoldable pub search_types : ℕ → ℕ → ℕ → Result String
unfolding in_range
search_types zero i code = ok icmp_type_unknown
search_types (suc rounds) i code =
    let rest = search_types rounds (i + 1) code in
    and_then (in_range (get_elem? types i))
      λ t. if t.type_code == code then ok t.type_name else rest

-- `icmp_dissector_packet_type_stringified`
unfoldable pub packet_type_stringified : ℕ → Result String
unfolding search_types
packet_type_stringified code = search_types sizeof_types 0 code

unfoldable pub handles_data : Packet → Option Buffer → Result Bool
handles_data packet none = ok osi_packet_not_supported
handles_data packet (some b) =
    if not (packet.protocol == ipproto_icmp) || ltb packet.size icmphdr_size
    then ok osi_packet_not_supported
    else ok osi_packet_supported

-- `icmp_dissector_handles`
unfoldable pub handles : Option Packet → Result Bool
unfolding handles_data
handles none = ok osi_packet_not_supported
handles (some packet) = handles_data packet packet.payload

unfoldable pub dump_header : Packet × Buffer → M (Unit {0})
unfolding packet_type_stringified
dump_header (p, b) = do
  printf icmp_output_header []
  type ← lift (byte_at b 0)
  name ← lift (packet_type_stringified type)
  printf "Packet type : %s\n" (str name ∷ [])
  code ← lift (byte_at b 1)
  printf "Packet code : %d\n" (int code ∷ [])
  checksum ← lift (le16 b 2)
  printf "Checksum : 0x%x\n" (int (ntohs checksum) ∷ [])
  printf icmp_output_footer []

unfoldable pub strip_header : Packet × Buffer → M (Option Packet)
unfolding build
strip_header (p, b) = build (sub_size p.size icmphdr_size) (ok 0) (ret none) b icmphdr_size

-- `icmp_dissector_dump`
unfoldable pub dump : Option Packet → M (Unit {0})
unfolding handles data_of dump_header
dump packet = do
  supported ← lift (handles packet)
  if supported then lift (data_of packet) >>= dump_header else ret tt

-- `icmp_dissector_decapsulate`
unfoldable pub decapsulate : Option Packet → M (Option Packet)
unfolding handles data_of strip_header
decapsulate packet = do
  supported ← lift (handles packet)
  if supported then lift (data_of packet) >>= strip_header else ret none

-- `icmp_dissector_new`
abbrev pub dissector : Dissector
dissector = record {
  layer = osi_layer_3;
  operations = record { handles = handles; dump = dump; decapsulate = decapsulate };
  name = "icmp";
}
