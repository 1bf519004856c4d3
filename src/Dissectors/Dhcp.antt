-- ===== src/Dissectors/Dhcp.antt =====
-- src/dissectors/dhcp/dhcp.c and its header.
pub mod Lawful
pub mod Fields
use open_sniffer.Base.{
  ℕ, ◌+◌, ◌-◌, ◌*◌, ◌/◌, ◌%◌, ◌^◌, ◌||◌, ◌&&◌, String, Bool, true, false, not, Option, none, some,
  List, [], ◌∷◌, Bytes, codes, ltb, leb, ◌==◌, if◌then◌else◌, zero, suc, get_elem?,
}
use open_sniffer.Base.Words.{ntohs, ntohl, sub_size, bits}
use open_sniffer.Machine.{
  Result, ok, fault, out_of_bounds, and_then, M, ◌>>=◌, ◌>>◌, ret, lift, printf, text, int, str,
  Buffer, byte_at, le16, le32, in_range,
}
use open_sniffer.Dissectors.Table.{find_value, or_default}
use open_sniffer.Inaddr.{stringify_hw_addr, inet_ntoa}
use open_sniffer.Osi.Packet.{
  Packet, osi_layer_1, osi_layer_2, osi_layer_3, osi_layer_7, data_of, build, create_session,
}
use open_sniffer.Osi.Dissector.{Dissector, osi_packet_not_supported, osi_packet_supported}

abbrev pub dhcp_output_header : String
dhcp_output_header =
    "\u{1b}[96m-------------------------------------------------------\n-------------------  \u{1b}[1mDHCP Header\u{1b}[21m ----------------------\n-------------------------------------------------------\n"

abbrev pub dhcp_output_footer : String
dhcp_output_footer = "-------------------------------------------------------\n\u{1b}[0m"

-- `hw_types`
abbrev pub hw_types : List (ℕ × String)
hw_types =
    (1, "Ethernet")
    ∷ (6, "IEEE 802 Networks")
    ∷ (7, "ARCNET")
    ∷ (11, "LocalTalk")
    ∷ (12, "LocalNet")
    ∷ (14, "SMDS")
    ∷ (15, "Frame Relay")
    ∷ (16, "ATM")
    ∷ (17, "HDLC")
    ∷ (18, "Fibre Channel")
    ∷ (19, "ATM")
    ∷ (20, "Serial Line")
    ∷ []

abbrev pub dhcp_unknown_hw_type : String
dhcp_unknown_hw_type = "Unknown"

-- `sizeof(struct dhcphdr*)`: the size of a pointer.
abbrev pub pointer_size : ℕ
pointer_size = 8

-- `ip_to_string`
unfoldable pub ip_to_string : ℕ → Bytes
unfolding inet_ntoa
ip_to_string ip_address = inet_ntoa ip_address

-- `op_to_string`
unfoldable pub op_to_string : ℕ → String
op_to_string op = if op == 1 then "Request" else "Reply"

-- `hw_type_to_string`
unfoldable pub hw_type_to_string : ℕ → String
unfolding find_value
hw_type_to_string type = or_default (find_value type hw_types) dhcp_unknown_hw_type

unfoldable pub handles_data : Packet → Option Buffer → Result Bool
handles_data packet none = ok osi_packet_not_supported
handles_data packet (some b) =
    if ltb packet.size pointer_size
    then ok osi_packet_not_supported
    else and_then (byte_at b 0) λ op. and_then (byte_at b 1) λ htype. ok (
        if (not (op == 1) && not (op == 2)) || ltb 20 htype
        then osi_packet_not_supported
        else osi_packet_supported)

-- `dhcp_dissector_handles`
unfoldable pub handles : Option Packet → Result Bool
unfolding handles_data
handles none = ok osi_packet_not_supported
handles (some packet) = handles_data packet packet.payload

unfoldable pub dump_header : Packet × Buffer → M (Unit {0})
unfolding ip_to_string op_to_string hw_type_to_string
dump_header (p, b) = do
  printf dhcp_output_header []
  op ← lift (byte_at b 0)
  printf "Type : %s\n" (str (op_to_string op) ∷ [])
  htype ← lift (byte_at b 1)
  printf "Hardware type : %s\n" (str (hw_type_to_string htype) ∷ [])
  xid ← lift (le32 b 4)
  printf "XID : %x\n" (int (ntohl xid) ∷ [])
  client_addr ← lift (le32 b 12)
  printf "CIADDR : %s\n" (text (ip_to_string client_addr) ∷ [])
  your_addr ← lift (le32 b 16)
  printf "YIADDR : %s\n" (text (ip_to_string your_addr) ∷ [])
  server_addr ← lift (le32 b 20)
  printf "SIADDR : %s\n" (text (ip_to_string server_addr) ∷ [])
  client_hw_addr ← lift (stringify_hw_addr b 28)
  printf "Client address : %s\n" (text client_hw_addr ∷ [])
  printf dhcp_output_footer []

-- `dhcp_dissector_dump`
unfoldable pub dump : Option Packet → M (Unit {0})
unfolding handles data_of dump_header
dump packet = do
  supported ← lift (handles packet)
  if supported then lift (data_of packet) >>= dump_header else ret tt

-- `dhcp_dissector_decapsulate`
unfoldable pub decapsulate : Option Packet → M (Option Packet)
decapsulate packet = ret none

-- `dhcp_dissector_new`
abbrev pub dissector : Dissector
dissector = record {
  layer = osi_layer_7;
  operations = record { handles = handles; dump = dump; decapsulate = decapsulate };
  name = "DHCP";
}
