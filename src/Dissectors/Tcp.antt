-- ===== src/Dissectors/Tcp.antt =====
-- src/dissectors/tcp/tcp.c and its header.
pub mod Lawful
pub mod Fields
pub mod Payload
use open_sniffer.Base.{
  ℕ, ◌+◌, ◌-◌, ◌*◌, ◌/◌, ◌%◌, ◌^◌, ◌||◌, ◌&&◌, String, Bool, true, false, not, Option, none, some,
  List, [], ◌∷◌, Bytes, codes, ltb, leb, ◌==◌, if◌then◌else◌, zero, suc, get_elem?,
}
use open_sniffer.Base.Words.{ntohs, ntohl, sub_size, bits}
use open_sniffer.Machine.{
  Result, ok, fault, out_of_bounds, and_then, M, ◌>>=◌, ◌>>◌, ret, lift, printf, text, int, str,
  Buffer, byte_at, le16, le32, in_range,
}
use open_sniffer.Inaddr.{stringify_hw_addr, inet_ntoa}
use open_sniffer.Osi.Packet.{
  Packet, Session, osi_layer_1, osi_layer_2, osi_layer_3, osi_layer_7, data_of, build,
  create_session,
}
use open_sniffer.Osi.Dissector.{Dissector, osi_packet_not_supported, osi_packet_supported}

abbrev pub tcp_output_header : String
tcp_output_header =
    "\u{1b}[36m-------------------------------------------------------\n---------------------  \u{1b}[1mTCP Header\u{1b}[21m ---------------------\n-------------------------------------------------------\n"

abbrev pub tcp_output_footer : String
tcp_output_footer = "-------------------------------------------------------\n\u{1b}[0m"

-- `IPPROTO_TCP`
abbrev pub ipproto_tcp : ℕ
ipproto_tcp = 6

-- `sizeof(struct tcphdr*)`: the size of a pointer.
abbrev pub pointer_size : ℕ
pointer_size = 8

-- `header->doff`: the upper half of byte 12.
unfoldable pub doff : Buffer → Result ℕ
doff b = and_then (byte_at b 12) (λ x. ok (bits x 4 4))

-- `TCP_HAS_FLAG(header, type)`: bit `k` of the word at offset 12, as loaded.
unfoldable pub has_flag : ℕ → ℕ → Bool
has_flag word k = bits word k 1 == 1

-- The bits of `TCP_FLAG_FIN`, `TCP_FLAG_SYN`, `TCP_FLAG_RST`, `TCP_FLAG_PSH` and `TCP_FLAG_ACK`,
-- big-endian constants, in a word that a little-endian machine loads.
abbrev pub flag_fin : ℕ
flag_fin = 8

abbrev pub flag_syn : ℕ
flag_syn = 9

abbrev pub flag_rst : ℕ
flag_rst = 10

abbrev pub flag_psh : ℕ
flag_psh = 11

abbrev pub flag_ack : ℕ
flag_ack = 12

-- `tcp_dissector_get_packet_type`, on the flag word
unfoldable pub packet_type : ℕ → Bytes
unfolding has_flag
packet_type word =
    if has_flag word flag_fin
    then codes "FIN "
    else if has_flag word flag_rst
    then codes "RST "
    else if has_flag word flag_psh
    then codes "PSH "
    else if has_flag word flag_syn
    then codes "SYN "
    else if has_flag word flag_ack
    then codes "ACK "
    else []

unfoldable pub handles_data : Packet → Option Buffer → Result Bool
handles_data packet none = ok osi_packet_not_supported
handles_data packet (some b) =
    if ltb packet.size pointer_size || not (packet.protocol == ipproto_tcp)
    then ok osi_packet_not_supported
    else and_then (doff b) λ words.
      ok (if leb packet.size (words * 4) then osi_packet_not_supported else osi_packet_supported)

-- `tcp_dissector_handles`
unfoldable pub handles : Option Packet → Result Bool
unfolding handles_data doff
handles none = ok osi_packet_not_supported
handles (some packet) = handles_data packet packet.payload

unfoldable pub dump_header : Packet × Buffer → M (Unit {0})
unfolding packet_type doff
dump_header (p, b) = do
  printf tcp_output_header []
  word ← lift (le32 b 12)
  printf "Packet type : %s\n" (text (packet_type word) ∷ [])
  source ← lift (le16 b 0)
  printf "Source port : %u\n" (int (ntohs source) ∷ [])
  dest ← lift (le16 b 2)
  printf "Destination port : %u\n" (int (ntohs dest) ∷ [])
  seq ← lift (le32 b 4)
  printf "Sequence number : %u\n" (int (ntohs seq) ∷ [])
  ack_seq ← lift (le32 b 8)
  printf "Acknowledgement number : %u\n" (int (ntohs ack_seq) ∷ [])
  words ← lift (doff b)
  printf "Header length : %u bytes\n" (int (ntohs (words * 4)) ∷ [])
  printf tcp_output_footer []

-- `osi_create_session(header->seq, header->source, header->dest)`, the fields as they lie in
-- memory.
unfoldable pub new_session : Buffer → M (Option Session)
unfolding create_session
new_session b = do
  seq ← lift (le32 b 4)
  source ← lift (le16 b 0)
  dest ← lift (le16 b 2)
  create_session seq source dest

unfoldable pub strip_header : Packet × Buffer → M (Option Packet)
unfolding build new_session doff
strip_header (p, b) = do
  words ← lift (doff b)
  build (sub_size p.size (words * 4)) (ok 0) (new_session b) b (words * 4)

-- `tcp_dissector_dump`
unfoldable pub dump : Option Packet → M (Unit {0})
unfolding handles data_of dump_header
dump packet = do
  supported ← lift (handles packet)
  if supported then lift (data_of packet) >>= dump_header else ret tt

-- `tcp_dissector_decapsulate`
unfoldable pub decapsulate : Option Packet → M (Option Packet)
unfolding handles data_of strip_header
decapsulate packet = do
  supported ← lift (handles packet)
  if supported then lift (data_of packet) >>= strip_header else ret none

-- `tcp_dissector_new`
abbrev pub dissector : Dissector
dissector = record {
  layer = osi_layer_3;
  operations = record { handles = handles; dump = dump; decapsulate = decapsulate };
  name = "tcp";
}
