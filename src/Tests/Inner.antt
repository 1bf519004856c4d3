-- ===== src/Tests/Inner.antt =====
-- ICMP, TCP, DHCP and DNS payloads.
use open_sniffer.Base.{
  ℕ, ◌≡◌, refl, ◌≤◌, ◌<◌, ◌↔◌, ◌⊎◌, ◌++◌, true, some, none, [], ◌∷◌, Bytes, codes, length, take,
  arith,
}
use open_sniffer.Machine.{ok, str, int}
use open_sniffer.Osi.Packet.{Packet, Session}
use open_sniffer.Osi.Stack.{apply_dissector}
use open_sniffer.Dissectors.Table.{find_value}
use open_sniffer.Dissectors.Wire.{line, packet_of}
use open_sniffer.Dissectors.Icmp
use open_sniffer.Dissectors.Icmp.Fields as IcmpFields
use open_sniffer.Dissectors.Tcp
use open_sniffer.Dissectors.Tcp.Payload as TcpPayload
use open_sniffer.Dissectors.Dhcp
use open_sniffer.Dissectors.Dhcp.Fields as DhcpFields
use open_sniffer.Dissectors.Dns.Header
use open_sniffer.Dissectors.Dns.Accepts.{IsPlausible, handles-dns_message}
use open_sniffer.Tests.Chain.{two_blocks}

abbrev echo_request : Packet
echo_request = packet_of 1 1 none (8 ∷ 0 ∷ 0x12 ∷ 0x34 ∷ 0 ∷ 1 ∷ 0 ∷ 1 ∷ 97 ∷ [])

apply_dissector-message_example :
    (Icmp.handles (some echo_request) ≡ ok true)
    × (apply_dissector (some Icmp.dissector) (some echo_request) two_blocks
        ≡ ok (
          some (record {
            addr = 3;
            payload = some (record { addr = 4; bytes = 97 ∷ [] });
            size = 1;
            protocol = 0;
            session = none;
          }),
          record two_blocks {
            live = 4 ∷ 3 ∷ 2 ∷ 1 ∷ [];
            next = 5;
            output =
                line Icmp.icmp_output_header []
                ∷ line "Packet type : %s\n" (str "ICMP_ECHO" ∷ [])
                ∷ line "Packet code : %d\n" (int 0 ∷ [])
                ∷ line "Checksum : 0x%x\n" (int 0x1234 ∷ [])
                ∷ line Icmp.icmp_output_footer []
                ∷ [];
          },
        ))
unfolding find_value
apply_dissector-message_example =
    IcmpFields.apply_dissector-message 8 0 0x12 0x34 0 1 0 1 (97 ∷ []) 1 none two_blocks "ICMP_ECHO"
      refl (omega arith, (omega arith, tt)) (omega arith)

-- Ports 80 and 12345, a header of twenty bytes, and one byte of content.
abbrev one_byte : Packet
one_byte = packet_of 1 6 none (
    0 ∷ 80 ∷ 0x30 ∷ 0x39 ∷ 1 ∷ 2 ∷ 3 ∷ 4 ∷ 5 ∷ 6 ∷ 7 ∷ 8 ∷ 0x50 ∷ 0x12 ∷ 1 ∷ 0 ∷ 0 ∷ 0 ∷ 0 ∷ 0 ∷ 97
    ∷ [])

handles-segment_example : (Tcp.handles (some one_byte) ≡ ok true) ↔ (20 < 21)
handles-segment_example =
    TcpPayload.handles-segment 0 80 0x30 0x39 1 2 3 4 5 6 7 8 0x50
      (0x12 ∷ 1 ∷ 0 ∷ 0 ∷ 0 ∷ 0 ∷ 0 ∷ 97 ∷ []) 1 none (omega arith)

decapsulate-segment_example :
    (content : Bytes) × (Tcp.decapsulate (some one_byte) two_blocks
      ≡ ok (
        some (record {
          addr = 3;
          payload = some (record { addr = 4; bytes = content });
          size = length content;
          protocol = 0;
          session =
              some (record { addr = 5; id = 0x04030201; src_port = 20480; dest_port = 14640 });
        }),
        record two_blocks { live = 5 ∷ 4 ∷ 3 ∷ 2 ∷ 1 ∷ []; next = 6 },
      ))
    × (take 20 (
            TcpPayload.bytes 0 80 0x30 0x39 1 2 3 4 5 6 7 8 0x50
              (0x12 ∷ 1 ∷ 0 ∷ 0 ∷ 0 ∷ 0 ∷ 0 ∷ 97 ∷ []))
          ++ content
        ≡ TcpPayload.bytes 0 80 0x30 0x39 1 2 3 4 5 6 7 8 0x50
            (0x12 ∷ 1 ∷ 0 ∷ 0 ∷ 0 ∷ 0 ∷ 0 ∷ 97 ∷ []))
decapsulate-segment_example =
    TcpPayload.decapsulate-segment 0 80 0x30 0x39 1 2 3 4 5 6 7 8 0x50
      (0x12 ∷ 1 ∷ 0 ∷ 0 ∷ 0 ∷ 0 ∷ 0 ∷ 97 ∷ []) 1 none two_blocks (omega arith) (omega arith)
      (handles-segment_example.1 (omega arith))

-- An HTTP payload is not taken for DHCP.
handles-payload_example :
    (Dhcp.handles (some (packet_of 1 0 none (codes "GET / HTTP/1.1"))) ≡ ok true)
    ↔ (((◌≡◌ {A = ℕ} b'G' 1) ⊎ (◌≡◌ {A = ℕ} b'G' 2)) × (b'E' ≤ 20))
handles-payload_example =
    DhcpFields.handles-payload 0 b'G' b'E' b'T' b' ' b'/' b' ' b'H' b'T' (codes "TP/1.1") 1 none

abbrev flow : Session
flow = record { addr = 9; id = 0; src_port = 53; dest_port = 4000 }

-- A response with one question and one answer.
handles-dns_message_example :
    (Header.handles (
        some (
          packet_of 1 0 (some flow) (
            7 ∷ 7 ∷ 0x81 ∷ 0x80 ∷ 0 ∷ 1 ∷ 0 ∷ 1 ∷ 0 ∷ 0 ∷ 0 ∷ 0 ∷ 1 ∷ 97 ∷ 0 ∷ 0 ∷ 1 ∷ 0 ∷ 1 ∷ 0xc0
            ∷ 12 ∷ 0 ∷ 1 ∷ 0 ∷ 1 ∷ [])))
      ≡ ok true)
    ↔ IsPlausible 7 7 0x81 0x80 0 1 0 1 0 0 0 0
        (1 ∷ 97 ∷ 0 ∷ 0 ∷ 1 ∷ 0 ∷ 1 ∷ 0xc0 ∷ 12 ∷ 0 ∷ 1 ∷ 0 ∷ 1 ∷ [])
handles-dns_message_example =
    handles-dns_message 7 7 0x81 0x80 0 1 0 1 0 0 0 0
      (1 ∷ 97 ∷ 0 ∷ 0 ∷ 1 ∷ 0 ∷ 1 ∷ 0xc0 ∷ 12 ∷ 0 ∷ 1 ∷ 0 ∷ 1 ∷ []) 1 0 flow (omega arith)
