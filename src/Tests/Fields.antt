-- ===== src/Tests/Fields.antt =====
-- Packets of the single protocols.
use open_sniffer.Base.{
  ℕ, ◌≡◌, refl, inl, ◌≤◌, ◌↔◌, ◌⊎◌, ◌+◌, ◌*◌, ◌^◌, ◌++◌, true, none, some, [], ◌∷◌, Bytes, codes,
  length, take, arith,
}
use open_sniffer.Machine.{byte_at, ok, text, int}
use open_sniffer.Osi.Packet.{Packet}
use open_sniffer.Osi.Stack.{apply_dissector}
use open_sniffer.Dissectors.Wire.{prints, line, packet_of}
use open_sniffer.Dissectors.Udp
use open_sniffer.Dissectors.Udp.Fields as UdpFields
use open_sniffer.Dissectors.Ip
use open_sniffer.Dissectors.Ip.Fields as IpFields
use open_sniffer.Dissectors.Tcp
use open_sniffer.Dissectors.Tcp.Fields as TcpFields
use open_sniffer.Tests.Chain.{two_blocks}

-- From port 12345 to port 7, with the content "hi".
abbrev echo : Packet
echo = packet_of 1 17 none (0x30 ∷ 0x39 ∷ 0 ∷ 7 ∷ 0 ∷ 10 ∷ 0 ∷ 0 ∷ 104 ∷ 105 ∷ [])

-- The ports of the session are 14640 and 1792.
apply_dissector-udp_datagram_example :
    (Udp.handles (some echo) ≡ ok true)
    × (apply_dissector (some Udp.dissector) (some echo) two_blocks
        ≡ ok (
          some (record {
            addr = 3;
            payload = some (record { addr = 4; bytes = 104 ∷ 105 ∷ [] });
            size = 2;
            protocol = 0;
            session = some (record { addr = 5; id = 0; src_port = 14640; dest_port = 1792 });
          }),
          record two_blocks {
            live = 5 ∷ 4 ∷ 3 ∷ 2 ∷ 1 ∷ [];
            next = 6;
            output =
                line Udp.udp_output_header []
                ∷ line "UDP source port : %d\n" (int 12345 ∷ [])
                ∷ line "UDP destination port : %d\n" (int 7 ∷ [])
                ∷ line Udp.udp_output_footer []
                ∷ [];
          },
        ))
apply_dissector-udp_datagram_example =
    UdpFields.apply_dissector-udp_datagram 0x30 0x39 0 7 0 10 0 0 (104 ∷ 105 ∷ []) 1 none two_blocks
      (omega arith, (omega arith, (omega arith, (omega arith, tt)))) (omega arith)

abbrev addresses : Bytes
addresses = 10 ∷ 0 ∷ 0 ∷ 1 ∷ 192 ∷ 168 ∷ 0 ∷ 2 ∷ []

abbrev ping : Packet
ping =
    packet_of 1 0x0800 none
      (0x45 ∷ 0 ∷ 0 ∷ 22 ∷ 0 ∷ 1 ∷ 0 ∷ 0 ∷ 64 ∷ 1 ∷ 0x12 ∷ 0x34 ∷ addresses ++ 8 ∷ 0 ∷ [])

ping_supported : Ip.handles (some ping) ≡ ok true
ping_supported =
    (IpFields.handles-ip_datagram 0x45 0 0 22 0 1 0 0 64 1 (0x12 ∷ 0x34 ∷ addresses ++ 8 ∷ 0 ∷ []) 1
        none (omega arith)).1
      (omega arith, inl refl)

handles-ip_packet_example :
    (Ip.handles (some ping) ≡ ok true)
    ↔ ((◌≡◌ {A = ℕ} 0x0800 0x0800) × (8 ≤ 22) × (20 ≤ 22) × ((◌≡◌ {A = ℕ} 4 4) ⊎ (◌≡◌ {A = ℕ} 4 6)))
handles-ip_packet_example =
    IpFields.handles-ip_packet 0x45
      (0 ∷ 0 ∷ 22 ∷ 0 ∷ 1 ∷ 0 ∷ 0 ∷ 64 ∷ 1 ∷ 0x12 ∷ 0x34 ∷ addresses ++ 8 ∷ 0 ∷ []) 0x0800 1 none
      (omega arith)

decapsulate-ip_datagram_example :
    (content : Bytes) × (Ip.decapsulate (some ping) two_blocks
      ≡ ok (
        some (record {
          addr = 3;
          payload = some (record { addr = 4; bytes = content });
          size = length content;
          protocol = 1;
          session = none;
        }),
        record two_blocks { live = 4 ∷ 3 ∷ 2 ∷ 1 ∷ []; next = 5 },
      ))
    × (take 20 (0x45 ∷ 0 ∷ 0 ∷ 22 ∷ 0 ∷ 1 ∷ 0 ∷ 0 ∷ 64 ∷ 1 ∷ 0x12 ∷ 0x34 ∷ addresses ++ 8 ∷ 0 ∷ [])
          ++ content
        ≡ 0x45 ∷ 0 ∷ 0 ∷ 22 ∷ 0 ∷ 1 ∷ 0 ∷ 0 ∷ 64 ∷ 1 ∷ 0x12 ∷ 0x34 ∷ addresses ++ 8 ∷ 0 ∷ [])
decapsulate-ip_datagram_example =
    IpFields.decapsulate-ip_datagram 0x45 0 0 22 0 1 0 0 64 1
      (0x12 ∷ 0x34 ∷ addresses ++ 8 ∷ 0 ∷ []) 1 none two_blocks (omega arith) (omega arith)
      ping_supported

-- SYN and ACK are set.
packet_type-flag_text_example :
    Tcp.packet_type (0x50 + 2 ^ 8 * 0x12 + 2 ^ 16 * (1 + 2 ^ 8 * 0)) ≡ codes "SYN "
packet_type-flag_text_example = TcpFields.packet_type-flag_text 0x50 0x12 1 0 (omega arith)

abbrev syn_ack : Packet
syn_ack = packet_of 1 6 none (
    0 ∷ 80 ∷ 0x30 ∷ 0x39 ∷ 1 ∷ 2 ∷ 3 ∷ 4 ∷ 5 ∷ 6 ∷ 7 ∷ 8 ∷ 0x50 ∷ 0x12 ∷ 1 ∷ 0 ∷ 0 ∷ 0 ∷ 0 ∷ 0 ∷ 97
    ∷ [])

syn_ack_supported : Tcp.handles (some syn_ack) ≡ ok true
unfolding Tcp.handles byte_at
syn_ack_supported = refl

dump-segment_example :
    Tcp.dump (some syn_ack) two_blocks
    ≡ prints two_blocks (
        line Tcp.tcp_output_header []
        ∷ line "Packet type : %s\n" (text (codes "SYN ") ∷ [])
        ∷ line "Source port : %u\n" (int 80 ∷ [])
        ∷ line "Destination port : %u\n" (int 12345 ∷ [])
        ∷ line "Sequence number : %u\n" (int 258 ∷ [])
        ∷ line "Acknowledgement number : %u\n" (int 1286 ∷ [])
        ∷ line "Header length : %u bytes\n" (int 5120 ∷ [])
        ∷ line Tcp.tcp_output_footer []
        ∷ [])
dump-segment_example =
    TcpFields.dump-segment 0 80 0x30 0x39 1 2 3 4 5 6 7 8 0x50 0x12 1 0 (0 ∷ 0 ∷ 0 ∷ 0 ∷ 97 ∷ []) 1
      none two_blocks (omega arith) syn_ack_supported
