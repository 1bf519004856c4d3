-- ===== src/Tests/Link.antt =====
-- Frames, ARP packets and ICMP types.
use open_sniffer.Base.{◌≡◌, ◌≤◌, ◌↔◌, true, none, some, [], ◌∷◌, codes, arith}
use open_sniffer.Machine.{ok, fault, out_of_bounds, text}
use open_sniffer.Osi.Packet.{Packet}
use open_sniffer.Osi.Stack.{apply_dissector}
use open_sniffer.Dissectors.Table.{find_value}
use open_sniffer.Dissectors.Wire.{line, packet_of}
use open_sniffer.Dissectors.Ethernet
use open_sniffer.Dissectors.Ethernet.Fields as EthernetFields
use open_sniffer.Dissectors.Arp
use open_sniffer.Dissectors.Arp.Fields as ArpFields
use open_sniffer.Dissectors.Icmp.{packet_type_stringified}
use open_sniffer.Dissectors.Icmp.Lookup.{packet_type_stringified-names}
use open_sniffer.Tests.Chain.{two_blocks}

-- A frame of type 0x0800 with one byte of content.
abbrev short_frame : Packet
short_frame = EthernetFields.frame 2 0 0 0 0 1 2 0 0 0 0 0xab 8 0 (99 ∷ []) (0 ∷ 0 ∷ []) 1 0 none

handles-frame_example :
    (Ethernet.handles (some short_frame) ≡ ok true) ↔ ((0x0200 ≤ 0x0800) × (0x0800 ≤ 0x9000))
handles-frame_example =
    EthernetFields.handles-frame 2 0 0 0 0 1 2 0 0 0 0 0xab 8 0 (99 ∷ []) (0 ∷ 0 ∷ []) 1 0 none
      (omega arith) (omega arith)

short_frame_handled : Ethernet.handles (some short_frame) ≡ ok true
short_frame_handled = handles-frame_example.1 (omega arith, omega arith)

apply_dissector-frame_example :
    apply_dissector (some Ethernet.dissector) (some short_frame) two_blocks
    ≡ ok (
      some (record {
        addr = 3;
        payload = some (record { addr = 4; bytes = 99 ∷ [] });
        size = 1;
        protocol = 0x0800;
        session = none;
      }),
      record two_blocks {
        live = 4 ∷ 3 ∷ 2 ∷ 1 ∷ [];
        next = 5;
        output =
            line Ethernet.ethernet_output_header []
            ∷ line "Ethernet source address : %s\n" (text (codes "02:00:00:00:00:ab") ∷ [])
            ∷ line "Ethernet destination address : %s\n" (text (codes "02:00:00:00:00:01") ∷ [])
            ∷ line Ethernet.ethernet_output_footer []
            ∷ [];
      },
    )
apply_dissector-frame_example =
    EthernetFields.apply_dissector-frame 2 0 0 0 0 1 2 0 0 0 0 0xab 8 0 (99 ∷ []) (0 ∷ 0 ∷ []) 1 0
      none two_blocks (omega arith, (omega arith, tt)) (omega arith) short_frame_handled

-- Who has 10.0.0.2? and two bytes of padding.
abbrev who_has : Packet
who_has = packet_of 1 0x0806 none (
    0 ∷ 1 ∷ 8 ∷ 0 ∷ 6 ∷ 4 ∷ 0 ∷ 1 ∷ 2 ∷ 0 ∷ 0 ∷ 0 ∷ 0 ∷ 1 ∷ 10 ∷ 0 ∷ 0 ∷ 1 ∷ 0 ∷ 0 ∷ 0 ∷ 0 ∷ 0 ∷ 0
    ∷ 10 ∷ 0 ∷ 0 ∷ 2 ∷ 7 ∷ 7 ∷ [])

apply_dissector-arp_packet_example :
    (Arp.handles (some who_has) ≡ ok true)
    × (apply_dissector (some Arp.dissector) (some who_has) two_blocks
        ≡ ok (
          some (record {
            addr = 3;
            payload = some (record { addr = 4; bytes = 7 ∷ 7 ∷ [] });
            size = 2;
            protocol = 0;
            session = none;
          }),
          record two_blocks {
            live = 4 ∷ 3 ∷ 2 ∷ 1 ∷ [];
            next = 5;
            output =
                line Arp.arp_output_header []
                ∷ line "ARP Sender Hardware address : %s\n" (text (codes "02:00:00:00:00:01") ∷ [])
                ∷ line "ARP Target Hardware address : %s\n" (text (codes "00:00:00:00:00:00") ∷ [])
                ∷ line Arp.arp_output_footer []
                ∷ [];
          },
        ))
apply_dissector-arp_packet_example =
    ArpFields.apply_dissector-arp_packet 0 1 8 0 6 4 0 1 2 0 0 0 0 1 10 0 0 1 0 0 0 0 0 0 10 0 0 2
      (7 ∷ 7 ∷ []) 1 none two_blocks (omega arith)

-- Router advertisements are not in the table.
packet_type_stringified-names_example : packet_type_stringified 9 ≡ fault out_of_bounds
unfolding find_value
packet_type_stringified-names_example = packet_type_stringified-names 9

echo_is_known : packet_type_stringified 8 ≡ ok "ICMP_ECHO"
unfolding find_value
echo_is_known = packet_type_stringified-names 8
