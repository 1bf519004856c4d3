-- ===== src/Tests/Whole.antt =====
-- A UDP datagram in an Ethernet frame, dumped by the whole stack and read by the whole program.
use open_sniffer.Base.{ℕ, ◌≡◌, refl, List, [], ◌∷◌, ◌++◌, codes}
use open_sniffer.Machine.{Print, run, malloc, free, byte_at, le16, le32, bytes_at, ok, text, int}
use open_sniffer.Osi.Packet.{destroy_packet}
use open_sniffer.Osi.Dissector.{Dissector}
use open_sniffer.Osi.Stack.{
  stack_clear, osi_packet_header, osi_packet_footer, dump_packet, dump_packet_recursive,
  dump_packet_by_layer, find_by_packet, apply_dissector,
}
use open_sniffer.Io.{returned, xrecvfrom, make_raw_socket, xclose}
use open_sniffer.SyncReader.{
  read, notify_packet, create, add_packet_callback, remove_packet_callback,
}
use open_sniffer.Main.{main_stack, loop, call, deliver, main}
use open_sniffer.Inaddr.{stringify_hw_addr}
use open_sniffer.Dissectors.Wire.{line}
use open_sniffer.Dissectors.Ethernet
use open_sniffer.Dissectors.Ip
use open_sniffer.Dissectors.Udp
use open_sniffer.Dissectors.Icmp
use open_sniffer.Dissectors.Tcp
use open_sniffer.Dissectors.Arp
use open_sniffer.Dissectors.Dhcp
use open_sniffer.Dissectors.Dns.Dump as Dns
use open_sniffer.Dissectors.Http
use open_sniffer.Dissectors.Dns.Header.{handles}
use open_sniffer.Tests.Chain.{chain, two_blocks, ip6_text, silent}
use open_sniffer.Tests.Stack.{received, noon, two_rounds}

-- What is printed of the frame.
abbrev frame_output : List Print
frame_output =
    line osi_packet_header (noon ∷ int 44 ∷ [])
    ∷ line Ethernet.ethernet_output_header []
    ∷ line "Ethernet source address : %s\n" (text (codes "02:00:00:00:00:02") ∷ [])
    ∷ line "Ethernet destination address : %s\n" (text (codes "02:00:00:00:00:01") ∷ [])
    ∷ line Ethernet.ethernet_output_footer []
    ∷ line Ip.ip_output_header []
    ∷ line "Source address : %s\n" (text (codes "10.0.0.1") ∷ [])
    ∷ line "Destination address : %s\n" (text (codes "10.0.0.2") ∷ [])
    ∷ line "Checksum : 0x%x\n" (int 0x1234 ∷ [])
    ∷ line Ip.ip_output_footer []
    ∷ line Udp.udp_output_header []
    ∷ line "UDP source port : %d\n" (int 12345 ∷ [])
    ∷ line "UDP destination port : %d\n" (int 7 ∷ [])
    ∷ line Udp.udp_output_footer []
    ∷ line Http.http_output_header []
    ∷ line Http.http_output_footer []
    ∷ line osi_packet_footer []
    ∷ []

dump_received :
    dump_packet
      (chain Dissector)
      noon
      (main_stack (chain Dissector) ip6_text silent)
      received
      two_blocks
    ≡ ok (tt, record two_blocks { output = frame_output; next = 10 })
unfolding dump_packet run malloc free main_stack dump_packet_recursive dump_packet_by_layer
    find_by_packet apply_dissector stringify_hw_addr byte_at le16 le32 bytes_at destroy_packet
    Ethernet.handles Ethernet.dump Ethernet.decapsulate Ip.handles Ip.dump Ip.decapsulate
    Arp.handles Arp.dump Arp.decapsulate Udp.handles Udp.dump Udp.decapsulate Dhcp.handles Dhcp.dump
    Dhcp.decapsulate Icmp.handles Icmp.dump Icmp.decapsulate Tcp.handles Tcp.dump Tcp.decapsulate
    Http.handles Http.dump Http.decapsulate handles Dns.dump Dns.decapsulate
dump_received = refl

-- The whole program, with two rounds and SIGINT in the second.
main-two_rounds :
    main
      (chain Dissector)
      (chain ℕ)
      ip6_text
      silent
      (returned 3)
      (λ fd. returned 0)
      two_rounds
      two_blocks
    ≡ ok (
      (
        0,
        record { dissectors = []; nb_dissectors = 0 },
        record { fd = 3; callback_list = []; interceptor_list = [] },
      ),
      record two_blocks { output = frame_output ++ frame_output; next = 19 },
    )
unfolding main call deliver read xrecvfrom notify_packet remove_packet_callback create
    add_packet_callback make_raw_socket xclose loop stack_clear dump_packet run malloc free
    main_stack dump_packet_recursive dump_packet_by_layer find_by_packet apply_dissector
    stringify_hw_addr byte_at le16 le32 bytes_at destroy_packet Ethernet.handles Ethernet.dump
    Ethernet.decapsulate Ip.handles Ip.dump Ip.decapsulate Arp.handles Arp.dump Arp.decapsulate
    Udp.handles Udp.dump Udp.decapsulate Dhcp.handles Dhcp.dump Dhcp.decapsulate Icmp.handles
    Icmp.dump Icmp.decapsulate Tcp.handles Tcp.dump Tcp.decapsulate Http.handles Http.dump
    Http.decapsulate handles Dns.dump Dns.decapsulate
main-two_rounds = refl
