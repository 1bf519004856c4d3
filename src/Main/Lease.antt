-- ===== src/Main/Lease.antt =====
-- src/main.c, src/osi.c and src/dissectors: a DHCP message in an Ethernet frame.
use open_sniffer.Base.{
  ℕ, ◌+◌, ◌^◌, ◌≡◌, ◌≤◌, ◌<◌, ◌⊎◌, refl, ◌∙◌, true, Option, some, none, List, [], ◌∷◌, ◌++◌, Bytes,
  All, length, arith,
}
use open_sniffer.Machine.{run, ok, Arg, Print, int, str, text, World}
use open_sniffer.LinkedList.{LinkedList}
use open_sniffer.Inaddr.{colons}
use open_sniffer.Inaddr.Dotted.{dotted}
use open_sniffer.Osi.Packet.{Packet, Session}
use open_sniffer.Osi.Dissector.{Dissector}
use open_sniffer.Osi.Stack.{dump_packet_by_layer, dump_packet}
use open_sniffer.Osi.Search.{first_of}
use open_sniffer.Osi.Steps.{layer_found}
use open_sniffer.Dissectors.Wire.{IsByte, be32, line, packet_of}
use open_sniffer.Dissectors.Http.{Parsed}
use open_sniffer.Dissectors.Dhcp
use open_sniffer.Dissectors.Dhcp.Fields as DhcpFields
use open_sniffer.Main.{dissectors, main_stack}
use open_sniffer.Main.Datagram.{Headers, AreBytes, frame, shown}
use open_sniffer.Main.Carried.{first_of-dissectors, dump_packet-frame}
use open_sniffer.Main.OverUdp.{
  UdpHeader, ArePorts, udp_bytes, udp_lines, ports, three_more, udp_walk,
}

module _ (D : LinkedList Dissector) (inet_ntop6 : Bytes → Bytes) (parse : Bytes → Parsed) where
  dhcp_first :
      (p : Packet)
      → Dhcp.handles (some p) ≡ ok true
      → first_of (some p) 7 (dissectors inet_ntop6 parse) ≡ ok (some Dhcp.dissector)
  dhcp_first p e = rw e refl

  module _
      (op htype x2 x3 d1 d2 d3 d4 x8 x9 x10 x11 c1 c2 c3 c4 y1 y2 y3 y4 s1 s2 s3 s4 g1 g2 g3 g4 a1
        a2 a3 a4 a5 a6 : ℕ)
      (rest : Bytes) where
    -- The bytes of a message up to the hardware address of the client, and what follows.
    abbrev dhcp_bytes : Bytes
    dhcp_bytes =
        op ∷ htype ∷ x2 ∷ x3 ∷ d1 ∷ d2 ∷ d3 ∷ d4 ∷ x8 ∷ x9 ∷ x10 ∷ x11 ∷ c1 ∷ c2 ∷ c3 ∷ c4 ∷ y1 ∷ y2
        ∷ y3 ∷ y4 ∷ s1 ∷ s2 ∷ s3 ∷ s4 ∷ g1 ∷ g2 ∷ g3 ∷ g4 ∷ a1 ∷ a2 ∷ a3 ∷ a4 ∷ a5 ∷ a6 ∷ rest

    -- What is printed of it.
    abbrev dhcp_lines : List Print
    dhcp_lines =
        line Dhcp.dhcp_output_header []
        ∷ line "Type : %s\n" (str (Dhcp.op_to_string op) ∷ [])
        ∷ line "Hardware type : %s\n" (str (Dhcp.hw_type_to_string htype) ∷ [])
        ∷ line "XID : %x\n" (int (be32 d1 d2 d3 d4) ∷ [])
        ∷ line "CIADDR : %s\n" (text (dotted c1 c2 c3 c4) ∷ [])
        ∷ line "YIADDR : %s\n" (text (dotted y1 y2 y3 y4) ∷ [])
        ∷ line "SIADDR : %s\n" (text (dotted s1 s2 s3 s4) ∷ [])
        ∷ line "Client address : %s\n" (text (colons a1 a2 a3 a4 a5 a6) ∷ [])
        ∷ line Dhcp.dhcp_output_footer []
        ∷ []

    dhcp_layer :
        (protocol block : ℕ) (session : Option Session) (w : World)
        → (op ≡ 1) ⊎ (op ≡ 2)
        → htype ≤ 20
        → All IsByte (d1 ∷ d2 ∷ d3 ∷ d4 ∷ [])
        → All IsByte (c1 ∷ c2 ∷ c3 ∷ c4 ∷ [])
        → All IsByte (y1 ∷ y2 ∷ y3 ∷ y4 ∷ [])
        → All IsByte (s1 ∷ s2 ∷ s3 ∷ s4 ∷ [])
        → dump_packet_by_layer D
            (main_stack D inet_ntop6 parse)
            (some (packet_of block protocol session dhcp_bytes))
            7
            w
          ≡ ok (none, record w { output = w.output ++ dhcp_lines })
    unfolding Dhcp.decapsulate run
    dhcp_layer protocol block session w request hardware hd hc hy hs =
        let p = packet_of block protocol session dhcp_bytes in
        let supported =
          (DhcpFields.handles-payload protocol op htype x2 x3 d1 d2 d3 d4 _ block session).1
            (request, hardware) in
        layer_found D (main_stack D inet_ntop6 parse) (some p) 7 Dhcp.dissector none w w _
          (first_of-dissectors D inet_ntop6 parse (some p) 7 ∙ dhcp_first p supported) refl
          (DhcpFields.dump-dhcp_message op htype x2 x3 d1 d2 d3 d4 x8 x9 x10 x11 c1 c2 c3 c4 y1 y2
            y3 y4 s1 s2 s3 s4 g1 g2 g3 g4 a1 a2 a3 a4 a5 a6 rest block protocol session w hd hc hy
            hs supported)

    -- The dump of an Ethernet frame with an IPv4 header of twenty bytes, a UDP header of any ports
    -- and a content whose first byte is 1 or 2 and whose second is at most 20, by the stack that
    -- `main` sets up, ends: it prints the header of the dump, the lines of Ethernet, IP and UDP, the
    -- fields of the content as those of a DHCP message, and the footer, and nothing else. It takes
    -- seven blocks and gives all of them back. The content reaches up to the client's hardware
    -- address at least, the fields that are printed as numbers or as IPv4 addresses consist of
    -- bytes, and the length fits a `size_t`.
    pub dump_packet-dhcp_message :
        (h : Headers) (u : UdpHeader) (slack : Bytes) (block : ℕ) (now : Arg) (w : World)
        → AreBytes h
        → ArePorts u
        → length dhcp_bytes + 42 < 2 ^ 64
        → (op ≡ 1) ⊎ (op ≡ 2)
        → htype ≤ 20
        → All IsByte (d1 ∷ d2 ∷ d3 ∷ d4 ∷ [])
        → All IsByte (c1 ∷ c2 ∷ c3 ∷ c4 ∷ [])
        → All IsByte (y1 ∷ y2 ∷ y3 ∷ y4 ∷ [])
        → All IsByte (s1 ∷ s2 ∷ s3 ∷ s4 ∷ [])
        → dump_packet D now
            (main_stack D inet_ntop6 parse)
            (frame h 17 (udp_bytes u dhcp_bytes) slack block)
            w
          ≡ ok (
            tt,
            record w {
              next = w.next + 1 + 1 + 1 + 1 + 1 + 1 + 1;
              output =
                  w.output
                  ++ shown h 17 (udp_bytes u dhcp_bytes) now (udp_lines u dhcp_bytes ++ dhcp_lines);
            },
          )
    dump_packet-dhcp_message h u slack block now w k l fits request hardware hd hc hy hs =
        dump_packet-frame D inet_ntop6 parse h k 17 (udp_bytes u dhcp_bytes) (omega arith)
          three_more (udp_lines u dhcp_bytes ++ dhcp_lines)
          (udp_walk D inet_ntop6 parse u l dhcp_bytes (omega arith) dhcp_lines (λ v u'.
            dhcp_layer 0 v.next (some (ports u dhcp_bytes v)) u' request hardware hd hc hy hs))
          slack block now w
