-- ===== src/Tests/Payloads.antt =====
-- Frames with DHCP, HTTP and ICMP, and frames that end too early, through the stack of `main`.
use open_sniffer.Base.{◌≡◌, refl, inl, inr, [], ◌∷◌, ◌++◌, Bytes, codes, arith}
use open_sniffer.Machine.{fault, out_of_bounds, ok, int, str, text}
use open_sniffer.Osi.Dissector.{Dissector}
use open_sniffer.Osi.Stack.{dump_packet}
use open_sniffer.Dissectors.Wire.{line}
use open_sniffer.Dissectors.Table.{find_value}
use open_sniffer.Dissectors.Dhcp
use open_sniffer.Dissectors.Http
use open_sniffer.Dissectors.Http.{Parsed, url, header_field, header_value, message_complete}
use open_sniffer.Dissectors.Icmp.Fields as IcmpFields
use open_sniffer.Main.{main_stack}
use open_sniffer.Main.Datagram.{frame, shown}
use open_sniffer.Main.OverUdp as OverUdp
use open_sniffer.Main.OverTcp as OverTcp
use open_sniffer.Main.Lease.{dump_packet-dhcp_message}
use open_sniffer.Main.Web.{dump_packet-http}
use open_sniffer.Main.Short.{short_frame, dump_packet-short_frame}
use open_sniffer.Main.Cut.{dump_packet-cut_segment}
use open_sniffer.Main.Ping.{dump_packet-message}
use open_sniffer.Tests.Chain.{chain, two_blocks, ip6_text, silent}
use open_sniffer.Tests.Stack.{noon}
use open_sniffer.Tests.Frames.{headers, headers-AreBytes, udp_header, udp_header-ArePorts}

-- An offer of the address 10.0.0.7.
abbrev offer : Bytes
offer =
    2 ∷ 1 ∷ 6 ∷ 0 ∷ 0xde ∷ 0xad ∷ 0xbe ∷ 0xef ∷ 0 ∷ 0 ∷ 0 ∷ 0 ∷ 0 ∷ 0 ∷ 0 ∷ 0 ∷ 10 ∷ 0 ∷ 0 ∷ 7 ∷ 10
    ∷ 0 ∷ 0 ∷ 1 ∷ 0 ∷ 0 ∷ 0 ∷ 0 ∷ 2 ∷ 0 ∷ 0 ∷ 0 ∷ 0 ∷ 9 ∷ 7 ∷ 7 ∷ []

dump_packet-dhcp_message_example :
    dump_packet
      (chain Dissector)
      noon
      (main_stack (chain Dissector) ip6_text silent)
      (frame headers 17 (OverUdp.udp_bytes udp_header offer) (0 ∷ 0 ∷ []) 2)
      two_blocks
    ≡ ok (
      tt,
      record two_blocks {
        next = 10;
        output = shown headers 17 (OverUdp.udp_bytes udp_header offer) noon (
            OverUdp.udp_lines udp_header offer
            ++ line Dhcp.dhcp_output_header []
              ∷ line "Type : %s\n" (str "Reply" ∷ [])
              ∷ line "Hardware type : %s\n" (str "Ethernet" ∷ [])
              ∷ line "XID : %x\n" (int 0xdeadbeef ∷ [])
              ∷ line "CIADDR : %s\n" (text (codes "0.0.0.0") ∷ [])
              ∷ line "YIADDR : %s\n" (text (codes "10.0.0.7") ∷ [])
              ∷ line "SIADDR : %s\n" (text (codes "10.0.0.1") ∷ [])
              ∷ line "Client address : %s\n" (text (codes "02:00:00:00:00:09") ∷ [])
              ∷ line Dhcp.dhcp_output_footer []
              ∷ []);
      },
    )
unfolding Dhcp.op_to_string Dhcp.hw_type_to_string
dump_packet-dhcp_message_example =
    dump_packet-dhcp_message (chain Dissector) ip6_text silent 2 1 6 0 0xde 0xad 0xbe 0xef 0 0 0 0 0
      0 0 0 10 0 0 7 10 0 0 1 0 0 0 0 2 0 0 0 0 9 (7 ∷ 7 ∷ []) headers udp_header (0 ∷ 0 ∷ []) 2
      noon two_blocks headers-AreBytes udp_header-ArePorts (omega arith) (inr refl) (omega arith)
      (omega arith, (omega arith, (omega arith, (omega arith, tt))))
      (omega arith, (omega arith, (omega arith, (omega arith, tt))))
      (omega arith, (omega arith, (omega arith, (omega arith, tt))))
      (omega arith, (omega arith, (omega arith, (omega arith, tt))))

-- From port 4000 to port 80, with PSH and ACK.
abbrev tcp_header : OverTcp.TcpHeader
tcp_header = record {
  s1 = 15;
  s2 = 160;
  d1 = 0;
  d2 = 80;
  q1 = 1;
  q2 = 2;
  q3 = 3;
  q4 = 4;
  a1 = 5;
  a2 = 6;
  a3 = 7;
  a4 = 8;
  f = 0x18;
  w1 = 1;
  w2 = 0;
  c1 = 0;
  c2 = 0;
  u1 = 0;
  u2 = 0;
}

-- A parser that reports the URL and one field of the header.
abbrev reports : Bytes → Parsed
reports bytes = record {
  http_errno = 0;
  events =
      url 1 (codes "/")
      ∷ header_field (codes "Host")
      ∷ header_value (codes "a")
      ∷ message_complete
      ∷ [];
}

abbrev request : Bytes
request = codes "GET / HTTP/1.1"

dump_packet-http_example :
    dump_packet
      (chain Dissector)
      noon
      (main_stack (chain Dissector) ip6_text reports)
      (frame headers 6 (OverTcp.tcp_bytes tcp_header request) (0 ∷ 0 ∷ []) 2)
      two_blocks
    ≡ ok (
      tt,
      record two_blocks {
        next = 10;
        output = shown headers 6 (OverTcp.tcp_bytes tcp_header request) noon (
            OverTcp.tcp_lines tcp_header request
            ++ line Http.http_output_header []
              ∷ line "%s %.*s\n" (Http.str_or_null (Http.method_from_id 1) ∷ text (codes "/") ∷ [])
              ∷ line "%.*s: " (text (codes "Host") ∷ [])
              ∷ line "%.*s\n" (text (codes "a") ∷ [])
              ∷ line Http.http_output_footer []
              ∷ []);
      },
    )
dump_packet-http_example =
    dump_packet-http (chain Dissector) ip6_text reports b'G' b'E' b'T' b' ' b'/' b' ' b'H' b'T' b'T'
      b'P' b'/' b'1' (codes ".1") headers tcp_header (0 ∷ 0 ∷ []) 2 noon two_blocks headers-AreBytes
      (
        omega arith,
        (
          omega arith,
          (
            omega arith,
            (
              omega arith,
              (omega arith, (omega arith, (omega arith, (omega arith, (omega arith, tt))))),
            ),
          ),
        ),
      )
      (omega arith)
      (record {
        no_dhcp = inl (omega arith, omega arith);
        are_bytes = (omega arith, (omega arith, tt));
        no_dns = omega arith;
      })

-- An echo request with the alphabet behind it.
dump_packet-message_example :
    dump_packet
      (chain Dissector)
      noon
      (main_stack (chain Dissector) ip6_text silent)
      (frame headers 1 (8 ∷ 0 ∷ 0x12 ∷ 0x34 ∷ 0 ∷ 1 ∷ 0 ∷ 1 ∷ codes "abcdefghij") (0 ∷ 0 ∷ []) 2)
      two_blocks
    ≡ ok (
      tt,
      record two_blocks {
        next = 9;
        output =
            shown headers 1
              (8 ∷ 0 ∷ 0x12 ∷ 0x34 ∷ 0 ∷ 1 ∷ 0 ∷ 1 ∷ codes "abcdefghij")
              noon
              (IcmpFields.icmp_lines 8 0 0x12 0x34 0 1 0 1 (codes "abcdefghij") "ICMP_ECHO");
      },
    )
unfolding find_value
dump_packet-message_example =
    dump_packet-message (chain Dissector) ip6_text silent 8 0 0x12 0x34 0 1 0 1 97 98 99 100 101 102
      103 104 (codes "ij") headers (0 ∷ 0 ∷ []) 2 noon two_blocks "ICMP_ECHO" headers-AreBytes refl
      (omega arith, (omega arith, tt)) (omega arith) (inl (omega arith, omega arith))

-- A header of eight bytes by its length field, and twelve bytes in all.
dump_packet-short_frame_example :
    dump_packet
      (chain Dissector)
      noon
      (main_stack (chain Dissector) ip6_text silent)
      (short_frame
        (chain Dissector)
        ip6_text
        silent
        2
        0
        0
        0
        0
        1
        2
        0
        0
        0
        0
        2
        0x42
        0
        0
        12
        0
        1
        0
        0
        64
        17
        0
        0
        []
        (0 ∷ 0 ∷ [])
        2)
      two_blocks
    ≡ fault out_of_bounds
dump_packet-short_frame_example =
    dump_packet-short_frame (chain Dissector) ip6_text silent 2 0 0 0 0 1 2 0 0 0 0 2 0x42 0 0 12 0
      1 0 0 64 17 0 0 [] (0 ∷ 0 ∷ []) 2 noon two_blocks (omega arith) (omega arith) (omega arith)
      (inl refl)

-- Ten bytes of TCP.
dump_packet-cut_segment_example :
    dump_packet
      (chain Dissector)
      noon
      (main_stack (chain Dissector) ip6_text silent)
      (frame headers 6 (0 ∷ 80 ∷ 0 ∷ 81 ∷ 0 ∷ 0 ∷ 0 ∷ 1 ∷ 0 ∷ 0 ∷ []) [] 2)
      two_blocks
    ≡ fault out_of_bounds
dump_packet-cut_segment_example =
    dump_packet-cut_segment (chain Dissector) ip6_text silent headers
      (0 ∷ 80 ∷ 0 ∷ 81 ∷ 0 ∷ 0 ∷ 0 ∷ 1 ∷ 0 ∷ 0 ∷ []) [] 2 noon two_blocks headers-AreBytes
      (omega arith) (omega arith)
