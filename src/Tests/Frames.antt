-- ===== src/Tests/Frames.antt =====
-- Whole frames through the stack that `main` sets up.
use open_sniffer.Base.{◌≡◌, refl, inl, [], ◌∷◌, ◌++◌, Bytes, codes, arith}
use open_sniffer.Machine.{ok, int, str, text}
use open_sniffer.Osi.Dissector.{Dissector}
use open_sniffer.Osi.Stack.{dump_packet}
use open_sniffer.Osi.Select.{registered}
use open_sniffer.Osi.Reference.{reference, dump_packet-reference}
use open_sniffer.Dissectors.Wire.{line}
use open_sniffer.Dissectors.Dns.Dump as Dns
use open_sniffer.Dissectors.Dns.Asked.{IsPrinted}
use open_sniffer.Dissectors.Dns.Query.{IsQuery}
use open_sniffer.Dissectors.Dns.Types.{type_to_string}
use open_sniffer.Main.{main_stack}
use open_sniffer.Main.Datagram.{Headers, AreBytes, frame, shown}
use open_sniffer.Main.OverUdp as OverUdp
use open_sniffer.Main.Query.{dump_packet-query}
use open_sniffer.Main.Answer.{dump_packet-response}
use open_sniffer.Tests.Chain.{chain, two_blocks, ip6_text, silent}
use open_sniffer.Tests.Stack.{received, noon}

dump_packet-reference_example :
    dump_packet (chain Dissector) noon (main_stack (chain Dissector) ip6_text silent) received
    ≡ reference
        (registered (chain Dissector) (main_stack (chain Dissector) ip6_text silent))
        noon
        received
dump_packet-reference_example =
    dump_packet-reference (chain Dissector) (main_stack (chain Dissector) ip6_text silent) noon
      received

-- From 10.0.0.1 to 10.0.0.2.
abbrev pub headers : Headers
headers = record {
  d1 = 2;
  d2 = 0;
  d3 = 0;
  d4 = 0;
  d5 = 0;
  d6 = 1;
  e1 = 2;
  e2 = 0;
  e3 = 0;
  e4 = 0;
  e5 = 0;
  e6 = 2;
  v1 = 0;
  v2 = 0;
  v3 = 60;
  v4 = 0;
  v5 = 1;
  v6 = 0;
  v7 = 0;
  v8 = 64;
  k1 = 0x12;
  k2 = 0x34;
  s1 = 10;
  s2 = 0;
  s3 = 0;
  s4 = 1;
  t1 = 10;
  t2 = 0;
  t3 = 0;
  t4 = 2;
}

pub headers-AreBytes : AreBytes headers
headers-AreBytes = record {
  checksum = (omega arith, (omega arith, tt));
  source = (omega arith, (omega arith, (omega arith, (omega arith, tt))));
  destination = (omega arith, (omega arith, (omega arith, (omega arith, tt))));
}

-- From port 4000 to port 53.
abbrev pub udp_header : OverUdp.UdpHeader
udp_header = record { p1 = 15; p2 = 160; q1 = 0; q2 = 53; l1 = 0; l2 = 30; c1 = 0; c2 = 0 }

pub udp_header-ArePorts : OverUdp.ArePorts udp_header
udp_header-ArePorts = (omega arith, (omega arith, (omega arith, (omega arith, tt))))

-- A query for the address of "ab.c".
abbrev pub asked : Bytes
asked =
    0x12 ∷ 0x34 ∷ 1 ∷ 0 ∷ 0 ∷ 1 ∷ 0 ∷ 0 ∷ 0 ∷ 0 ∷ 0 ∷ 0 ∷ 2 ∷ 97 ∷ 98 ∷ 1 ∷ 99 ∷ 0 ∷ 0 ∷ 1 ∷ 0 ∷ 1
    ∷ []

printed : IsPrinted (codes "ab" ∷ codes "c" ∷ [])
printed = record {
  is_name = ((omega arith, omega arith), ((omega arith, omega arith), tt));
  fits = omega arith;
  no_zero = (omega arith, (omega arith, (omega arith, (omega arith, tt))));
}

pub asked-IsQuery : IsQuery 0x12 0x34 1 0 0 0 0 0 0 0 (codes "ab" ∷ codes "c" ∷ []) 0 1 0 1 []
asked-IsQuery = record {
  bytes = (
    omega arith,
    (
      omega arith,
      (omega arith, (omega arith, (omega arith, (omega arith, (omega arith, (omega arith, tt)))))),
    ),
  );
  no_response = omega arith;
  no_error = refl;
  unused_zero = refl;
  few_answers = omega arith;
  name = printed;
}

dump_packet-query_example :
    dump_packet
      (chain Dissector)
      noon
      (main_stack (chain Dissector) ip6_text silent)
      (frame headers 17 (OverUdp.udp_bytes udp_header asked) (0 ∷ 0 ∷ []) 2)
      two_blocks
    ≡ ok (
      tt,
      record two_blocks {
        next = 10;
        output = shown headers 17 (OverUdp.udp_bytes udp_header asked) noon (
            OverUdp.udp_lines udp_header asked
            ++ line Dns.dns_output_header []
              ∷ line "Identifier : %d\n" (int 0x1234 ∷ [])
              ∷ line "Type of packet : %s\n" (str "QUERY" ∷ [])
              ∷ line "# of questions : %d\n" (int 1 ∷ [])
              ∷ line "Query : %s\n" (text (codes "ab.c") ∷ [])
              ∷ line "Query type : %s (%u)\n" (str (type_to_string 1) ∷ int 1 ∷ [])
              ∷ line Dns.dns_output_footer []
              ∷ []);
      },
    )
dump_packet-query_example =
    dump_packet-query (chain Dissector) ip6_text silent 0x12 0x34 1 0 0 0 0 0 0 0
      (codes "ab" ∷ codes "c" ∷ []) 0 1 0 1 [] headers udp_header (0 ∷ 0 ∷ []) 2 noon two_blocks
      headers-AreBytes udp_header-ArePorts (omega arith) asked-IsQuery
      (inl (omega arith, omega arith))

-- "ab.c" has the address 10.0.0.7, for a minute.
abbrev answered : Bytes
answered =
    0x12 ∷ 0x34 ∷ 0x81 ∷ 0x80 ∷ 0 ∷ 1 ∷ 0 ∷ 1 ∷ 0 ∷ 0 ∷ 0 ∷ 2 ∷ 2 ∷ 97 ∷ 98 ∷ 1 ∷ 99 ∷ 0 ∷ 0 ∷ 1 ∷ 0
    ∷ 1 ∷ 0xc0 ∷ 12 ∷ 0 ∷ 1 ∷ 0 ∷ 1 ∷ 0 ∷ 0 ∷ 0 ∷ 60 ∷ 0 ∷ 4 ∷ 10 ∷ 0 ∷ 0 ∷ 7 ∷ []

dump_packet-response_example :
    dump_packet
      (chain Dissector)
      noon
      (main_stack (chain Dissector) ip6_text silent)
      (frame headers 17 (OverUdp.udp_bytes udp_header answered) (0 ∷ 0 ∷ []) 2)
      two_blocks
    ≡ ok (
      tt,
      record two_blocks {
        next = 10;
        output = shown headers 17 (OverUdp.udp_bytes udp_header answered) noon (
            OverUdp.udp_lines udp_header answered
            ++ line Dns.dns_output_header []
              ∷ line "Identifier : %d\n" (int 0x1234 ∷ [])
              ∷ line "Type of packet : %s\n" (str "RESPONSE" ∷ [])
              ∷ line "Response code : %d\n" (int 0 ∷ [])
              ∷ line "# of questions : %d\n" (int 1 ∷ [])
              ∷ line "# of answers : %d\n" (int 1 ∷ [])
              ∷ line "# of authoritative servers : %d\n" (int 0 ∷ [])
              ∷ line "# of additional records : %d\n" (int 2 ∷ [])
              ∷ line "Query address : %s\n" (text (codes "ab.c") ∷ [])
              ∷ line "Query type : %s (%u)\n" (str (type_to_string 1) ∷ int 1 ∷ [])
              ∷ line Dns.response_format (int 1 ∷ str (type_to_string 1) ∷ [])
              ∷ line "IPv4 address : %s\n" (text (codes "10.0.0.7") ∷ [])
              ∷ line Dns.dns_output_footer []
              ∷ []);
      },
    )
dump_packet-response_example =
    dump_packet-response (chain Dissector) ip6_text silent 0x12 0x34 0x81 0x80 0 0 0 2
      (codes "ab" ∷ codes "c" ∷ []) 0 1 0 1 0xc0 12 0 1 0 0 0 60 0 4 10 0 0 7 [] headers udp_header
      (0 ∷ 0 ∷ []) 2 noon two_blocks headers-AreBytes udp_header-ArePorts (omega arith)
      (record {
        flags = (omega arith, (omega arith, tt));
        bytes = (
          omega arith,
          (
            omega arith,
            (
              omega arith,
              (omega arith, (omega arith, (omega arith, (omega arith, (omega arith, tt))))),
            ),
          ),
        );
        address = (omega arith, (omega arith, (omega arith, (omega arith, tt))));
        is_response = omega arith;
        no_error = refl;
        unused_zero = refl;
        name = printed;
        pointer = (omega arith, omega arith);
      })
      (inl (omega arith, omega arith))
