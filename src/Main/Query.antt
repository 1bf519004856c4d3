-- ===== src/Main/Query.antt =====
-- src/main.c, src/osi.c and src/dissectors: a DNS query in an Ethernet frame.
use open_sniffer.Base.{ℕ, ◌+◌, ◌^◌, ◌≡◌, ◌≢◌, ◌<◌, ◌⊎◌, List, ◌∷◌, ◌++◌, Bytes, length}
use open_sniffer.Machine.{ok, Arg, World}
use open_sniffer.LinkedList.{LinkedList}
use open_sniffer.Osi.Dissector.{Dissector}
use open_sniffer.Osi.Stack.{dump_packet}
use open_sniffer.Dissectors.Http.{Parsed}
use open_sniffer.Dissectors.Dns.Asked.{asked_bytes}
use open_sniffer.Dissectors.Dns.Query.{IsQuery, dump-query, query_lines}
use open_sniffer.Main.{main_stack}
use open_sniffer.Main.Datagram.{Headers, AreBytes, frame, shown}
use open_sniffer.Main.OverUdp.{UdpHeader, ArePorts, udp_bytes, udp_lines}
use open_sniffer.Main.Resolver.{dump_packet-dns}

module _ (D : LinkedList Dissector) (inet_ntop6 : Bytes → Bytes) (parse : Bytes → Parsed) where
  module _ (i1 i2 v2 v3 a1 a2 n1 n2 r1 r2 : ℕ) (labels : List Bytes) (t1 t2 c1 c2 : ℕ)
      (after : Bytes) where
    abbrev bytes : Bytes
    bytes = asked_bytes i1 i2 v2 v3 a1 a2 n1 n2 r1 r2 labels (t1 ∷ t2 ∷ c1 ∷ c2 ∷ after)

    -- The dump of an Ethernet frame with an IPv4 header of twenty bytes, a UDP header and a DNS
    -- query of one question, by the stack that `main` sets up, ends: it prints the header of the
    -- dump, the lines of Ethernet, IP and UDP, those of DNS with the query's name and type, and the
    -- footer, and nothing else. It takes seven blocks and gives all of them back. The fields that
    -- are printed as numbers or as IPv4 addresses consist of bytes, as do the flags and the number
    -- of answers, and the length fits a `size_t`. The query has no error, its unused bit is 0, it
    -- counts at most ten answers, and its name has labels of 1 to 63 bytes, less than 254
    -- characters, no byte 0 and no compression. It does not begin like a DHCP message: its first
    -- byte is neither 1 nor 2, or its second is above 20.
    pub dump_packet-query :
        (h : Headers) (u : UdpHeader) (slack : Bytes) (block : ℕ) (now : Arg) (w : World)
        → AreBytes h
        → ArePorts u
        → length bytes + 42 < 2 ^ 64
        → IsQuery i1 i2 v2 v3 a1 a2 n1 n2 r1 r2 labels t1 t2 c1 c2 after
        → ((i1 ≢ 1) × (i1 ≢ 2)) ⊎ (20 < i2)
        → dump_packet D now
            (main_stack D inet_ntop6 parse)
            (frame h 17 (udp_bytes u bytes) slack block)
            w
          ≡ ok (
            tt,
            record w {
              next = w.next + 1 + 1 + 1 + 1 + 1 + 1 + 1;
              output =
                  w.output
                  ++ shown h 17 (udp_bytes u bytes) now (
                      udp_lines u bytes
                      ++ query_lines i1 i2 v2 v3 a1 a2 n1 n2 r1 r2 labels t1 t2 c1 c2 after);
            },
          )
    dump_packet-query h u slack block now w k l fits q not_dhcp =
        dump_packet-dns D inet_ntop6 parse i1 i2 v2 v3 0 1 a1 a2 _
          (query_lines i1 i2 v2 v3 a1 a2 n1 n2 r1 r2 labels t1 t2 c1 c2 after) h u slack block now w
          k l fits
          (λ b session v.
            dump-query i1 i2 v2 v3 a1 a2 n1 n2 r1 r2 labels t1 t2 c1 c2 after q b 0 session
              inet_ntop6 v)
          not_dhcp
