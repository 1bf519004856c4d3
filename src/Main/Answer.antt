-- ===== src/Main/Answer.antt =====
-- src/main.c, src/osi.c and src/dissectors: a DNS response in an Ethernet frame.
use open_sniffer.Base.{ℕ, ◌+◌, ◌^◌, ◌≡◌, ◌≢◌, ◌<◌, ◌⊎◌, List, ◌∷◌, ◌++◌, Bytes, length}
use open_sniffer.Machine.{ok, Arg, World}
use open_sniffer.LinkedList.{LinkedList}
use open_sniffer.Osi.Dissector.{Dissector}
use open_sniffer.Osi.Stack.{dump_packet}
use open_sniffer.Dissectors.Http.{Parsed}
use open_sniffer.Dissectors.Dns.Asked.{asked_bytes}
use open_sniffer.Dissectors.Dns.Response.{IsResponse, response_lines}
use open_sniffer.Dissectors.Dns.Response.Whole.{dump-response}
use open_sniffer.Main.{main_stack}
use open_sniffer.Main.Datagram.{Headers, AreBytes, frame, shown}
use open_sniffer.Main.OverUdp.{UdpHeader, ArePorts, udp_bytes, udp_lines}
use open_sniffer.Main.Resolver.{dump_packet-dns}

module _ (D : LinkedList Dissector) (inet_ntop6 : Bytes → Bytes) (parse : Bytes → Parsed) where
  module _ (i1 i2 v2 v3 n1 n2 r1 r2 : ℕ) (labels : List Bytes)
      (t1 t2 c1 c2 p1 p2 y1 y2 z1 z2 z3 z4 m1 m2 b1 b2 b3 b4 : ℕ) (after : Bytes) where
    abbrev bytes : Bytes
    bytes = asked_bytes i1 i2 v2 v3 0 1 n1 n2 r1 r2 labels (
        t1 ∷ t2 ∷ c1 ∷ c2 ∷ p1 ∷ p2 ∷ 0 ∷ 1 ∷ y1 ∷ y2 ∷ z1 ∷ z2 ∷ z3 ∷ z4 ∷ m1 ∷ m2 ∷ b1 ∷ b2 ∷ b3
        ∷ b4 ∷ after)

    -- The dump of an Ethernet frame with an IPv4 header of twenty bytes, a UDP header and a DNS
    -- response of one question and one IPv4 address, by the stack that `main` sets up, ends: it
    -- prints the header of the dump, the lines of Ethernet, IP and UDP, those of DNS with the name
    -- that was asked for and the address, and the footer, and nothing else. It takes seven blocks
    -- and gives all of them back. The fields that are printed as numbers or as IPv4 addresses
    -- consist of bytes, as do the flags, and the length fits a `size_t`. The response has no error,
    -- its unused bit is 0, and the question's name has labels of 1 to 63 bytes, less than 254
    -- characters, no byte 0 and no compression. The answer begins with two bytes other than 0, as a
    -- compression pointer does. The response does not begin like a DHCP message: its first byte is
    -- neither 1 nor 2, or its second is above 20.
    pub dump_packet-response :
        (h : Headers) (u : UdpHeader) (slack : Bytes) (block : ℕ) (now : Arg) (w : World)
        → AreBytes h
        → ArePorts u
        → length bytes + 42 < 2 ^ 64
        → IsResponse i1 i2 v2 v3 n1 n2 r1 r2 labels t1 t2 c1 c2 p1 p2 y1 y2 z1 z2 z3 z4 m1 m2 b1 b2
            b3 b4 after
        → ((i1 ≢ 1) × (i1 ≢ 2)) ⊎ (20 < i2)
        → dump_packet D now
            (main_stack D inet_ntop6 parse)
            (frame h 17 (udp_bytes u bytes) slack block)
            w
          ≡ ok (
            tt,
            record w {
              next = w.next + 1 + 1 + 1 + 1 + 1 + 1 + 1;
              output =
                  w.output
                  ++ shown h 17 (udp_bytes u bytes) now (
                      udp_lines u bytes
                      ++ response_lines i1 i2 v2 v3 n1 n2 r1 r2 labels t1 t2 c1 c2 p1 p2 y1 y2 z1 z2
                          z3 z4 m1 m2 b1 b2 b3 b4 after);
            },
          )
    dump_packet-response h u slack block now w k l fits q not_dhcp =
        dump_packet-dns D inet_ntop6 parse i1 i2 v2 v3 0 1 0 1 _
          (response_lines i1 i2 v2 v3 n1 n2 r1 r2 labels t1 t2 c1 c2 p1 p2 y1 y2 z1 z2 z3 z4 m1 m2
            b1 b2 b3 b4 after)
          h u slack block now w k l fits
          (λ b session v.
            dump-response i1 i2 v2 v3 n1 n2 r1 r2 labels t1 t2 c1 c2 p1 p2 y1 y2 z1 z2 z3 z4 m1 m2
              b1 b2 b3 b4 after q b 0 session inet_ntop6 v)
          not_dhcp
