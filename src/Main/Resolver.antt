-- ===== src/Main/Resolver.antt =====
-- src/main.c, src/osi.c and src/dissectors: a DNS message in an Ethernet frame.
use open_sniffer.Base.{
  ℕ, ◌+◌, ◌^◌, ◌≡◌, ◌≢◌, ◌<◌, ◌⊎◌, refl, ◌∙◌, true, false, some, none, List, ◌∷◌, ◌++◌, Bytes,
  length, arith,
}
use open_sniffer.Machine.{run, ok, Arg, Print, World}
use open_sniffer.LinkedList.{LinkedList}
use open_sniffer.Osi.Packet.{Packet, Session}
use open_sniffer.Osi.Dissector.{Dissector}
use open_sniffer.Osi.Stack.{dump_packet_by_layer, dump_packet}
use open_sniffer.Osi.Search.{first_of}
use open_sniffer.Osi.Steps.{layer_found}
use open_sniffer.Dissectors.Wire.{packet_of, prints}
use open_sniffer.Dissectors.Http.{Parsed}
use open_sniffer.Dissectors.Dhcp
use open_sniffer.Dissectors.Dhcp.Fields as DhcpFields
use open_sniffer.Dissectors.Dns.Dump as Dns
use open_sniffer.Dissectors.Dns.Header
use open_sniffer.Main.{dissectors, main_stack}
use open_sniffer.Main.Datagram.{Headers, AreBytes, frame, shown}
use open_sniffer.Main.Carried.{first_of-dissectors, dump_packet-frame}
use open_sniffer.Main.OverUdp.{
  UdpHeader, ArePorts, udp_bytes, udp_lines, ports, inner, three_more, udp_walk,
}

module _ (D : LinkedList Dissector) (inet_ntop6 : Bytes → Bytes) (parse : Bytes → Parsed) where
  dns_first :
      (p : Packet)
      → Dhcp.handles (some p) ≡ ok false
      → Header.handles (some p) ≡ ok true
      → first_of (some p) 7 (dissectors inet_ntop6 parse) ≡ ok (some (Dns.dissector inet_ntop6))
  dns_first p e k = rw (e, k) refl

  module _ (x0 x1 x2 x3 x4 x5 x6 x7 : ℕ) (rest : Bytes) (lines : List Print) where
    abbrev message : Bytes
    message = x0 ∷ x1 ∷ x2 ∷ x3 ∷ x4 ∷ x5 ∷ x6 ∷ x7 ∷ rest

    -- With any session DNS takes the message, and prints these lines of it.
    abbrev pub IsShown : Type 0
    IsShown =
        (block : ℕ) (session : Session) (w : World)
        → (Header.handles (some (packet_of block 0 (some session) message)) ≡ ok true)
          × (Dns.dump inet_ntop6 (some (packet_of block 0 (some session) message)) w
              ≡ prints w lines)

    message_layer :
        (u : UdpHeader)
        → IsShown
        → ((x0 ≢ 1) × (x0 ≢ 2)) ⊎ (20 < x1)
        → (v w : World)
        → dump_packet_by_layer D (main_stack D inet_ntop6 parse) (some (inner u message v)) 7 w
          ≡ ok (none, record w { output = w.output ++ lines })
    unfolding Dns.decapsulate run
    message_layer u shows not_dhcp v w =
        let p = inner u message v in
        let session = ports u message v in
        layer_found D (main_stack D inet_ntop6 parse) (some p) 7 (Dns.dissector inet_ntop6) none w w
          _
          (first_of-dissectors D inet_ntop6 parse (some p) 7
            ∙ dns_first p
                (DhcpFields.refuses-payload 0 x0 x1 x2 x3 x4 x5 x6 x7 rest v.next (some session)
                  not_dhcp)
                (shows v.next session w).0)
          refl (shows v.next session w).1

    -- What the whole frame with the message comes to.
    pub dump_packet-dns :
        (h : Headers) (u : UdpHeader) (slack : Bytes) (block : ℕ) (now : Arg) (w : World)
        → AreBytes h
        → ArePorts u
        → length message + 42 < 2 ^ 64
        → IsShown
        → ((x0 ≢ 1) × (x0 ≢ 2)) ⊎ (20 < x1)
        → dump_packet D now
            (main_stack D inet_ntop6 parse)
            (frame h 17 (udp_bytes u message) slack block)
            w
          ≡ ok (
            tt,
            record w {
              next = w.next + 1 + 1 + 1 + 1 + 1 + 1 + 1;
              output =
                  w.output ++ shown h 17 (udp_bytes u message) now (udp_lines u message ++ lines);
            },
          )
    dump_packet-dns h u slack block now w k l fits shows not_dhcp =
        dump_packet-frame D inet_ntop6 parse h k 17 (udp_bytes u message) (omega arith) three_more
          (udp_lines u message ++ lines)
          (udp_walk D inet_ntop6 parse u l message (omega arith) lines
            (message_layer u shows not_dhcp))
          slack block now w
