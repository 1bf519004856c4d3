-- ===== src/Main/Ping.antt =====
-- src/main.c, src/osi.c and src/dissectors: an ICMP message in an Ethernet frame.
use open_sniffer.Base.{
  ℕ, String, ◌+◌, ◌^◌, ◌≡◌, ◌≢◌, ◌<◌, ◌⊎◌, refl, ◌∙◌, true, false, some, none, List, [], ◌∷◌, ◌++◌,
  Bytes, All, length, arith,
}
use open_sniffer.Machine.{ok, Arg, Print, World}
use open_sniffer.LinkedList.{LinkedList}
use open_sniffer.Osi.Packet.{Packet}
use open_sniffer.Osi.Dissector.{Dissector}
use open_sniffer.Osi.Stack.{Stack, dump_packet_by_layer, dump_packet}
use open_sniffer.Osi.Search.{first_of}
use open_sniffer.Osi.Steps.{layer_found, layer_none, walk_some}
use open_sniffer.Dissectors.Wire.{IsByte, packet_of}
use open_sniffer.Dissectors.Table.{find_value}
use open_sniffer.Dissectors.Udp
use open_sniffer.Dissectors.Icmp
use open_sniffer.Dissectors.Icmp.Fields as IcmpFields
use open_sniffer.Dissectors.Icmp.Lookup.{names}
use open_sniffer.Dissectors.Dhcp
use open_sniffer.Dissectors.Dhcp.Fields as DhcpFields
use open_sniffer.Dissectors.Dns.Header
use open_sniffer.Dissectors.Http
use open_sniffer.Dissectors.Http.{Parsed}
use open_sniffer.Main.{dissectors, main_stack}
use open_sniffer.Main.Datagram.{Headers, AreBytes, frame, shown}
use open_sniffer.Main.Carried.{first_of-dissectors, application_walk, Walks, dump_packet-frame}

-- The blocks that ICMP takes.
abbrev two_more : ℕ → ℕ
two_more n = n + 1 + 1

module _ (D : LinkedList Dissector) (inet_ntop6 : Bytes → Bytes) (parse : Bytes → Parsed) where
  abbrev stack : Stack D
  stack = main_stack D inet_ntop6 parse

  -- UDP leaves it to ICMP.
  icmp_first :
      (block : ℕ) (bytes : Bytes)
      → Icmp.handles (some (packet_of block 1 none bytes)) ≡ ok true
      → first_of (some (packet_of block 1 none bytes)) 3 (dissectors inet_ntop6 parse)
        ≡ ok (some Icmp.dissector)
  unfolding Udp.handles
  icmp_first block bytes e = rw e refl

  -- Without a session neither DNS nor HTTP takes a payload.
  no_session :
      (block : ℕ) (bytes : Bytes)
      → Dhcp.handles (some (packet_of block 0 none bytes)) ≡ ok false
      → first_of (some (packet_of block 0 none bytes)) 7 (dissectors inet_ntop6 parse) ≡ ok none
  unfolding Header.handles Http.handles
  no_session block bytes e = rw e refl

  module _ (type code k1 k2 r1 r2 r3 r4 x0 x1 x2 x3 x4 x5 x6 x7 : ℕ) (rest : Bytes) where
    abbrev content : Bytes
    content = x0 ∷ x1 ∷ x2 ∷ x3 ∷ x4 ∷ x5 ∷ x6 ∷ x7 ∷ rest

    abbrev icmp_bytes : Bytes
    icmp_bytes = type ∷ code ∷ k1 ∷ k2 ∷ r1 ∷ r2 ∷ r3 ∷ r4 ∷ content

    abbrev inner : World → Packet
    inner v = IcmpFields.content_packet type code k1 k2 r1 r2 r3 r4 content v

    abbrev icmp_lines : String → List Print
    icmp_lines = IcmpFields.icmp_lines type code k1 k2 r1 r2 r3 r4 content

    module _ (name : String) (known : find_value type (names Icmp.types) ≡ some name)
        (k : All IsByte (k1 ∷ k2 ∷ [])) (fits : length content + 8 < 2 ^ 64)
        (no_dhcp : ((x0 ≢ 1) × (x0 ≢ 2)) ⊎ (20 < x1)) where
      icmp_layer :
          (block : ℕ) (v : World)
          → dump_packet_by_layer D stack (some (packet_of block 1 none icmp_bytes)) 3 v
            ≡ ok (
              some (inner v),
              record v {
                live = (v.next + 1) ∷ v.next ∷ v.live;
                next = two_more v.next;
                output = v.output ++ icmp_lines name;
              },
            )
      icmp_layer block v =
          let (hk1, (hk2, _)) = k in
          let p = packet_of block 1 none icmp_bytes in
          layer_found D stack (some p) 3 Icmp.dissector _ v _ _
            (first_of-dissectors D inet_ntop6 parse (some p) 3
              ∙ icmp_first block icmp_bytes
                  (IcmpFields.handles-message type code k1 k2 r1 r2 r3 r4 content block none))
            (IcmpFields.decapsulate-message type code k1 k2 r1 r2 r3 r4 content block none v fits)
            (IcmpFields.dump-message type code k1 k2 r1 r2 r3 r4 content block none _ name known hk1
              hk2)

      left_alone : (v w : World) → dump_packet_by_layer D stack (some (inner v)) 7 w ≡ ok (none, w)
      left_alone v w = layer_none D stack (some (inner v)) 7 w (
          first_of-dissectors D inet_ntop6 parse (some (inner v)) 7
          ∙ no_session v.next content
              (DhcpFields.refuses-payload 0 x0 x1 x2 x3 x4 x5 x6 x7 rest v.next none no_dhcp))

      icmp_walk : Walks D inet_ntop6 parse 1 icmp_bytes two_more (icmp_lines name)
      icmp_walk block v =
          walk_some D stack 6 (some (packet_of block 1 none icmp_bytes)) 3 (inner v) v _ _ v.live
            (omega arith) (icmp_layer block v)
            (application_walk D inet_ntop6 parse (inner v) _ _ (left_alone v _)) refl

    -- The dump of an Ethernet frame with an IPv4 header of twenty bytes and an ICMP message, by the
    -- stack that `main` sets up, ends: it prints the header of the dump, the lines of Ethernet and
    -- IP, those of ICMP with the name of the type, and the footer, and nothing else. It takes six
    -- blocks and gives all of them back. The type has a name in the table, at least eight bytes
    -- follow the header of ICMP, and they do not begin like a DHCP message: the first is neither 1
    -- nor 2, or the second is above 20. The checksums and the IPv4 addresses consist of bytes, and
    -- the length fits a `size_t`.
    pub dump_packet-message :
        (h : Headers) (slack : Bytes) (block : ℕ) (now : Arg) (w : World) (name : String)
        → AreBytes h
        → find_value type (names Icmp.types) ≡ some name
        → All IsByte (k1 ∷ k2 ∷ [])
        → length content + 42 < 2 ^ 64
        → ((x0 ≢ 1) × (x0 ≢ 2)) ⊎ (20 < x1)
        → dump_packet D now (main_stack D inet_ntop6 parse) (frame h 1 icmp_bytes slack block) w
          ≡ ok (
            tt,
            record w {
              next = w.next + 1 + 1 + 1 + 1 + 1 + 1;
              output = w.output ++ shown h 1 icmp_bytes now (icmp_lines name);
            },
          )
    dump_packet-message h slack block now w name k known l fits no_dhcp =
        dump_packet-frame D inet_ntop6 parse h k 1 icmp_bytes (omega arith) two_more
          (icmp_lines name) (icmp_walk name known l (omega arith) no_dhcp) slack block now w
