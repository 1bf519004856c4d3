-- ===== src/Main/OverUdp.antt =====
-- src/main.c, src/osi.c and src/dissectors: the content of a UDP datagram.
use open_sniffer.Base.{
  ℕ, ◌+◌, ◌^◌, ◌≡◌, ◌<◌, refl, ap, ◌∙◌, true, none, some, List, [], ◌∷◌, ◌++◌, Bytes, All, length,
  arith,
}
use mathlib.Core.List.{append_assoc}
use open_sniffer.Machine.{ok, Print, World}
use open_sniffer.LinkedList.{LinkedList}
use open_sniffer.Osi.Packet.{Packet, Session}
use open_sniffer.Osi.Dissector.{Dissector}
use open_sniffer.Osi.Stack.{Stack, dump_packet_by_layer}
use open_sniffer.Osi.Search.{first_of}
use open_sniffer.Osi.Steps.{layer_found, walk_some}
use open_sniffer.Dissectors.Wire.{IsByte, packet_of}
use open_sniffer.Dissectors.Http.{Parsed}
use open_sniffer.Dissectors.Udp
use open_sniffer.Dissectors.Udp.Fields as UdpFields
use open_sniffer.Main.{dissectors, main_stack}
use open_sniffer.Main.Carried.{first_of-dissectors, application_walk, Walks}

-- The header of UDP: the ports, the length and the checksum.
pub record UdpHeader : Type 0 where
  pub p1 : ℕ
  pub p2 : ℕ
  pub q1 : ℕ
  pub q2 : ℕ
  pub l1 : ℕ
  pub l2 : ℕ
  pub c1 : ℕ
  pub c2 : ℕ

-- The ports consist of bytes.
abbrev pub ArePorts : UdpHeader → Type 0
ArePorts u = All IsByte (u.p1 ∷ u.p2 ∷ u.q1 ∷ u.q2 ∷ [])

module _ (u : UdpHeader) (content : Bytes) where
  abbrev pub udp_bytes : Bytes
  udp_bytes = u.p1 ∷ u.p2 ∷ u.q1 ∷ u.q2 ∷ u.l1 ∷ u.l2 ∷ u.c1 ∷ u.c2 ∷ content

  abbrev pub udp_lines : List Print
  udp_lines = UdpFields.udp_lines u.p1 u.p2 u.q1 u.q2 u.l1 u.l2 u.c1 u.c2 content

  abbrev pub ports : World → Session
  ports v = UdpFields.content_session u.p1 u.p2 u.q1 u.q2 u.l1 u.l2 u.c1 u.c2 content v

  -- The packet that UDP hands on.
  abbrev pub inner : World → Packet
  inner v = UdpFields.content_packet u.p1 u.p2 u.q1 u.q2 u.l1 u.l2 u.c1 u.c2 content v

-- The blocks that UDP takes.
abbrev pub three_more : ℕ → ℕ
three_more n = n + 1 + 1 + 1

module _ (D : LinkedList Dissector) (inet_ntop6 : Bytes → Bytes) (parse : Bytes → Parsed) where
  abbrev stack : Stack D
  stack = main_stack D inet_ntop6 parse

  udp_first :
      (p : Packet)
      → Udp.handles (some p) ≡ ok true
      → first_of (some p) 3 (dissectors inet_ntop6 parse) ≡ ok (some Udp.dissector)
  udp_first p e = rw e refl

  module _ (u : UdpHeader) (k : ArePorts u) (content : Bytes)
      (fits : length content + 8 < 2 ^ 64) where
    udp_layer :
        (block : ℕ) (v : World)
        → dump_packet_by_layer D stack (some (packet_of block 17 none (udp_bytes u content))) 3 v
          ≡ ok (
            some (inner u content v),
            record v {
              live = (v.next + 1 + 1) ∷ (v.next + 1) ∷ v.next ∷ v.live;
              next = three_more v.next;
              output = v.output ++ udp_lines u content;
            },
          )
    udp_layer block v =
        let (hp1, (hp2, (hq1, (hq2, _)))) = k in
        let p = packet_of block 17 none (udp_bytes u content) in
        layer_found D stack (some p) 3 Udp.dissector _ v _ _
          (first_of-dissectors D inet_ntop6 parse (some p) 3
            ∙ udp_first p (
                UdpFields.handles-udp_datagram u.p1 u.p2 u.q1 u.q2 u.l1 u.l2 u.c1 u.c2 content block
                  none))
          (UdpFields.decapsulate-udp_datagram u.p1 u.p2 u.q1 u.q2 u.l1 u.l2 u.c1 u.c2 content block
            none v fits)
          (UdpFields.dump-udp_datagram u.p1 u.p2 u.q1 u.q2 u.l1 u.l2 u.c1 u.c2 content block none _
            hp1 hp2 hq1 hq2)

    -- The walk over a UDP datagram, from what happens to its content on layer 7.
    pub udp_walk :
        (out : List Print)
        → ((v w : World)
            → dump_packet_by_layer D stack (some (inner u content v)) 7 w
              ≡ ok (none, record w { output = w.output ++ out }))
        → Walks D inet_ntop6 parse 17 (udp_bytes u content) three_more (udp_lines u content ++ out)
    udp_walk out shows block v =
        walk_some D stack 6 (some (packet_of block 17 none (udp_bytes u content))) 3
          (inner u content v) v _ _ v.live (omega arith) (udp_layer block v)
          (application_walk D inet_ntop6 parse (inner u content v) _ _ (shows v _)) refl
        ∙ ap (λ calls. ok (tt, record v { next = three_more v.next; output = calls }))
            (append_assoc v.output (udp_lines u content) out)
