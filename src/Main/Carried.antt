-- ===== src/Main/Carried.antt =====
-- src/main.c, src/osi.c and src/dissectors: a datagram of IPv4 in an Ethernet frame, from the dump's
-- header to its footer.
use mathlib.Core.List.{append_assoc}
use open_sniffer.Base.{
  ℕ, ◌+◌, ◌^◌, ◌≡◌, ◌<◌, refl, ap, ◌∙◌, true, Option, none, some, List, [], ◌∷◌, ◌++◌, Bytes,
  length, arith,
}
use open_sniffer.Machine.{Fault, fault, ok, Arg, Print, World}
use open_sniffer.LinkedList.{LinkedList}
use open_sniffer.Osi.Packet.{Packet}
use open_sniffer.Osi.Dissector.{Dissector}
use open_sniffer.Osi.Stack.{Stack, dump_packet_by_layer, dump_packet_recursive, dump_packet}
use open_sniffer.Osi.Select.{registered}
use open_sniffer.Osi.Search.{first_of}
use open_sniffer.Osi.Steps.{
  layer_found, layer_none, walk_over, walk_none, walk_some, walk_fault, walk_some_fault, dump_fault,
  dump_some,
}
use open_sniffer.Osi.Walk.{header_call, footer_call}
use open_sniffer.Dissectors.Wire.{packet_of}
use open_sniffer.Dissectors.Http.{Parsed}
use open_sniffer.Dissectors.Ethernet
use open_sniffer.Dissectors.Ethernet.Fields as EthernetFields
use open_sniffer.Dissectors.Ip
use open_sniffer.Dissectors.Ip.Fields as IpFields
use open_sniffer.Main.{dissectors, main_stack}
use open_sniffer.Main.Datagram.{
  Headers, AreBytes, frame, datagram, ip_bytes, segment, ethernet_lines, ip_lines, shown,
  whole_size, frame_handled, datagram_handled, decapsulate-datagram,
}
use open_sniffer.Main.Registered.{registered-main_stack}

one_list :
    (before : List Print) (x y : Print) (a b c d : List Print)
    → x ≡ y
    → ((((before ++ x ∷ []) ++ a) ++ b) ++ c) ++ d ≡ before ++ y ∷ ((a ++ (b ++ c)) ++ d)
one_list before x y a b c d same = rw same (simp append_assoc)

module _ (D : LinkedList Dissector) (inet_ntop6 : Bytes → Bytes) (parse : Bytes → Parsed) where
  abbrev stack : Stack D
  stack = main_stack D inet_ntop6 parse

  -- The search in the stack of `main`.
  pub first_of-dissectors :
      (p : Option Packet) (layer : ℕ)
      → first_of p layer (registered D stack) ≡ first_of p layer (dissectors inet_ntop6 parse)
  first_of-dissectors p layer = ap (first_of p layer) (registered-main_stack D inet_ntop6 parse)

  pub ethernet_first :
      (p : Packet)
      → Ethernet.handles (some p) ≡ ok true
      → first_of (some p) 1 (dissectors inet_ntop6 parse) ≡ ok (some Ethernet.dissector)
  ethernet_first p e = rw e refl

  pub ip_first :
      (p : Packet)
      → Ip.handles (some p) ≡ ok true
      → first_of (some p) 2 (dissectors inet_ntop6 parse) ≡ ok (some Ip.dissector)
  ip_first p e = rw e refl

  -- No dissector of `main` works on the layers between the transport and its content.
  none_between :
      (p : Packet) (v : World)
      → (dump_packet_by_layer D stack (some p) 4 v ≡ ok (none, v))
        × (dump_packet_by_layer D stack (some p) 5 v ≡ ok (none, v))
        × (dump_packet_by_layer D stack (some p) 6 v ≡ ok (none, v))
  none_between p v = (
    layer_none D stack (some p) 4 v (first_of-dissectors (some p) 4),
    layer_none D stack (some p) 5 v (first_of-dissectors (some p) 5),
    layer_none D stack (some p) 6 v (first_of-dissectors (some p) 6),
  )

  -- The walk from layer 4 on, from what happens on layer 7.
  pub application_walk :
      (p : Packet) (v u : World)
      → dump_packet_by_layer D stack (some p) 7 v ≡ ok (none, u)
      → dump_packet_recursive D 6 stack (some p) 4 v ≡ ok (tt, u)
  application_walk p v u e =
      let (e4, e5, e6) = none_between p v in
      walk_none D stack 5 (some p) 4 v v (omega arith) e4
      ∙ walk_none D stack 4 (some p) 5 v v (omega arith) e5
      ∙ walk_none D stack 3 (some p) 6 v v (omega arith) e6
      ∙ walk_none D stack 2 (some p) 7 v u (omega arith) e
      ∙ walk_over D stack 1 (some p) u

  -- The walk over the content of a datagram, from layer 3 on, prints `out` and gives back what it
  -- takes.
  abbrev pub Walks : ℕ → Bytes → (ℕ → ℕ) → List Print → Type 0
  Walks protocol content taken out =
      (block : ℕ) (v : World)
      → dump_packet_recursive D 7 stack (some (packet_of block protocol none content)) 3 v
        ≡ ok (tt, record v { next = taken v.next; output = v.output ++ out })

  module _ (h : Headers) (k : AreBytes h) (protocol : ℕ) (content : Bytes)
      (fits : length content + 34 < 2 ^ 64) where
    ethernet_layer :
        (slack : Bytes) (block : ℕ) (v : World)
        → dump_packet_by_layer D stack (some (frame h protocol content slack block)) 1 v
          ≡ ok (
            some (datagram h protocol content v.next),
            record v {
              live = (v.next + 1) ∷ v.next ∷ v.live;
              next = v.next + 1 + 1;
              output = v.output ++ ethernet_lines h protocol content;
            },
          )
    ethernet_layer slack block v =
        let supported = frame_handled h protocol content slack block in
        let p = frame h protocol content slack block in
        layer_found D stack (some p) 1 Ethernet.dissector _ v _ _
          (first_of-dissectors (some p) 1 ∙ ethernet_first p supported)
          (EthernetFields.decapsulate-frame h.d1 h.d2 h.d3 h.d4 h.d5 h.d6 h.e1 h.e2 h.e3 h.e4 h.e5
            h.e6 8 0 (ip_bytes h protocol content) slack block 0 none v (omega arith) (omega arith)
            (omega arith) supported)
          (EthernetFields.dump-frame h.d1 h.d2 h.d3 h.d4 h.d5 h.d6 h.e1 h.e2 h.e3 h.e4 h.e5 h.e6 8 0
            (ip_bytes h protocol content) slack block 0 none _ supported)

    ip_layer :
        (block : ℕ) (v : World)
        → dump_packet_by_layer D stack (some (datagram h protocol content block)) 2 v
          ≡ ok (
            some (segment h protocol content v.next),
            record v {
              live = (v.next + 1) ∷ v.next ∷ v.live;
              next = v.next + 1 + 1;
              output = v.output ++ ip_lines h protocol content;
            },
          )
    ip_layer block v =
        let supported = datagram_handled h protocol content block in
        let p = datagram h protocol content block in
        layer_found D stack (some p) 2 Ip.dissector _ v _ _
          (first_of-dissectors (some p) 2 ∙ ip_first p supported)
          (decapsulate-datagram h protocol content block v (omega arith))
          (IpFields.dump-ip_datagram 0x45 h.v1 h.v2 h.v3 h.v4 h.v5 h.v6 h.v7 h.v8 protocol h.k1 h.k2
            h.s1 h.s2 h.s3 h.s4 h.t1 h.t2 h.t3 h.t4 content block none _ k.checksum k.source
            k.destination supported)

    -- A fault on layer 3 is one of the whole dump.
    pub frame_fault :
        (f : Fault)
        → ((block : ℕ) (v : World)
            → dump_packet_by_layer D stack (some (segment h protocol content block)) 3 v ≡ fault f)
        → (slack : Bytes) (block : ℕ) (now : Arg) (w : World)
        → dump_packet D now stack (frame h protocol content slack block) w ≡ fault f
    frame_fault f e slack block now w =
        dump_fault D stack f now (frame h protocol content slack block)
          (datagram h protocol content w.next) w _ (ethernet_layer slack block _)
          (walk_some_fault D stack f 7 (some (datagram h protocol content w.next)) 2
            (segment h protocol content _) _ _ (omega arith) (ip_layer w.next _)
            (walk_fault D stack f 6 _ 3 _ (omega arith) (e _ _)))

    module _ (taken : ℕ → ℕ) (out : List Print) (walks : Walks protocol content taken out) where
      datagram_walk :
          (block : ℕ) (v : World)
          → dump_packet_recursive D 8 stack (some (datagram h protocol content block)) 2 v
            ≡ ok (
              tt,
              record v {
                next = taken (v.next + 1 + 1);
                output = (v.output ++ ip_lines h protocol content) ++ out;
              },
            )
      datagram_walk block v =
          walk_some D stack 7 (some (datagram h protocol content block)) 2
            (segment h protocol content v.next) v _ _ v.live (omega arith) (ip_layer block v)
            (walks v.next _) refl

      pub dump_packet-frame :
          (slack : Bytes) (block : ℕ) (now : Arg) (w : World)
          → dump_packet D now stack (frame h protocol content slack block) w
            ≡ ok (
              tt,
              record w {
                next = taken (w.next + 1 + 1 + 1 + 1);
                output = w.output ++ shown h protocol content now out;
              },
            )
      dump_packet-frame slack block now w =
          dump_some D stack now (frame h protocol content slack block)
            (datagram h protocol content w.next) w _ _ w.live (ethernet_layer slack block _)
            (datagram_walk w.next _) refl
          ∙ ap
              (λ calls. ok (tt, record w { next = taken (w.next + 1 + 1 + 1 + 1); output = calls }))
              (one_list w.output _ (header_call now (length content + 34))
                (ethernet_lines h protocol content) (ip_lines h protocol content) out
                (footer_call ∷ [])
                (ap (header_call now) (whole_size h protocol content slack block)))
