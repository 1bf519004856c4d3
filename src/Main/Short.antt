-- ===== src/Main/Short.antt =====
-- src/main.c, src/osi.c and src/dissectors: a datagram that ends before its addresses.
use open_sniffer.Base.{
  ℕ, ◌+◌, ◌*◌, ◌/◌, ◌%◌, ◌≡◌, ◌≤◌, ◌⊎◌, refl, ◌∙◌, some, none, ◌∷◌, ◌++◌, Bytes, length, arith,
}
use open_sniffer.Machine.{ok, fault, out_of_bounds, Arg, World}
use open_sniffer.LinkedList.{LinkedList}
use open_sniffer.Osi.Packet.{Packet}
use open_sniffer.Osi.Dissector.{Dissector}
use open_sniffer.Osi.Stack.{Stack, dump_packet_by_layer, dump_packet}
use open_sniffer.Osi.Steps.{layer_found, layer_fault, walk_fault, dump_fault}
use open_sniffer.Dissectors.Wire.{IsByte}
use open_sniffer.Dissectors.Http.{Parsed}
use open_sniffer.Dissectors.Ethernet
use open_sniffer.Dissectors.Ethernet.Fields as EthernetFields
use open_sniffer.Dissectors.Ip
use open_sniffer.Dissectors.Ip.Fields as IpFields
use open_sniffer.Main.{main_stack}
use open_sniffer.Main.Carried.{first_of-dissectors, ethernet_first, ip_first}

module _ (D : LinkedList Dissector) (inet_ntop6 : Bytes → Bytes) (parse : Bytes → Parsed) where
  abbrev stack : Stack D
  stack = main_stack D inet_ntop6 parse

  module _ (d1 d2 d3 d4 d5 d6 e1 e2 e3 e4 e5 e6 v0 v1 v2 v3 v4 v5 v6 v7 v8 v9 k1 k2 : ℕ)
      (rest : Bytes) where
    abbrev bytes : Bytes
    bytes = v0 ∷ v1 ∷ v2 ∷ v3 ∷ v4 ∷ v5 ∷ v6 ∷ v7 ∷ v8 ∷ v9 ∷ k1 ∷ k2 ∷ rest

    -- An Ethernet frame of type 0x0800 with these bytes.
    abbrev pub short_frame : Bytes → ℕ → Packet
    short_frame slack block =
        EthernetFields.frame d1 d2 d3 d4 d5 d6 e1 e2 e3 e4 e5 e6 8 0 bytes slack block 0 none

    abbrev stub : ℕ → Packet
    stub block = IpFields.ip_datagram v0 v1 v2 v3 v4 v5 v6 v7 v8 v9 (k1 ∷ k2 ∷ rest) block none

    module _ (short : length rest ≤ 3) where
      outer :
          (slack : Bytes) (block : ℕ) (w : World)
          → dump_packet_by_layer D stack (some (short_frame slack block)) 1 w
            ≡ ok (
              some (stub w.next),
              record w {
                live = (w.next + 1) ∷ w.next ∷ w.live;
                next = w.next + 1 + 1;
                output =
                    w.output
                    ++ EthernetFields.ethernet_lines d1 d2 d3 d4 d5 d6 e1 e2 e3 e4 e5 e6 8 0 bytes
                        slack;
              },
            )
      outer slack block w =
          let p = short_frame slack block in
          let supported =
            (EthernetFields.handles-frame d1 d2 d3 d4 d5 d6 e1 e2 e3 e4 e5 e6 8 0 bytes slack block
                0 none (omega arith) (omega arith)).1
              (omega arith, omega arith) in
          layer_found D stack (some p) 1 Ethernet.dissector _ w _ _
            (first_of-dissectors D inet_ntop6 parse (some p) 1
              ∙ ethernet_first D inet_ntop6 parse p supported)
            (EthernetFields.decapsulate-frame d1 d2 d3 d4 d5 d6 e1 e2 e3 e4 e5 e6 8 0 bytes slack
              block 0 none w (omega arith) (omega arith) (omega arith) supported)
            (EthernetFields.dump-frame d1 d2 d3 d4 d5 d6 e1 e2 e3 e4 e5 e6 8 0 bytes slack block 0
              none _ supported)

      module _ (byte : IsByte v0) (inside : v0 % 16 * 4 ≤ length rest + 12)
          (version : (v0 / 16 ≡ 4) ⊎ (v0 / 16 ≡ 6)) where
        inner_fault :
            (block : ℕ) (w : World)
            → dump_packet_by_layer D stack (some (stub block)) 2 w ≡ fault out_of_bounds
        inner_fault block w =
            let supported =
              (IpFields.handles-ip_datagram v0 v1 v2 v3 v4 v5 v6 v7 v8 v9 (k1 ∷ k2 ∷ rest) block
                  none byte).1
                (omega arith, version) in
            let (content, decapsulated, _) =
              IpFields.decapsulate-ip_datagram v0 v1 v2 v3 v4 v5 v6 v7 v8 v9 (k1 ∷ k2 ∷ rest) block
                none w byte (omega arith) supported in
            layer_fault D stack out_of_bounds (some (stub block)) 2 Ip.dissector _ w _
              (first_of-dissectors D inet_ntop6 parse (some (stub block)) 2
                ∙ ip_first D inet_ntop6 parse (stub block) supported)
              decapsulated
              (IpFields.dump-short (stub block) (record { addr = block + 1; bytes = bytes }) _ refl
                (omega arith) supported)

    -- The dump of an Ethernet frame of type 0x0800 with twelve to fifteen bytes of content, by the stack
    -- that `main` sets up, stops at an access outside an array: the content is decapsulated as a
    -- datagram, and its source address is read behind its end. The content begins like one of version
    -- 4 or 6, with a byte whose low half, the header's length in words, fits the content.
    pub dump_packet-short_frame :
        (slack : Bytes) (block : ℕ) (now : Arg) (w : World)
        → length rest ≤ 3
        → IsByte v0
        → v0 % 16 * 4 ≤ length rest + 12
        → (v0 / 16 ≡ 4) ⊎ (v0 / 16 ≡ 6)
        → dump_packet D now (main_stack D inet_ntop6 parse) (short_frame slack block) w
          ≡ fault out_of_bounds
    dump_packet-short_frame slack block now w short byte inside version =
        dump_fault D stack out_of_bounds now (short_frame slack block) (stub w.next) w _
          (outer short slack block _)
          (walk_fault D stack out_of_bounds 7 (some (stub w.next)) 2 _ (omega arith)
            (inner_fault short byte inside version w.next _))
