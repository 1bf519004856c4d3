-- ===== src/Osi/Steps.antt =====
-- src/osi.c: what a layer and the layers behind it come to, from what its dissector does.
use open_sniffer.Base.{
  ℕ, suc, ◌+◌, ◌≡◌, refl, ◌≤◌, ltb, false, arith, Option, none, some, List, [], ◌∷◌, ◌++◌,
}
use open_sniffer.Machine.{Fault, fault, Arg, ok, World, run}
use open_sniffer.LinkedList.{LinkedList}
use open_sniffer.Osi.Packet.{Packet, osi_layer_1, osi_layer_2, osi_layer_7}
use open_sniffer.Osi.Dissector.{Dissector}
use open_sniffer.Osi.Contract.{blocks, destroy_packet-blocks}
use open_sniffer.Osi.Stack.{
  Stack, apply_dissector, dump_packet_by_layer, dump_packet_recursive, layers, dump_packet,
}
use open_sniffer.Osi.Select.{registered}
use open_sniffer.Osi.Search.{first_of, dump_packet_by_layer-first_of}
use open_sniffer.Osi.Walk.{header_call, footer_call}

module _ (L : LinkedList Dissector) (stack : Stack L) where
  pub layer_found :
      (p : Option Packet) (layer : ℕ) (d : Dissector) (q : Option Packet) (w v u : World)
      → first_of p layer (registered L stack) ≡ ok (some d)
      → d.operations.decapsulate p w ≡ ok (q, v)
      → d.operations.dump p v ≡ ok (tt, u)
      → dump_packet_by_layer L stack p layer w ≡ ok (q, u)
  unfolding apply_dissector run
  layer_found p layer d q w v u found decapsulated dumped =
      rw (dump_packet_by_layer-first_of L stack p layer, found, decapsulated, dumped) refl

  pub layer_none :
      (p : Option Packet) (layer : ℕ) (w : World)
      → first_of p layer (registered L stack) ≡ ok none
      → dump_packet_by_layer L stack p layer w ≡ ok (none, w)
  unfolding apply_dissector run
  layer_none p layer w found = rw (dump_packet_by_layer-first_of L stack p layer, found) refl

  inside : (layer : ℕ) → layer ≤ osi_layer_7 → ltb osi_layer_7 layer ≡ false
  inside layer h = ground arith

  pub walk_over :
      (fuel : ℕ) (p : Option Packet) (w : World)
      → dump_packet_recursive L (suc fuel) stack p 8 w ≡ ok (tt, w)
  unfolding dump_packet_recursive run
  walk_over fuel p w = refl

  pub walk_none :
      (fuel : ℕ) (p : Option Packet) (layer : ℕ) (w v : World)
      → layer ≤ osi_layer_7
      → dump_packet_by_layer L stack p layer w ≡ ok (none, v)
      → dump_packet_recursive L (suc fuel) stack p layer w
        ≡ dump_packet_recursive L fuel stack p (layer + 1) v
  unfolding dump_packet_recursive run
  walk_none fuel p layer w v h e = rw (inside layer h, e) refl

  pub walk_some :
      (fuel : ℕ) (p : Option Packet) (layer : ℕ) (q : Packet) (w v u : World) (l : List ℕ)
      → layer ≤ osi_layer_7
      → dump_packet_by_layer L stack p layer w ≡ ok (some q, v)
      → dump_packet_recursive L fuel stack (some q) (layer + 1) v ≡ ok (tt, u)
      → u.live ≡ blocks (some q) ++ l
      → dump_packet_recursive L (suc fuel) stack p layer w ≡ ok (tt, record u { live = l })
  unfolding dump_packet_recursive run
  walk_some fuel p layer q w v u l h e rest owned =
      rw (inside layer h, e, rest) (destroy_packet-blocks (some q) u l owned)

  pub dump_some :
      (now : Arg) (p q : Packet) (w v u : World) (l : List ℕ)
      → dump_packet_by_layer L stack
          (some p)
          osi_layer_1
          (record w { output = w.output ++ header_call now p.size ∷ [] })
        ≡ ok (some q, v)
      → dump_packet_recursive L layers stack (some q) osi_layer_2 v ≡ ok (tt, u)
      → u.live ≡ blocks (some q) ++ l
      → dump_packet L now stack p w
        ≡ ok (tt, record u { live = l; output = u.output ++ footer_call ∷ [] })
  unfolding dump_packet run
  dump_some now p q w v u l e rest owned =
      rw (e, rest, destroy_packet-blocks (some q) u l owned) refl

  -- A fault of a dump on a layer is one of the walk, and of the whole dump.
  pub layer_fault :
      (f : Fault) (p : Option Packet) (layer : ℕ) (d : Dissector) (q : Option Packet) (w v : World)
      → first_of p layer (registered L stack) ≡ ok (some d)
      → d.operations.decapsulate p w ≡ ok (q, v)
      → d.operations.dump p v ≡ fault f
      → dump_packet_by_layer L stack p layer w ≡ fault f
  unfolding apply_dissector run
  layer_fault f p layer d q w v found decapsulated dumped =
      rw (dump_packet_by_layer-first_of L stack p layer, found, decapsulated, dumped) refl

  pub search_fault :
      (f : Fault) (p : Option Packet) (layer : ℕ) (w : World)
      → first_of p layer (registered L stack) ≡ fault f
      → dump_packet_by_layer L stack p layer w ≡ fault f
  unfolding run
  search_fault f p layer w found = rw (dump_packet_by_layer-first_of L stack p layer, found) refl

  -- With a layer after the packet that was handed over.
  pub walk_some_fault :
      (f : Fault) (fuel : ℕ) (p : Option Packet) (layer : ℕ) (q : Packet) (w v : World)
      → layer ≤ osi_layer_7
      → dump_packet_by_layer L stack p layer w ≡ ok (some q, v)
      → dump_packet_recursive L fuel stack (some q) (layer + 1) v ≡ fault f
      → dump_packet_recursive L (suc fuel) stack p layer w ≡ fault f
  unfolding dump_packet_recursive run
  walk_some_fault f fuel p layer q w v h e rest = rw (inside layer h, e, rest) refl

  pub walk_fault :
      (f : Fault) (fuel : ℕ) (p : Option Packet) (layer : ℕ) (w : World)
      → layer ≤ osi_layer_7
      → dump_packet_by_layer L stack p layer w ≡ fault f
      → dump_packet_recursive L (suc fuel) stack p layer w ≡ fault f
  unfolding dump_packet_recursive run
  walk_fault f fuel p layer w h e = rw (inside layer h, e) refl

  pub dump_fault :
      (f : Fault) (now : Arg) (p q : Packet) (w v : World)
      → dump_packet_by_layer L stack
          (some p)
          osi_layer_1
          (record w { output = w.output ++ header_call now p.size ∷ [] })
        ≡ ok (some q, v)
      → dump_packet_recursive L layers stack (some q) osi_layer_2 v ≡ fault f
      → dump_packet L now stack p w ≡ fault f
  unfolding dump_packet run
  dump_fault f now p q w v e rest = rw (e, rest) refl
