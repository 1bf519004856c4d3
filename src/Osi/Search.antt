-- ===== src/Osi/Search.antt =====
-- src/osi.c: the search for a dissector, and the work on a layer, by the list of the registered
-- dissectors alone.
use open_sniffer.Base.{
  ℕ, ◌+◌, ◌≡◌, refl, ap, ◌∙◌, Bool, true, false, Option, none, some, List, [], ◌∷◌, map, ◌==◌,
  if◌then◌else◌,
}
use open_sniffer.Machine.{Result, ok, fault, and_then, ◌>>=◌, lift}
use open_sniffer.LinkedList.{LinkedList, find_from}
use open_sniffer.Osi.Packet.{Packet}
use open_sniffer.Osi.Dissector.{Dissector}
use open_sniffer.Osi.Stack.{
  Stack, find_dissector_by_packet, element_of, find_by_packet, apply_dissector,
  dump_packet_by_layer,
}
use open_sniffer.Osi.Select.{registered}

-- Whether the dissector takes the packet on the layer.
abbrev pub takes : Option Packet → ℕ → Dissector → Result Bool
takes p layer d = if d.layer == layer then d.operations.handles p else ok false

-- The first of the dissectors that takes the packet on the layer.
abbrev pub first_of : Option Packet → ℕ → List Dissector → Result (Option Dissector)
first_of p layer [] = ok none
first_of p layer (d ∷ ds) =
    let rest = first_of p layer ds in
    and_then (takes p layer d) (λ hit. elim hit [ true ↦ ok (some d) | false ↦ rest ])

module _ (L : LinkedList Dissector) (stack : Stack L) (p : Option Packet) (layer : ℕ) where
  open L use {Node, element, nodes, find_node_if_lem}

  hit_or_rest :
      (r : Result Bool) (n : Node) (here : Result (Option Node)) (there : Result (Option Dissector))
      → and_then here (λ m. ok (element_of L m)) ≡ there
      → and_then
          (and_then r
            (λ hit. elim hit as (λ _. Result (Option Node)) [ true ↦ ok (some n) | false ↦ here ]))
          (λ m. ok (element_of L m))
        ≡ and_then r (λ hit. elim hit as (λ _. Result (Option Dissector)) [
          | true ↦ ok (some (element n))
          | false ↦ there
        ])
  unfolding element_of
  hit_or_rest (ok true) n here there e = refl
  hit_or_rest (ok false) n here there e = e
  hit_or_rest (fault f) n here there e = refl

  found_of :
      (i : ℕ) (ns : List Node)
      → and_then (find_from i ns (find_dissector_by_packet L p layer)) (λ m. ok (element_of L m))
        ≡ first_of p layer (map element ns)
  unfolding element_of find_dissector_by_packet
  found_of i [] = refl
  found_of i (n ∷ ns) =
      hit_or_rest (takes p layer (element n)) n
        (find_from (i + 1) ns (find_dissector_by_packet L p layer)) _ (found_of (i + 1) ns)

  -- The search through the nodes is that through the registered dissectors.
  pub find_by_packet-first_of :
      find_by_packet L stack p layer ≡ first_of p layer (registered L stack)
  unfolding find_by_packet
  find_by_packet-first_of =
      ap (λ r. and_then r (λ m. ok (element_of L m)))
        (find_node_if_lem stack.dissectors (find_dissector_by_packet L p layer))
      ∙ found_of 0 (nodes stack.dissectors)

  -- What happens on a layer, by the registered dissectors.
  pub dump_packet_by_layer-first_of :
      dump_packet_by_layer L stack p layer
      ≡ (lift (first_of p layer (registered L stack)) >>= λ d. apply_dissector d p)
  unfolding dump_packet_by_layer
  dump_packet_by_layer-first_of =
      ap (λ r. lift r >>= λ d. apply_dissector d p) find_by_packet-first_of
