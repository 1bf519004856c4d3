-- ===== src/Osi/Stack.antt =====
-- src/osi.c: the stack of dissectors, and the walk of a packet through the layers.
use text.Mathlib.Text.{◌==◌ as str_eq}
use open_sniffer.Base.{
  ℕ, zero, suc, ◌+◌, String, Bool, false, Option, none, some, [], ◌∷◌, ltb, ◌==◌, if◌then◌else◌,
}
use open_sniffer.Machine.{
  out_of_fuel, Result, ok, fault, Arg, int, M, and_then, ◌>>=◌, ◌>>◌, ret, lift, printf,
}
use open_sniffer.Osi.Packet.{Packet, osi_layer_1, osi_layer_2, osi_layer_7, destroy_packet}
use open_sniffer.Osi.Dissector.{Dissector}
use open_sniffer.LinkedList.{LinkedList}

-- `OSI_PACKET_HEADER` and `OSI_PACKET_FOOTER`, in bold.
abbrev pub osi_packet_header : String
osi_packet_header =
    "\u{1b}[1m-------------------------------------------------------\n----------------  New packet received  ----------------\n-------------------------------------------------------\n Received : %s Packet size : %zu bytes\n-------------------------------------------------------\n-------------------------------------------------------\n\u{1b}[21m"

abbrev pub osi_packet_footer : String
osi_packet_footer =
    "\u{1b}[1m-------------------------------------------------------\n\n\n\u{1b}[21m"

-- The body of `if (dissector)` in `osi_dump_packet_by_layer`.
unfoldable pub apply_dissector : Option Dissector → Option Packet → M (Option Packet)
apply_dissector none packet = ret none
apply_dissector (some dissector) packet = do
  p ← dissector.operations.decapsulate packet
  dissector.operations.dump packet
  ret p

-- The rounds that the layers 1 to 7 and the call past them can take.
abbrev pub layers : ℕ
layers = 8

module _ (L : LinkedList Dissector) where
  open L use {Chain, Node, element, zeroed, clear, push_back, find_node_if}

  -- `osi_stack_t`
  pub record Stack : Type 0 where
    pub dissectors : Chain
    pub nb_dissectors : ℕ

  -- `find_dissector_by_packet`. The first test, `dissector`, holds: no NULL is registered.
  unfoldable pub find_dissector_by_packet : Option Packet → ℕ → ℕ → Node → Result Bool
  find_dissector_by_packet packet layer index node =
      if (element node).layer == layer then (element node).operations.handles packet else ok false

  -- `find_dissector_by_name`
  unfoldable pub find_dissector_by_name : String → ℕ → Node → Result Bool
  find_dissector_by_name name index node = ok (str_eq (element node).name name)

  -- `osi_stack_new`: the fields that the literal leaves out are zero.
  unfoldable pub stack_new : Stack
  stack_new = record { dissectors = zeroed; nb_dissectors = 0 }

  -- `osi_stack_clear`
  unfoldable pub stack_clear : Stack → Stack
  stack_clear stack = record stack { dissectors = clear stack.dissectors }

  -- `osi_register_dissector`
  unfoldable pub register_dissector : Stack → Dissector → Stack
  register_dissector stack dissector = record stack {
    dissectors = push_back stack.dissectors dissector;
  }

  -- `node ? node->element : NULL`
  unfoldable pub element_of : Option Node → Option Dissector
  element_of none = none
  element_of (some node) = some (element node)

  -- `osi_find_dissector_by_packet`
  unfoldable pub find_by_packet : Stack → Option Packet → ℕ → Result (Option Dissector)
  unfolding element_of find_dissector_by_packet
  find_by_packet stack packet layer =
      and_then (find_node_if stack.dissectors (find_dissector_by_packet packet layer))
        (λ node. ok (element_of node))

  -- `osi_find_dissector_by_name`
  unfoldable pub find_by_name : Stack → String → Result (Option Dissector)
  unfolding element_of find_dissector_by_name
  find_by_name stack name =
      and_then (find_node_if stack.dissectors (find_dissector_by_name name))
        (λ node. ok (element_of node))

  -- `osi_dump_packet_by_layer`
  unfoldable pub dump_packet_by_layer : Stack → Option Packet → ℕ → M (Option Packet)
  dump_packet_by_layer stack packet layer = do
    dissector ← lift (find_by_packet stack packet layer)
    apply_dissector dissector packet

  -- `osi_dump_packet_recursive`: each call raises the layer, and the first argument bounds how
  -- many calls there may be.
  unfoldable pub dump_packet_recursive : ℕ → Stack → Option Packet → ℕ → M (Unit {0})
  dump_packet_recursive zero stack packet layer = λ _. fault out_of_fuel
  dump_packet_recursive (suc fuel) stack packet layer = if ltb osi_layer_7 layer then ret tt else do
    p ← dump_packet_by_layer stack packet layer
    elim p [
      | some q ↦ dump_packet_recursive fuel stack (some q) (layer + 1) >> destroy_packet (some q)
      | none ↦ dump_packet_recursive fuel stack packet (layer + 1)
    ]

  -- `osi_dump_packet`; `now` is what `get_current_time` returns.
  unfoldable pub dump_packet : Arg → Stack → Packet → M (Unit {0})
  dump_packet now stack packet = do
    printf osi_packet_header (now ∷ int packet.size ∷ [])
    p ← dump_packet_by_layer stack (some packet) osi_layer_1
    elim p [
      | some q ↦ dump_packet_recursive layers stack (some q) osi_layer_2 >> destroy_packet (some q)
      | none ↦ ret tt
    ]
    printf osi_packet_footer []
