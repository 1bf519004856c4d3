-- ===== src/Osi/Reference.antt =====
-- src/osi.c: the dump of a packet beside a reference, which has a list of dissectors for the stack and
-- a list of layers for the rounds.
use open_sniffer.Base.{
  ℕ, zero, suc, ◌+◌, ◌≡◌, refl, ◌∙◌, ◌==◌, if◌then◌else◌, Bool, true, false, Bool-cases, inl, inr,
  Option, none, some, List, [], ◌∷◌, ltb, arith,
}
use open_sniffer.Machine.{
  Arg, int, Result, ok, fault, and_then, M, ◌>>=◌, ◌>>◌, ret, lift, printf, run,
}
use open_sniffer.LinkedList.{LinkedList}
use open_sniffer.Osi.Packet.{Packet, osi_layer_1, osi_layer_2, osi_layer_7, destroy_packet}
use open_sniffer.Osi.Dissector.{Dissector}
use open_sniffer.Osi.Stack.{
  Stack, apply_dissector, osi_packet_header, osi_packet_footer, dump_packet_by_layer,
  dump_packet_recursive, dump_packet,
}
use open_sniffer.Osi.Select.{registered}
use open_sniffer.Osi.Search.{first_of, dump_packet_by_layer-first_of}

-- The dissectors of a layer, in the order of their registration.
abbrev pub on_layer : ℕ → List Dissector → List Dissector
on_layer layer [] = []
on_layer layer (d ∷ ds) =
    let rest = on_layer layer ds in if d.layer == layer then d ∷ rest else rest

-- The first of the dissectors that handles the packet decapsulates it and then prints it; what it
-- decapsulated is handed on. No other dissector does anything.
abbrev pub work : List Dissector → Packet → M (Option Packet)
work [] p = ret none
work (d ∷ ds) p =
    let behind = work ds p in
    lift (d.operations.handles (some p)) >>= λ handled. elim handled as (λ _. M (Option Packet)) [
      | true ↦ d.operations.decapsulate (some p) >>= λ q. d.operations.dump (some p) >> ret q
      | false ↦ behind
    ]

-- The layers in turn: a layer on which no packet is handed on leaves the packet to the next one, and
-- a packet that is handed on is destroyed after the layers behind.
abbrev pub through : List Dissector → List ℕ → Packet → M (Unit {0})
through ds [] p = ret tt
through ds (layer ∷ behind) p = work (on_layer layer ds) p >>= λ handed.
    elim handed as (λ _. M (Unit {0})) [
      | some q ↦ through ds behind q >> destroy_packet (some q)
      | none ↦ through ds behind p
    ]

-- Between the header and the footer, only a packet that is handed on by layer 1 goes through the
-- layers 2 to 7.
abbrev pub reference : List Dissector → Arg → Packet → M (Unit {0})
reference ds now p = do
  printf osi_packet_header (now ∷ int p.size ∷ [])
  handed ← work (on_layer 1 ds) p
  elim handed as (λ _. M (Unit {0})) [
    | some q ↦ through ds (2 ∷ 3 ∷ 4 ∷ 5 ∷ 6 ∷ 7 ∷ []) q >> destroy_packet (some q)
    | none ↦ ret tt
  ]
  printf osi_packet_footer []

-- As many layers as the first argument says, from the second on.
abbrev layers_from : ℕ → ℕ → List ℕ
layers_from zero layer = []
layers_from (suc n) layer = layer ∷ layers_from n (layer + 1)

picked :
    (r : Result Bool) (d : Dissector) (rest : Result (Option Dissector))
    (behind : M (Option Packet)) (p : Packet)
    → (lift rest >>= λ x. apply_dissector x (some p)) ≡ behind
    → (lift (
          and_then r (λ hit. elim hit as (λ _. Result (Option Dissector)) [
            | true ↦ ok (some d)
            | false ↦ rest
          ]))
        >>= λ x. apply_dissector x (some p))
      ≡ (lift r >>= λ handled. elim handled as (λ _. M (Option Packet)) [
        | true ↦ d.operations.decapsulate (some p) >>= λ q. d.operations.dump (some p) >> ret q
        | false ↦ behind
      ])
unfolding apply_dissector run
picked (ok true) d rest behind p e = refl
picked (ok false) d rest behind p e = e
picked (fault f) d rest behind p e = refl

-- The dissectors of the other layers are passed over.
work-on_layer :
    (ds : List Dissector) (layer : ℕ) (p : Packet)
    → (lift (first_of (some p) layer ds) >>= λ x. apply_dissector x (some p))
      ≡ work (on_layer layer ds) p
unfolding apply_dissector run
work-on_layer [] layer p = refl
work-on_layer (d ∷ ds) layer p = elim (Bool-cases (d.layer == layer)) [
  | inl e ↦ rw e (
      picked (d.operations.handles (some p)) d (first_of (some p) layer ds)
        (work (on_layer layer ds) p) p (work-on_layer ds layer p))
  | inr e ↦ rw e (work-on_layer ds layer p)
]

module _ (L : LinkedList Dissector) (stack : Stack L) where
  layer_lem :
      (p : Packet) (layer : ℕ)
      → dump_packet_by_layer L stack (some p) layer ≡ work (on_layer layer (registered L stack)) p
  layer_lem p layer =
      dump_packet_by_layer-first_of L stack (some p) layer
      ∙ work-on_layer (registered L stack) layer p

  both_ways :
      (m : M (Option Packet)) (f g : Packet → M (Unit {0})) (a b : M (Unit {0}))
      → ((q : Packet) → f q ≡ g q)
      → a ≡ b
      → (m >>= λ x. elim x as (λ _. M (Unit {0})) [
        | some q ↦ f q >> destroy_packet (some q)
        | none ↦ a
      ])
        ≡ (m >>= λ x. elim x as (λ _. M (Unit {0})) [
          | some q ↦ g q >> destroy_packet (some q)
          | none ↦ b
        ])
  both_ways m f g a b h e = λ t. m >>= λ x. elim x as (λ _. M (Unit {0})) [
    | some q ↦ h q t >> destroy_packet (some q)
    | none ↦ e t
  ]

  walk_lem :
      (n : ℕ) (p : Packet) (layer : ℕ)
      → layer + n ≡ osi_layer_7 + 1
      → dump_packet_recursive L (suc n) stack (some p) layer
        ≡ through (registered L stack) (layers_from n layer) p
  unfolding dump_packet_recursive
  walk_lem zero p layer h = let over : ltb osi_layer_7 layer ≡ true = ground arith in rw over refl
  walk_lem (suc n) p layer h =
      let inside : ltb osi_layer_7 layer ≡ false = ground arith in
      rw (inside, layer_lem p layer)
        (both_ways (work (on_layer layer (registered L stack)) p) _ _ _ _
          (λ q. walk_lem n q (layer + 1) (omega arith)) (walk_lem n p (layer + 1) (omega arith)))

  -- For every list library that keeps its laws and every stack, whatever its dissectors do: the dump
  -- of a packet gives the same output, the same live blocks and the same faults as the reference over
  -- the list of the registered dissectors. There, between the header and the footer, the first
  -- dissector of a layer that handles the packet decapsulates and then prints it, only a packet that
  -- layer 1 hands on goes through the layers 2 to 7 in turn, and a packet that is handed on is
  -- destroyed after the layers behind it.
  pub dump_packet-reference :
      (now : Arg) (p : Packet) → dump_packet L now stack p ≡ reference (registered L stack) now p
  unfolding dump_packet dump_packet_recursive
  dump_packet-reference now p = λ t. do
    printf osi_packet_header (now ∷ int p.size ∷ [])
    handed ← layer_lem p osi_layer_1 t
    elim handed as (λ _. M (Unit {0})) [
      | some q ↦ walk_lem 6 q osi_layer_2 (omega arith) t >> destroy_packet (some q)
      | none ↦ ret tt
    ]
    printf osi_packet_footer []
