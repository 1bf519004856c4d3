-- ===== src/Osi/Select.antt =====
-- src/osi.c: the search for the dissector of a packet.
use mathlib.Core.List.{map-append}
use open_sniffer.Osi.Trace.{Applies, IsPassed}
use open_sniffer.Base.{
  All-map, All-of_map, ℕ, ◌≡◌, ap, ◌∙◌, inl, inr, true, false, Option, none, some, List, ◌∷◌, map,
  All, ◌==◌, ==_iff, Bool-cases, arith,
}
use open_sniffer.Machine.{Fault, ok}
use open_sniffer.Machine.Rules.{Gives, Gives-and_then, Safe}
use open_sniffer.LinkedList.{LinkedList}
use open_sniffer.LinkedList.Search.{IsFirst, find_from-IsFirst}
use open_sniffer.Osi.Packet.{Packet}
use open_sniffer.Osi.Dissector.{Dissector}
use open_sniffer.Osi.Contract.{IsValidPtr, IsLawful}
use open_sniffer.Osi.Stack.{Stack, find_dissector_by_packet, element_of, find_by_packet}

module _ (L : LinkedList Dissector) (stack : Stack L) where
  -- The dissectors of the stack.
  abbrev pub registered : List Dissector
  registered = map L.element (L.nodes stack.dissectors)

module _ (L : LinkedList Dissector) (F : Fault → Type 0) (stack : Stack L) where
  open L use {Node, element, nodes, find_node_if_lem}

  -- Every dissector of the stack is lawful.
  abbrev pub IsLawfulStack : Type 0
  IsLawfulStack = All (IsLawful F) (registered L stack)

  module _ (p : Option Packet) (layer : ℕ) where
    find_dissector_by_packet-Safe :
        (i : ℕ) (n : Node)
        → IsLawful F (element n)
        → IsValidPtr p
        → Safe F (find_dissector_by_packet L p layer i n)
    unfolding find_dissector_by_packet
    find_dissector_by_packet-Safe i n l valid = elim (Bool-cases ((element n).layer == layer)) [
      | inl e ↦ rw e (l.handles_safe p valid)
      | inr e ↦ rw e tt
    ]

    asked-Applies :
        (i : ℕ) (n : Node)
        → find_dissector_by_packet L p layer i n ≡ ok true
        → Applies p layer (element n)
    unfolding find_dissector_by_packet
    asked-Applies i n e = ground (arith, ==_iff (element n).layer layer)

    asked-IsPassed :
        (i : ℕ) (n : Node)
        → find_dissector_by_packet L p layer i n ≡ ok false
        → IsPassed p layer (element n)
    unfolding find_dissector_by_packet
    asked-IsPassed i n e = ground (arith, ==_iff (element n).layer layer)

    element_of-IsFirst :
        (n : Option Node)
        → IsFirst
            (λ m. Applies p layer (element m))
            (λ m. IsPassed p layer (element m))
            (nodes stack.dissectors)
            n
        → IsFirst
            (Applies p layer)
            (IsPassed p layer)
            (map element (nodes stack.dissectors))
            (element_of L n)
    unfolding element_of
    element_of-IsFirst none h = All-of_map (IsPassed p layer) element (nodes stack.dissectors) h
    element_of-IsFirst (some n) (before, after, e, k, t) = (
      map element before,
      map element after,
      ap (map element) e ∙ map-append element before (n ∷ after),
      All-of_map (IsPassed p layer) element before k,
      t,
    )

    -- In a stack of lawful dissectors the search for a valid packet or NULL has no fault outside `F`, and it
    -- finds the first registered dissector of the layer that handles the packet; it finds none only
    -- if every dissector is of another layer or does not handle it.
    pub find_by_packet-IsFirst :
        IsLawfulStack
        → IsValidPtr p
        → Gives F
            (IsFirst (Applies p layer) (IsPassed p layer) (registered L stack))
            (find_by_packet L stack p layer)
    unfolding find_by_packet
    find_by_packet-IsFirst lawful valid =
        rw (find_node_if_lem stack.dissectors (find_dissector_by_packet L p layer)) (
          Gives-and_then F
            (IsFirst (λ m. Applies p layer (element m)) (λ m. IsPassed p layer (element m))
              (nodes stack.dissectors))
            _ _ _
            (find_from-IsFirst F _ _ (λ n. IsLawful F (element n)) _ asked-Applies asked-IsPassed
              (λ i n l. find_dissector_by_packet-Safe i n l valid) 0 (nodes stack.dissectors)
              (All-map (IsLawful F) element (nodes stack.dissectors) lawful))
            element_of-IsFirst)
