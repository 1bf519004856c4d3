-- ===== src/Osi/Walk.antt =====
-- src/osi.c: the walk of a packet through a stack of lawful dissectors.
use mathlib.Core.List.{append-nil, append_assoc}
use open_sniffer.Base.{
  ℕ, zero, suc, ◌+◌, ◌≡◌, refl, sym, ap, ◌∙◌, ◌≤◌, inl, inr, Option, none, some, List, [], ◌∷◌,
  ◌++◌, arith, ltb, ltb→le, ltb→lt, Bool-cases,
}
use open_sniffer.Machine.{Fault, Arg, int, Print, World, M, ◌>>◌, ret, run}
use open_sniffer.Machine.Rules.{Prints, Ends, Ends-bind, Ends-mono}
use open_sniffer.LinkedList.{LinkedList}
use open_sniffer.Osi.Packet.{Packet, osi_layer_1, osi_layer_2, osi_layer_7, destroy_packet}
use open_sniffer.Osi.Dissector.{Dissector}
use open_sniffer.Osi.Contract.{IsValid, IsValidPtr, destroy_packet-blocks}
use open_sniffer.Osi.Stack.{
  osi_packet_header, osi_packet_footer, Stack, dump_packet_by_layer, dump_packet_recursive, layers,
  dump_packet,
}
use open_sniffer.Osi.Trace.{Trace, over, step, Dump}
use open_sniffer.Osi.Select.{registered, IsLawfulStack}
use open_sniffer.Osi.Layer.{Passes, dump_packet_by_layer-Passes}

-- The calls of `printf` that open and close a dump.
abbrev pub header_call : Arg → ℕ → Print
header_call now size = record { format = osi_packet_header; args = now ∷ int size ∷ [] }

abbrev pub footer_call : Print
footer_call = record { format = osi_packet_footer; args = [] }

-- What `osi_dump_packet` prints: the header, what the dissectors print of the packet by the
-- specification, and the footer.
pub record IsFramed (ds : List Dissector) (now : Arg) (p : Packet) (out : List Print) : Type 0 where
  pub shown : List Print
  pub out_is : out ≡ header_call now p.size ∷ (shown ++ footer_call ∷ [])
  pub dump : Dump ds p shown

module _ (L : LinkedList Dissector) (F : Fault → Type 0) (stack : Stack L)
    (lawful : IsLawfulStack L F stack) where
  -- The packets that are handed over are destroyed after what follows has printed.
  walk_then_destroy :
      (P Q : List Print → Type 0) (p : Option Packet) (layer : ℕ) (m : M (Unit {0}))
      (q : Option Packet) (w v : World)
      → (h : Passes (registered L stack) p layer w q v) → Ends F (λ _ u. Prints P v u) (m v)
      → ((rest : List Print) → P rest → Q (h.printed ++ rest))
      → Ends F (λ _ u. Prints Q w u) ((m >> destroy_packet q) v)
  unfolding ◌>>◌
  walk_then_destroy P Q p layer m q w v h e k =
      Ends-bind F (λ _ u. Prints P v u) (λ _ u. Prints Q w u) m (λ _. destroy_packet q) v e
        (λ _ u o. rw (destroy_packet-blocks q u w.live (o.same_live ∙ h.live_grows)) (record {
          same_live = refl;
          printed = h.printed ++ o.printed;
          output_is =
              o.output_is
              ∙ ap (λ t. t ++ o.printed) h.output_grows
              ∙ append_assoc w.output h.printed o.printed;
          as_specified = k o.printed o.as_specified;
        }))

  -- For every set `F` of faults and every stack whose dissectors are all lawful for `F`, that is, keep
  -- the contract of a dissector with no fault outside `F`: with a layer below 9 and enough rounds for the
  -- layers that are left, the walk of a valid packet or NULL either ends in a fault of `F`, or ends
  -- without one, gives back every block and prints what the specification says.
  pub dump_packet_recursive-Prints :
      (fuel : ℕ) (p : Option Packet) (layer : ℕ) (w : World)
      → layer ≤ osi_layer_7 + 1
      → osi_layer_7 + 2 ≤ fuel + layer
      → IsValidPtr p
      → Ends F
          (λ _ v. Prints (Trace (registered L stack) p layer) w v)
          (dump_packet_recursive L fuel stack p layer w)
  unfolding dump_packet_recursive run
  dump_packet_recursive-Prints zero p layer w b h valid = absurd (omega arith)
  dump_packet_recursive-Prints (suc fuel) p layer w b h valid =
      elim (Bool-cases (ltb osi_layer_7 layer)) [
        | inl e ↦ rw e (record {
          same_live = refl;
          printed = [];
          output_is = sym (append-nil w.output);
          as_specified = over (ltb→lt osi_layer_7 layer e) refl;
        })
        | inr e ↦
            let inside = ltb→le osi_layer_7 layer e in
            rw e (
              Ends-bind F (Passes (registered L stack) p layer w)
                (λ _ v. Prints (Trace (registered L stack) p layer) w v)
                (dump_packet_by_layer L stack p layer) _ w
                (dump_packet_by_layer-Passes L F stack lawful p layer w valid)
                (after inside (λ q v.
                  dump_packet_recursive-Prints fuel q (layer + 1) v (omega arith) (omega arith))))
      ]
    where
      ds : List Dissector
      ds = registered L stack

      after :
          layer ≤ osi_layer_7
          → ((q : Option Packet) (v : World)
              → IsValidPtr q
              → Ends F
                  (λ _ u. Prints (Trace ds q (layer + 1)) v u)
                  (dump_packet_recursive L fuel stack q (layer + 1) v))
          → (q : Option Packet) (v : World) → Passes ds p layer w q v
          → Ends F
              (λ _ u. Prints (Trace ds p layer) w u)
              ((elim q as (λ x. M (Unit {0})) [
                | none ↦ dump_packet_recursive L fuel stack p (layer + 1)
                | some q ↦
                    dump_packet_recursive L fuel stack (some q) (layer + 1)
                    >> destroy_packet (some q)
              ])
                v)
      after inside ih none v h =
          Ends-mono F _ _ (dump_packet_recursive L fuel stack p (layer + 1) v) (ih p v valid)
            (λ _ u o. record {
              same_live = o.same_live ∙ h.live_grows;
              printed = h.printed ++ o.printed;
              output_is =
                  o.output_is
                  ∙ ap (λ t. t ++ o.printed) h.output_grows
                  ∙ append_assoc w.output h.printed o.printed;
              as_specified = step inside h.works o.as_specified refl;
            })
      after inside ih (some q) v h =
          walk_then_destroy (Trace ds (some q) (layer + 1)) (Trace ds p layer) p layer
            (dump_packet_recursive L fuel stack (some q) (layer + 1)) (some q) w v h
            (ih (some q) v h.valid) (λ rest t. step inside h.works t refl)

  -- `osi_dump_packet` on a valid packet has no fault but those that the dissectors may have: it
  -- ends, gives back every block, and prints the header, then what the dissectors print by the
  -- specification (on each layer the first dissector that applies decapsulates and prints), and the
  -- footer last.
  pub dump_packet-IsFramed :
      (now : Arg) (p : Packet) (w : World)
      → IsValid p
      → Ends F
          (λ _ v. Prints (IsFramed (registered L stack) now p) w v)
          (dump_packet L now stack p w)
  unfolding dump_packet run
  dump_packet-IsFramed now p w valid =
      Ends-bind F (Passes ds (some p) osi_layer_1 opened) (λ _ v. Prints (IsFramed ds now p) w v)
        (dump_packet_by_layer L stack (some p) osi_layer_1) _ opened
        (dump_packet_by_layer-Passes L F stack lawful (some p) osi_layer_1 opened valid)
        (λ q v h.
          Ends-bind F (λ _ u. Prints (Dump ds p) opened u) (λ _ v. Prints (IsFramed ds now p) w v)
            (walk q) _ v (walked q v h)
            (λ _ u o. record {
              same_live = o.same_live;
              printed = header_call now p.size ∷ (o.printed ++ footer_call ∷ []);
              output_is = ap (λ t. t ++ footer_call ∷ []) o.output_is ∙ simp append_assoc;
              as_specified = record { shown = o.printed; out_is = refl; dump = o.as_specified };
            }))
    where
      ds : List Dissector
      ds = registered L stack

      opened : World
      opened = record w { output = w.output ++ header_call now p.size ∷ [] }

      walk : Option Packet → M (Unit {0})
      walk q = elim q [
        | some r ↦
            dump_packet_recursive L layers stack (some r) osi_layer_2 >> destroy_packet (some r)
        | none ↦ ret tt
      ]

      walked :
          (q : Option Packet) (v : World)
          → Passes ds (some p) osi_layer_1 opened q v
          → Ends F (λ _ u. Prints (Dump ds p) opened u) (walk q v)
      walked none v h = record {
        same_live = h.live_grows;
        printed = h.printed;
        output_is = h.output_grows;
        as_specified = record {
          handed = none;
          first = h.printed;
          rest = [];
          outer = h.works;
          inner = refl;
          together = sym (append-nil h.printed);
        };
      }
      walked (some q) v h =
          walk_then_destroy (Trace ds (some q) osi_layer_2) (Dump ds p) (some p) osi_layer_1
            (dump_packet_recursive L layers stack (some q) osi_layer_2) (some q) opened v h
            (dump_packet_recursive-Prints layers (some q) osi_layer_2 v (omega arith) (omega arith)
              h.valid)
            (λ rest t. record {
              handed = some q;
              first = h.printed;
              rest = rest;
              outer = h.works;
              inner = t;
              together = refl;
            })
