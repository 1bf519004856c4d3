-- ===== src/Osi/Layer.antt =====
-- src/osi.c: the work of lawful dissectors on one layer.
use mathlib.Core.List.{append-nil}
use open_sniffer.Base.{
  ℕ, ◌≡◌, refl, ap, sym, ◌∙◌, Option, none, some, List, [], ◌∷◌, ◌++◌, All, subst,
}
use open_sniffer.Machine.{Fault, ok, Print, World, lift, run}
use open_sniffer.Machine.Rules.{Ends, Ends-eq, OnlyPrints, Ends-bind, Ends-lift}
use open_sniffer.LinkedList.{LinkedList}
use open_sniffer.LinkedList.Search.{IsFirst}
use open_sniffer.Osi.Packet.{Packet}
use open_sniffer.Osi.Dissector.{Dissector}
use open_sniffer.Osi.Contract.{IsValidPtr, blocks, HandsOver, IsLawful}
use open_sniffer.Osi.Stack.{Stack, find_by_packet, apply_dissector, dump_packet_by_layer}
use open_sniffer.Osi.Trace.{Applies, IsPassed, Layer}
use open_sniffer.Osi.Select.{registered, IsLawfulStack, find_by_packet-IsFirst}

-- What one layer leaves: a packet to go on with or NULL, its blocks, and the output of the layer's
-- work.
pub record Passes (ds : List Dissector) (p : Option Packet) (layer : ℕ) (w : World)
    (q : Option Packet) (v : World) : Type 0 where
  pub valid : IsValidPtr q
  pub live_grows : v.live ≡ blocks q ++ w.live
  pub printed : List Print
  pub output_grows : v.output ≡ w.output ++ printed
  pub works : Layer ds p layer q printed

All-found :
    {A : Type 0} (P : A → Type 0) (before after : List A) (x : A)
    → All P (before ++ x ∷ after)
    → P x
All-found P [] after x a = a.0
All-found P (y ∷ before) after x a = All-found P before after x a.1

-- Decapsulation, then dump.
apply_dissector-Passes :
    (F : Fault → Type 0) (ds : List Dissector) (layer : ℕ) (d : Option Dissector)
    (p : Option Packet) (w : World)
    → All (IsLawful F) ds
    → IsFirst (Applies p layer) (IsPassed p layer) ds d
    → IsValidPtr p
    → Ends F (Passes ds p layer w) (apply_dissector d p w)
unfolding apply_dissector run
apply_dissector-Passes F ds layer none p w lawful first valid = record {
  valid = tt;
  live_grows = refl;
  printed = [];
  output_grows = sym (append-nil w.output);
  works = record { found = none; is_first = first; works = (refl, refl) };
}
apply_dissector-Passes F ds layer (some d) p w lawful (before, after, e, others, applies) valid =
    let l = All-found (IsLawful F) before after d (subst (All (IsLawful F)) e lawful) in
    Ends-bind F (λ q v. HandsOver w q v × (d.operations.decapsulate p w ≡ ok (q, v)))
      (Passes ds p layer w) (d.operations.decapsulate p) _ w
      (Ends-eq F _ (d.operations.decapsulate p w) (l.decapsulate_hands_over p w valid))
      (λ q v (h, decapsulated).
        Ends-bind F (λ _ u. OnlyPrints v u × (d.operations.dump p v ≡ ok (tt, u)))
          (Passes ds p layer w) (d.operations.dump p) _ v
          (Ends-eq F _ (d.operations.dump p v) ((l.dump_quiet p valid).ends v))
          (λ _ u (o, dumped). record {
            valid = h.valid;
            live_grows = o.same_live ∙ h.live_grows;
            printed = o.printed;
            output_grows = o.output_grows ∙ ap (λ t. t ++ o.printed) h.same_output;
            works = record {
              found = some d;
              is_first = (before, after, e, others, applies);
              works = ((w, v, decapsulated), (v, u, dumped, o.output_grows));
            };
          }))

module _ (L : LinkedList Dissector) (F : Fault → Type 0) (stack : Stack L)
    (lawful : IsLawfulStack L F stack) where
  pub dump_packet_by_layer-Passes :
      (p : Option Packet) (layer : ℕ) (w : World)
      → IsValidPtr p
      → Ends F (Passes (registered L stack) p layer w) (dump_packet_by_layer L stack p layer w)
  unfolding dump_packet_by_layer
  dump_packet_by_layer-Passes p layer w valid =
      let First = IsFirst (Applies p layer) (IsPassed p layer) (registered L stack) in
      Ends-bind F (λ d v. First d × (v ≡ w)) (Passes (registered L stack) p layer w)
        (lift (find_by_packet L stack p layer)) _ w
        (Ends-lift F First _ _ w (find_by_packet-IsFirst L F stack p layer lawful valid)
          (λ d l. (l, refl)))
        (λ d v k.
          subst (λ u. Ends F (Passes (registered L stack) p layer w) (apply_dissector d p u))
            (sym k.1) (apply_dissector-Passes F (registered L stack) layer d p w lawful k.0 valid))
