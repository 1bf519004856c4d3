-- ===== src/Osi/Trace.antt =====
-- src/osi.c, as a specification: which dissectors a packet meets, and what they print. Blocks and
-- rounds are forgotten.
use open_sniffer.Base.{
  ℕ, ◌+◌, ◌≡◌, ◌≢◌, ◌⊎◌, ◌≤◌, ◌<◌, true, false, Option, none, some, List, [], ◌++◌,
}
use open_sniffer.Machine.{ok, World, Print}
use open_sniffer.LinkedList.Search.{IsFirst}
use open_sniffer.Osi.Packet.{Packet, osi_layer_1, osi_layer_2, osi_layer_7}
use open_sniffer.Osi.Dissector.{Dissector}

-- The dissector works on the layer and handles the packet.
abbrev pub Applies : Option Packet → ℕ → Dissector → Type 0
Applies p layer d = (d.layer ≡ layer) × (d.operations.handles p ≡ ok true)

-- The dissector works on another layer, or does not handle the packet.
abbrev pub IsPassed : Option Packet → ℕ → Dissector → Type 0
IsPassed p layer d = (d.layer ≢ layer) ⊎ (d.operations.handles p ≡ ok false)

-- In some world the dissector hands over this packet, or NULL.
abbrev pub Decapsulates : Dissector → Option Packet → Option Packet → Type 0
Decapsulates d p q = (w : World) × (v : World) × (d.operations.decapsulate p w ≡ ok (q, v))

-- In some world the dissector prints this.
abbrev pub Shows : Dissector → Option Packet → List Print → Type 0
Shows d p out =
    (w : World) × (v : World) × (d.operations.dump p w ≡ ok (tt, v)) × (v.output ≡ w.output ++ out)

-- What happens on a layer, where the search comes to `found`: nothing, or the work of the dissector
-- that was found.
abbrev pub Works : Option Dissector → Option Packet → Option Packet → List Print → Type 0
Works none p q out = (q ≡ none) × (out ≡ [])
Works (some d) p q out = Decapsulates d p q × Shows d p out

module _ (ds : List Dissector) where
  -- On a layer the first dissector that applies works, if there is one.
  pub record Layer (p : Option Packet) (layer : ℕ) (q : Option Packet) (out : List Print)
      : Type 0 where
    pub found : Option Dissector
    pub is_first : IsFirst (Applies p layer) (IsPassed p layer) ds found
    pub works : Works found p q out

  abbrev pub or_same : Option Packet → Option Packet → Option Packet
  or_same none p = p
  or_same (some q) p = some q

  -- The layers from `layer` to the seventh in turn, each with the packet that the last one handed over,
  -- or with the same packet if it handed over none.
  pub data Trace : Option Packet → ℕ → List Print → Type 0 where
    over :
        {p : Option Packet} {layer : ℕ} {out : List Print}
        → osi_layer_7 < layer
        → out ≡ []
        → Trace p layer out
    step :
        {p q : Option Packet} {layer : ℕ} {shown rest out : List Print}
        → layer ≤ osi_layer_7
        → Layer p layer q shown
        → Trace (or_same q p) (layer + 1) rest
        → out ≡ shown ++ rest
        → Trace p layer out

  -- What follows the first layer: nothing if it handed over no packet.
  abbrev pub Inner : Option Packet → List Print → Type 0
  Inner none rest = rest ≡ []
  Inner (some q) rest = Trace (some q) osi_layer_2 rest

  -- What all dissectors print of a packet.
  pub record Dump (p : Packet) (out : List Print) : Type 0 where
    pub handed : Option Packet
    pub first : List Print
    pub rest : List Print
    pub outer : Layer (some p) osi_layer_1 handed first
    pub inner : Inner handed rest
    pub together : out ≡ first ++ rest
