-- ===== src/Main/Datagram.antt =====
-- src/main.c, src/osi.c and src/dissectors: a datagram of IPv4 in an Ethernet frame.
use open_sniffer.Base.{
  ℕ, ◌+◌, ◌^◌, ◌≡◌, ◌<◌, ap, inl, refl, true, none, some, List, [], ◌∷◌, ◌++◌, Bytes, All, length,
  drop, arith,
}
use open_sniffer.Machine.{ok, Arg, Print, World}
use open_sniffer.Osi.Packet.{Packet}
use open_sniffer.Osi.Walk.{header_call, footer_call}
use open_sniffer.Dissectors.Wire.{IsByte, packet_of}
use open_sniffer.Dissectors.Ethernet
use open_sniffer.Dissectors.Ethernet.Fields as EthernetFields
use open_sniffer.Dissectors.Ip
use open_sniffer.Dissectors.Ip.Fields as IpFields

-- What is not fixed in the headers of Ethernet and of IPv4 without options: the two addresses of the
-- frame, the bytes 1 to 8 of the datagram, its checksum and its two addresses.
pub record Headers : Type 0 where
  pub d1 : ℕ
  pub d2 : ℕ
  pub d3 : ℕ
  pub d4 : ℕ
  pub d5 : ℕ
  pub d6 : ℕ
  pub e1 : ℕ
  pub e2 : ℕ
  pub e3 : ℕ
  pub e4 : ℕ
  pub e5 : ℕ
  pub e6 : ℕ
  pub v1 : ℕ
  pub v2 : ℕ
  pub v3 : ℕ
  pub v4 : ℕ
  pub v5 : ℕ
  pub v6 : ℕ
  pub v7 : ℕ
  pub v8 : ℕ
  pub k1 : ℕ
  pub k2 : ℕ
  pub s1 : ℕ
  pub s2 : ℕ
  pub s3 : ℕ
  pub s4 : ℕ
  pub t1 : ℕ
  pub t2 : ℕ
  pub t3 : ℕ
  pub t4 : ℕ

-- The fields that are printed as numbers and as dotted quads consist of bytes.
pub record AreBytes (h : Headers) : Type 0 where
  pub checksum : All IsByte (h.k1 ∷ h.k2 ∷ [])
  pub source : All IsByte (h.s1 ∷ h.s2 ∷ h.s3 ∷ h.s4 ∷ [])
  pub destination : All IsByte (h.t1 ∷ h.t2 ∷ h.t3 ∷ h.t4 ∷ [])

module _ (h : Headers) (protocol : ℕ) (content : Bytes) where
  abbrev ip_rest : Bytes
  ip_rest = h.s1 ∷ h.s2 ∷ h.s3 ∷ h.s4 ∷ h.t1 ∷ h.t2 ∷ h.t3 ∷ h.t4 ∷ content

  abbrev pub ip_bytes : Bytes
  ip_bytes =
      0x45 ∷ h.v1 ∷ h.v2 ∷ h.v3 ∷ h.v4 ∷ h.v5 ∷ h.v6 ∷ h.v7 ∷ h.v8 ∷ protocol ∷ h.k1 ∷ h.k2
      ∷ ip_rest

  -- The bytes of a frame with the datagram.
  abbrev pub frame_bytes : Bytes
  frame_bytes =
      h.d1 ∷ h.d2 ∷ h.d3 ∷ h.d4 ∷ h.d5 ∷ h.d6 ∷ h.e1 ∷ h.e2 ∷ h.e3 ∷ h.e4 ∷ h.e5 ∷ h.e6 ∷ 8 ∷ 0
      ∷ ip_bytes

  -- The frame with the datagram, at the start of the buffer `block`, which holds `slack` behind it.
  abbrev pub frame : Bytes → ℕ → Packet
  frame slack block =
      EthernetFields.frame h.d1 h.d2 h.d3 h.d4 h.d5 h.d6 h.e1 h.e2 h.e3 h.e4 h.e5 h.e6 8 0 ip_bytes
        slack block 0 none

  abbrev pub datagram : ℕ → Packet
  datagram block =
      IpFields.whole_datagram 0x45 h.v1 h.v2 h.v3 h.v4 h.v5 h.v6 h.v7 h.v8 protocol h.k1 h.k2 h.s1
        h.s2 h.s3 h.s4 h.t1 h.t2 h.t3 h.t4 content block none

  -- The packet that IP hands on.
  abbrev pub segment : ℕ → Packet
  segment block = packet_of block protocol none content

  abbrev pub ethernet_lines : List Print
  ethernet_lines =
      EthernetFields.ethernet_lines h.d1 h.d2 h.d3 h.d4 h.d5 h.d6 h.e1 h.e2 h.e3 h.e4 h.e5 h.e6 8 0
        ip_bytes []

  abbrev pub ip_lines : List Print
  ip_lines =
      IpFields.ip_lines 0x45 h.v1 h.v2 h.v3 h.v4 h.v5 h.v6 h.v7 h.v8 protocol h.k1 h.k2 h.s1 h.s2
        h.s3 h.s4 h.t1 h.t2 h.t3 h.t4 content

  -- What the whole dump prints, `out` being what is printed of the content.
  abbrev pub shown : Arg → List Print → List Print
  shown now out =
      header_call now (length content + 34)
      ∷ ((ethernet_lines ++ (ip_lines ++ out)) ++ footer_call ∷ [])

  pub whole_size : (slack : Bytes) (block : ℕ) → (frame slack block).size ≡ length content + 34
  whole_size slack block = omega arith

  pub frame_handled :
      (slack : Bytes) (block : ℕ) → Ethernet.handles (some (frame slack block)) ≡ ok true
  frame_handled slack block =
      (EthernetFields.handles-frame h.d1 h.d2 h.d3 h.d4 h.d5 h.d6 h.e1 h.e2 h.e3 h.e4 h.e5 h.e6 8 0
          ip_bytes slack block 0 none (omega arith) (omega arith)).1
        (omega arith, omega arith)

  pub datagram_handled : (block : ℕ) → Ip.handles (some (datagram block)) ≡ ok true
  datagram_handled block =
      (IpFields.handles-ip_datagram 0x45 h.v1 h.v2 h.v3 h.v4 h.v5 h.v6 h.v7 h.v8 protocol
          (h.k1 ∷ h.k2 ∷ ip_rest) block none (omega arith)).1
        (omega arith, inl refl)

  -- Without options the content begins behind twenty bytes.
  pub decapsulate-datagram :
      (block : ℕ) (w : World)
      → length content + 20 < 2 ^ 64
      → Ip.decapsulate (some (datagram block)) w
        ≡ ok (
          some (segment w.next),
          record w { live = (w.next + 1) ∷ w.next ∷ w.live; next = w.next + 1 + 1 },
        )
  decapsulate-datagram block w fits =
      let (rest, decapsulated, split) =
        IpFields.decapsulate-ip_datagram 0x45 h.v1 h.v2 h.v3 h.v4 h.v5 h.v6 h.v7 h.v8 protocol
          (h.k1 ∷ h.k2 ∷ ip_rest) block none w (omega arith) (omega arith)
          (datagram_handled block) in
      let same : rest ≡ content = ap (drop 20) split in rw decapsulated (rw same refl)
