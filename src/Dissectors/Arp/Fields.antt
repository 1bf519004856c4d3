-- ===== src/Dissectors/Arp/Fields.antt =====
-- src/dissectors/arp/arp.c: what is shown of an ARP packet, and what is handed on.
use mathlib.Core.List.{append_assoc}
use open_sniffer.Base.{
  ℕ, ◌+◌, ◌^◌, ◌≡◌, refl, ◌<◌, ◌≤◌, true, Option, some, none, List, [], ◌∷◌, ◌++◌, Bytes, length,
  take-length, arith,
}
use open_sniffer.Osi.Stack.{apply_dissector}
use open_sniffer.Base.Words.{sub_size}
use open_sniffer.Machine.{run, Print, World, ok, text, malloc, byte_at, bytes_at}
use open_sniffer.Osi.Packet.{Packet, Session}
use open_sniffer.Inaddr.{stringify_hw_addr, colons}
use open_sniffer.Dissectors.Wire.{long_enough, line, prints, packet_of}
use open_sniffer.Dissectors.Arp.{
  arp_output_header, arp_output_footer, ethertype_arp, handles, dump, decapsulate, dissector,
}

module _ (h1 h2 h3 h4 h5 h6 h7 h8 s1 s2 s3 s4 s5 s6 i1 i2 i3 i4 t1 t2 t3 t4 t5 t6 j1 j2 j3 j4 : ℕ)
    (rest : Bytes) where
  -- An ARP packet for Ethernet and IP: after eight bytes the hardware and the IP address of the
  -- sender, and those of the target.
  abbrev pub arp_packet : ℕ → Option Session → Packet
  arp_packet block session = packet_of block ethertype_arp session (
      h1 ∷ h2 ∷ h3 ∷ h4 ∷ h5 ∷ h6 ∷ h7 ∷ h8 ∷ s1 ∷ s2 ∷ s3 ∷ s4 ∷ s5 ∷ s6 ∷ i1 ∷ i2 ∷ i3 ∷ i4 ∷ t1
      ∷ t2 ∷ t3 ∷ t4 ∷ t5 ∷ t6 ∷ j1 ∷ j2 ∷ j3 ∷ j4 ∷ rest)

  -- The length in bytes.
  abbrev bytes_long : ℕ
  bytes_long = (arp_packet 0 none).size

  at_least : 28 ≤ bytes_long
  at_least = omega arith

  -- What is printed of it.
  abbrev pub arp_lines : List Print
  arp_lines =
      line arp_output_header []
      ∷ line "ARP Sender Hardware address : %s\n" (text (colons s1 s2 s3 s4 s5 s6) ∷ [])
      ∷ line "ARP Target Hardware address : %s\n" (text (colons t1 t2 t3 t4 t5 t6) ∷ [])
      ∷ line arp_output_footer []
      ∷ []

  pub handles-arp_packet :
      (block : ℕ) (session : Option Session) → handles (some (arp_packet block session)) ≡ ok true
  unfolding handles
  handles-arp_packet block session = rw (long_enough 28 bytes_long at_least) refl

  -- The dump of an ARP packet prints the header, the hardware address of the sender, that of the
  -- target, and the footer, and changes nothing else.
  pub dump-arp_packet :
      (block : ℕ) (session : Option Session) (w : World)
      → dump (some (arp_packet block session)) w ≡ prints w arp_lines
  unfolding dump run stringify_hw_addr byte_at
  dump-arp_packet block session w = rw (long_enough 28 bytes_long at_least) (simp append_assoc)

  -- The packet that is handed on: what is behind the ARP packet.
  abbrev pub content_packet : World → Packet
  content_packet w = record {
    addr = w.next;
    payload = some (record { addr = w.next + 1; bytes = rest });
    size = length rest;
    protocol = 0;
    session = none;
  }

  -- The decapsulation of an ARP packet whose length fits a `size_t` hands on exactly the bytes behind
  -- its 28, with protocol 0 and no session; it takes two blocks.
  pub decapsulate-arp_packet :
      (block : ℕ) (session : Option Session) (w : World)
      → length rest + 28 < 2 ^ 64
      → decapsulate (some (arp_packet block session)) w
        ≡ ok (
          some (content_packet w),
          record w { live = (w.next + 1) ∷ w.next ∷ w.live; next = w.next + 1 + 1 },
        )
  unfolding decapsulate run malloc bytes_at
  decapsulate-arp_packet block session w fits =
      let left : sub_size bytes_long 28 ≡ length rest = omega arith in
      rw
        (
          long_enough 28 bytes_long at_least,
          left,
          long_enough (28 + length rest) bytes_long (omega arith),
          take-length (length rest) rest (omega arith),
        )
        refl

  -- An ARP packet is handled. What the stack then does with it prints the header, the hardware
  -- address of the sender, that of the target, and the footer, and hands on exactly the bytes
  -- behind its 28, with protocol 0 and no session; it takes two blocks. The length fits a `size_t`.
  pub apply_dissector-arp_packet :
      (block : ℕ) (session : Option Session) (w : World)
      → length rest + 28 < 2 ^ 64
      → (handles (some (arp_packet block session)) ≡ ok true)
        × (apply_dissector (some dissector) (some (arp_packet block session)) w
            ≡ ok (
              some (content_packet w),
              record w {
                live = (w.next + 1) ∷ w.next ∷ w.live;
                next = w.next + 1 + 1;
                output = w.output ++ arp_lines;
              },
            ))
  unfolding apply_dissector run
  apply_dissector-arp_packet block session w fits = (
    handles-arp_packet block session,
    rw (decapsulate-arp_packet block session w fits) (rw (dump-arp_packet block session _) refl),
  )
