-- ===== src/Dissectors/Icmp/Fields.antt =====
-- src/dissectors/icmp/icmp.c: what is shown of a message of a known type, and what is handed on.
use mathlib.Core.List.{append_assoc}
use open_sniffer.Base.{
  ℕ, String, ◌+◌, ◌^◌, ◌≡◌, refl, ◌∙◌, ap, ◌<◌, true, Option, some, none, List, [], ◌∷◌, ◌++◌, All,
  Bytes, length, take-length, arith,
}
use open_sniffer.Osi.Stack.{apply_dissector}
use open_sniffer.Base.Words.{sub_size}
use open_sniffer.Machine.{run, Print, World, ok, str, int, malloc, byte_at, le16, bytes_at}
use open_sniffer.Osi.Packet.{Packet, Session}
use open_sniffer.Dissectors.Table.{find_value}
use open_sniffer.Dissectors.Wire.{ntohs-le16, long_enough, be16, line, prints, IsByte, packet_of}
use open_sniffer.Dissectors.Icmp.{
  icmp_output_header, icmp_output_footer, ipproto_icmp, types, packet_type_stringified, handles,
  dump, decapsulate, dissector,
}
use open_sniffer.Dissectors.Icmp.Lookup.{names, or_fault, packet_type_stringified-names}

module _ (type code k1 k2 r1 r2 r3 r4 : ℕ) (rest : Bytes) where
  -- An ICMP message.
  abbrev pub message : ℕ → Option Session → Packet
  message block session =
      packet_of block ipproto_icmp session (type ∷ code ∷ k1 ∷ k2 ∷ r1 ∷ r2 ∷ r3 ∷ r4 ∷ rest)

  -- What is printed of it, `name` being that of its type.
  abbrev pub icmp_lines : String → List Print
  icmp_lines name =
      line icmp_output_header []
      ∷ line "Packet type : %s\n" (str name ∷ [])
      ∷ line "Packet code : %d\n" (int code ∷ [])
      ∷ line "Checksum : 0x%x\n" (int (be16 k1 k2) ∷ [])
      ∷ line icmp_output_footer []
      ∷ []

  pub handles-message :
      (block : ℕ) (session : Option Session) → handles (some (message block session)) ≡ ok true
  unfolding handles
  handles-message block session = rw (long_enough 8 (message block session).size (omega arith)) refl

  -- The dump of an ICMP message whose type has a name in the table prints the header, that name, the
  -- code, the checksum as the big-endian number on the wire, and the footer, and changes nothing
  -- else; the checksum consists of bytes.
  pub dump-message :
      (block : ℕ) (session : Option Session) (w : World) (name : String)
      → find_value type (names types) ≡ some name
      → IsByte k1
      → IsByte k2
      → dump (some (message block session)) w ≡ prints w (icmp_lines name)
  unfolding dump run le16 byte_at
  dump-message block session w name known hk1 hk2 =
      let n : ℕ = (message block session).size in
      let named : packet_type_stringified type ≡ ok name =
        packet_type_stringified-names type ∙ ap or_fault known in
      rw (long_enough 8 n (omega arith), named, ntohs-le16 k1 k2 hk1 hk2) (simp append_assoc)

  -- The packet that is handed on: what is behind the header.
  abbrev pub content_packet : World → Packet
  content_packet w = record {
    addr = w.next;
    payload = some (record { addr = w.next + 1; bytes = rest });
    size = length rest;
    protocol = 0;
    session = none;
  }

  -- The decapsulation of an ICMP message whose length fits a `size_t` hands on exactly the bytes
  -- behind its header of eight, with protocol 0 and no session; it takes two blocks.
  pub decapsulate-message :
      (block : ℕ) (session : Option Session) (w : World)
      → length rest + 8 < 2 ^ 64
      → decapsulate (some (message block session)) w
        ≡ ok (
          some (content_packet w),
          record w { live = (w.next + 1) ∷ w.next ∷ w.live; next = w.next + 1 + 1 },
        )
  unfolding decapsulate run malloc bytes_at
  decapsulate-message block session w fits =
      let n : ℕ = (message block session).size in
      let left : sub_size n 8 ≡ length rest = omega arith in
      rw
        (
          long_enough 8 n (omega arith),
          left,
          long_enough (8 + length rest) n (omega arith),
          take-length (length rest) rest (omega arith),
        )
        refl

  -- An ICMP message is handled. What the stack then does with a message whose type has a name in
  -- the table prints the header, that name, the code, the checksum as the big-endian number on
  -- the wire, and the footer, and hands on exactly the bytes behind the header of eight, with
  -- protocol 0 and no session; it takes two blocks. The checksum consists of bytes, and the length
  -- fits a `size_t`.
  pub apply_dissector-message :
      (block : ℕ) (session : Option Session) (w : World) (name : String)
      → find_value type (names types) ≡ some name
      → All IsByte (k1 ∷ k2 ∷ [])
      → length rest + 8 < 2 ^ 64
      → (handles (some (message block session)) ≡ ok true)
        × (apply_dissector (some dissector) (some (message block session)) w
            ≡ ok (
              some (content_packet w),
              record w {
                live = (w.next + 1) ∷ w.next ∷ w.live;
                next = w.next + 1 + 1;
                output = w.output ++ icmp_lines name;
              },
            ))
  unfolding apply_dissector run
  apply_dissector-message block session w name known (hk1, (hk2, _)) fits = (
    handles-message block session,
    rw (decapsulate-message block session w fits)
        (rw (dump-message block session _ name known hk1 hk2) refl),
  )
