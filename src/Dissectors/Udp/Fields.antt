-- ===== src/Dissectors/Udp/Fields.antt =====
-- src/dissectors/udp/udp.c: what is shown of a datagram, and what is handed on.
use mathlib.Core.List.{append_assoc}
use open_sniffer.Base.{
  ℕ, ◌+◌, ◌^◌, ◌≡◌, ◌<◌, refl, true, Option, some, List, [], ◌∷◌, ◌++◌, All, Bytes, length, arith,
  take-length,
}
use open_sniffer.Machine.{run, Print, World, ok, int, malloc, le16, bytes_at}
use open_sniffer.Osi.Packet.{Packet, Session}
use open_sniffer.Osi.Stack.{apply_dissector}
use open_sniffer.Base.Words.{sub_size}
use open_sniffer.Dissectors.Wire.{
  ntohs-le16, le16-be16, long_enough, be16, line, prints, IsByte, packet_of,
}
use open_sniffer.Dissectors.Udp.{
  udp_output_header, udp_output_footer, ipproto_udp, handles, dump, decapsulate, dissector,
}

module _ (s1 s2 d1 d2 l1 l2 c1 c2 : ℕ) (content : Bytes) where
  -- A UDP datagram.
  abbrev pub udp_datagram : ℕ → Option Session → Packet
  udp_datagram block session =
      packet_of block ipproto_udp session (s1 ∷ s2 ∷ d1 ∷ d2 ∷ l1 ∷ l2 ∷ c1 ∷ c2 ∷ content)

  -- What is printed of it.
  abbrev pub udp_lines : List Print
  udp_lines =
      line udp_output_header []
      ∷ line "UDP source port : %d\n" (int (be16 s1 s2) ∷ [])
      ∷ line "UDP destination port : %d\n" (int (be16 d1 d2) ∷ [])
      ∷ line udp_output_footer []
      ∷ []

  pub handles-udp_datagram :
      (block : ℕ) (session : Option Session) → handles (some (udp_datagram block session)) ≡ ok true
  unfolding handles
  handles-udp_datagram block session =
      rw (long_enough 8 (udp_datagram block session).size (omega arith)) refl

  -- The dump of a UDP datagram prints the header, the source and the destination port as the
  -- big-endian numbers that are on the wire, and the footer, and changes nothing else; the four
  -- bytes of the ports are bytes.
  pub dump-udp_datagram :
      (block : ℕ) (session : Option Session) (w : World)
      → IsByte s1
      → IsByte s2
      → IsByte d1
      → IsByte d2
      → dump (some (udp_datagram block session)) w ≡ prints w udp_lines
  unfolding dump run le16
  dump-udp_datagram block session w hs1 hs2 hd1 hd2 =
      rw
        (
          long_enough 8 (udp_datagram block session).size (omega arith),
          ntohs-le16 s1 s2 hs1 hs2,
          ntohs-le16 d1 d2 hd1 hd2,
        )
        (simp append_assoc)

  -- The session that is handed on: its ports have their bytes swapped.
  abbrev pub content_session : World → Session
  content_session w = record {
    addr = w.next + 1 + 1;
    id = 0;
    src_port = be16 s2 s1;
    dest_port = be16 d2 d1;
  }

  -- The packet that is handed on: the content with the session.
  abbrev pub content_packet : World → Packet
  content_packet w = record {
    addr = w.next;
    payload = some (record { addr = w.next + 1; bytes = content });
    size = length content;
    protocol = 0;
    session = some (content_session w);
  }

  -- The decapsulation of a UDP datagram whose length fits a `size_t` hands on exactly the bytes
  -- behind its eight-byte header, with protocol 0 and a session with identifier 0 that holds the
  -- two ports with their bytes swapped; it takes three blocks.
  pub decapsulate-udp_datagram :
      (block : ℕ) (session : Option Session) (w : World)
      → length content + 8 < 2 ^ 64
      → decapsulate (some (udp_datagram block session)) w
        ≡ ok (
          some (content_packet w),
          record w {
            live = (w.next + 1 + 1) ∷ (w.next + 1) ∷ w.next ∷ w.live;
            next = w.next + 1 + 1 + 1;
          },
        )
  unfolding decapsulate run le16 bytes_at malloc
  decapsulate-udp_datagram block session w fits =
      let n : ℕ = (udp_datagram block session).size in
      let rest : sub_size n 8 ≡ length content = omega arith in
      rw
        (
          long_enough 8 n (omega arith),
          rest,
          long_enough (8 + length content) n (omega arith),
          take-length (length content) content (omega arith),
        )
        (rw (le16-be16 s1 s2, le16-be16 d1 d2))

  -- A UDP datagram is handled. What the stack then does with it prints the header, the source and
  -- the destination port as the big-endian numbers that are on the wire, and the footer, and hands on
  -- exactly the bytes behind the eight-byte header, with protocol 0 and a session with identifier 0
  -- that holds the two ports with their bytes swapped; it takes three blocks. The bytes of the ports
  -- are bytes, and the length fits a `size_t`.
  pub apply_dissector-udp_datagram :
      (block : ℕ) (session : Option Session) (w : World)
      → All IsByte (s1 ∷ s2 ∷ d1 ∷ d2 ∷ [])
      → length content + 8 < 2 ^ 64
      → (handles (some (udp_datagram block session)) ≡ ok true)
        × (apply_dissector (some dissector) (some (udp_datagram block session)) w
            ≡ ok (
              some (content_packet w),
              record w {
                live = (w.next + 1 + 1) ∷ (w.next + 1) ∷ w.next ∷ w.live;
                next = w.next + 1 + 1 + 1;
                output = w.output ++ udp_lines;
              },
            ))
  unfolding apply_dissector run
  apply_dissector-udp_datagram block session w (hs1, (hs2, (hd1, (hd2, _)))) fits = (
    handles-udp_datagram block session,
    rw (decapsulate-udp_datagram block session w fits)
        (rw (dump-udp_datagram block session _ hs1 hs2 hd1 hd2) refl),
  )
