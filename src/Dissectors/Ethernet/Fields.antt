-- ===== src/Dissectors/Ethernet/Fields.antt =====
-- src/dissectors/ethernet/ethernet.c: which frames are handled, what is shown of a frame, and what is
-- handed on.
use mathlib.Core.List.{append_assoc}
use open_sniffer.Base.{
  refl, ℕ, ◌+◌, ◌^◌, ◌≡◌, ◌<◌, ◌≤◌, ◌↔◌, true, Option, some, none, List, [], ◌∷◌, ◌++◌, All, Bytes,
  length, length-append, take-append, arith,
}
use open_sniffer.Osi.Stack.{apply_dissector}
use open_sniffer.Base.Words.{sub_size}
use open_sniffer.Machine.{run, Print, World, ok, text, malloc, byte_at, bytes_at, le16}
use open_sniffer.Osi.Packet.{Packet, Session}
use open_sniffer.Inaddr.{stringify_hw_addr, colons}
use open_sniffer.Dissectors.Wire.{ntohs-le16, long_enough, be16, line, prints, IsByte}
use open_sniffer.Dissectors.Ethernet.{
  ethernet_output_header, ethernet_output_footer, handles, dump, decapsulate, dissector,
}

module _ (d1 d2 d3 d4 d5 d6 s1 s2 s3 s4 s5 s6 t1 t2 : ℕ) (content slack : Bytes) where
  -- An Ethernet frame at the start of the buffer `block`, in a packet that has no block of its own, like
  -- the reader's. Behind the frame the buffer holds `slack`.
  abbrev pub frame : ℕ → ℕ → Option Session → Packet
  frame block protocol session = record {
    addr = 0;
    payload = some (record {
      addr = block;
      bytes =
          d1 ∷ d2 ∷ d3 ∷ d4 ∷ d5 ∷ d6 ∷ s1 ∷ s2 ∷ s3 ∷ s4 ∷ s5 ∷ s6 ∷ t1 ∷ t2 ∷ (content ++ slack);
    });
    size = length (d1 ∷ d2 ∷ d3 ∷ d4 ∷ d5 ∷ d6 ∷ s1 ∷ s2 ∷ s3 ∷ s4 ∷ s5 ∷ s6 ∷ t1 ∷ t2 ∷ content);
    protocol = protocol;
    session = session;
  }

  -- Of the frames with a whole header, whose type consists of bytes, handled are exactly those whose
  -- big-endian type is from 0x0200 to 0x9000.
  pub handles-frame :
      (block protocol : ℕ) (session : Option Session)
      → IsByte t1
      → IsByte t2
      → (handles (some (frame block protocol session)) ≡ ok true)
        ↔ ((0x0200 ≤ be16 t1 t2) × (be16 t1 t2 ≤ 0x9000))
  unfolding handles le16 byte_at
  handles-frame block protocol session h1 h2 =
      let n : ℕ = (frame block protocol session).size in
      rw (long_enough 14 n (omega arith), ntohs-le16 t1 t2 h1 h2)
        (λ e. ground arith, λ e. ground arith)

  -- What is printed of it.
  abbrev pub ethernet_lines : List Print
  ethernet_lines =
      line ethernet_output_header []
      ∷ line "Ethernet source address : %s\n" (text (colons s1 s2 s3 s4 s5 s6) ∷ [])
      ∷ line "Ethernet destination address : %s\n" (text (colons d1 d2 d3 d4 d5 d6) ∷ [])
      ∷ line ethernet_output_footer []
      ∷ []

  -- The dump of a handled frame prints the header, the source and then the destination address in
  -- hexadecimal with colons, and the footer, and changes nothing else.
  pub dump-frame :
      (block protocol : ℕ) (session : Option Session) (w : World)
      → handles (some (frame block protocol session)) ≡ ok true
      → dump (some (frame block protocol session)) w ≡ prints w ethernet_lines
  unfolding dump run stringify_hw_addr byte_at
  dump-frame block protocol session w supported = rw (supported) (simp append_assoc)

  -- The packet that is handed on: the content, with the frame's type as the hint.
  abbrev pub content_packet : World → Packet
  content_packet w = record {
    addr = w.next;
    payload = some (record { addr = w.next + 1; bytes = content });
    size = length content;
    protocol = be16 t1 t2;
    session = none;
  }

  -- The decapsulation of a handled frame whose length fits a `size_t` and whose type consists of bytes
  -- hands on exactly the bytes behind the fourteen of the header, with the frame's big-endian type as
  -- protocol and no session; it takes two blocks.
  pub decapsulate-frame :
      (block protocol : ℕ) (session : Option Session) (w : World)
      → IsByte t1
      → IsByte t2
      → length content + 14 < 2 ^ 64
      → handles (some (frame block protocol session)) ≡ ok true
      → decapsulate (some (frame block protocol session)) w
        ≡ ok (
          some (content_packet w),
          record w { live = (w.next + 1) ∷ w.next ∷ w.live; next = w.next + 1 + 1 },
        )
  unfolding decapsulate run malloc le16 byte_at bytes_at
  decapsulate-frame block protocol session w h1 h2 fits supported =
      let n : ℕ = (frame block protocol session).size in
      let rest : sub_size n 14 ≡ length content = omega arith in
      let whole : ℕ = length (
        d1 ∷ d2 ∷ d3 ∷ d4 ∷ d5 ∷ d6 ∷ s1 ∷ s2 ∷ s3 ∷ s4 ∷ s5 ∷ s6 ∷ t1 ∷ t2 ∷ (content ++ slack)) in
      rw
        (
          supported,
          rest,
          ntohs-le16 t1 t2 h1 h2,
          long_enough (14 + length content) whole (omega (arith, length-append content slack)),
          take-append content slack,
        )
        refl

  -- What the stack does with a handled frame prints the header, the source and then the destination
  -- address in hexadecimal with colons, and the footer, and hands on exactly the bytes behind the
  -- fourteen of the header, with the frame's big-endian type as protocol and no session; it takes
  -- two blocks. The type consists of bytes, and the length fits a `size_t`.
  pub apply_dissector-frame :
      (block protocol : ℕ) (session : Option Session) (w : World)
      → All IsByte (t1 ∷ t2 ∷ [])
      → length content + 14 < 2 ^ 64
      → handles (some (frame block protocol session)) ≡ ok true
      → apply_dissector (some dissector) (some (frame block protocol session)) w
        ≡ ok (
          some (content_packet w),
          record w {
            live = (w.next + 1) ∷ w.next ∷ w.live;
            next = w.next + 1 + 1;
            output = w.output ++ ethernet_lines;
          },
        )
  unfolding apply_dissector run
  apply_dissector-frame block protocol session w (h1, (h2, _)) fits supported =
      rw (decapsulate-frame block protocol session w h1 h2 fits supported)
        (rw (dump-frame block protocol session _ supported) refl)
