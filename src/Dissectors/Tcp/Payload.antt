-- ===== src/Dissectors/Tcp/Payload.antt =====
-- src/dissectors/tcp/tcp.c: which segments are supported, and what is handed on.
use open_sniffer.Base.{
  ℕ, ◌+◌, ◌*◌, ◌/◌, ◌^◌, ◌≡◌, refl, ◌<◌, ◌↔◌, true, Option, some, ◌∷◌, ◌++◌, Bytes, length,
  length-drop, take, drop, take-length, take-append-drop, arith,
}
use open_sniffer.Base.Words.{sub_size, bits}
use open_sniffer.Machine.{run, World, ok, malloc, byte_at, le32, Buffer}
use open_sniffer.Machine.Reads.{bytes_at-ok}
use open_sniffer.Osi.Packet.{Packet, Session}
use open_sniffer.Dissectors.Wire.{le16-be16, long_enough, be16, IsByte, packet_of}
use open_sniffer.Dissectors.Tcp.{ipproto_tcp, doff, handles, decapsulate}

module _ (s1 s2 d1 d2 q1 q2 q3 q4 a1 a2 a3 a4 o : ℕ) (rest : Bytes) where
  abbrev pub bytes : Bytes
  bytes = s1 ∷ s2 ∷ d1 ∷ d2 ∷ q1 ∷ q2 ∷ q3 ∷ q4 ∷ a1 ∷ a2 ∷ a3 ∷ a4 ∷ o ∷ rest

  abbrev pub tcp_segment : ℕ → Option Session → Packet
  tcp_segment block session = packet_of block ipproto_tcp session bytes

  -- The length of the header in bytes.
  abbrev pub header_length : ℕ
  header_length = o / 16 * 4

  -- Of the TCP segments of at least thirteen bytes, supported are exactly those with something behind
  -- the header, by the header's own length, when byte 12 is a byte; a header of less than twenty
  -- bytes is not refused.
  pub handles-segment :
      (block : ℕ) (session : Option Session)
      → IsByte o
      → (handles (some (tcp_segment block session)) ≡ ok true) ↔ (header_length < length rest + 13)
  unfolding handles doff byte_at
  handles-segment block session h =
      rw (long_enough 8 (length bytes) (omega arith)) (λ e. ground arith, λ e. ground arith)

  -- The session that is handed on: the ports have their bytes swapped, and the sequence number is as
  -- loaded.
  abbrev pub content_session : World → Session
  content_session w = record {
    addr = w.next + 1 + 1;
    id = q1 + 2 ^ 8 * q2 + 2 ^ 16 * (q3 + 2 ^ 8 * q4);
    src_port = be16 s2 s1;
    dest_port = be16 d2 d1;
  }

  -- The packet that is handed on: what follows the header, with the session.
  abbrev pub content_packet : World → Bytes → Packet
  content_packet w content = record {
    addr = w.next;
    payload = some (record { addr = w.next + 1; bytes = content });
    size = length content;
    protocol = 0;
    session = some (content_session w);
  }

  -- The decapsulation of a supported segment of at least thirteen bytes, all of its payload, whose
  -- length fits a `size_t` and whose byte 12 is a byte, hands on what follows the header: the header's bytes and
  -- the content make up the payload. Its session has the sequence number as loaded and the ports
  -- with their bytes swapped; it takes three blocks.
  pub decapsulate-segment :
      (block : ℕ) (session : Option Session) (w : World)
      → IsByte o
      → length rest + 13 < 2 ^ 64
      → handles (some (tcp_segment block session)) ≡ ok true
      → (content : Bytes) × (decapsulate (some (tcp_segment block session)) w
          ≡ ok (
            some (content_packet w content),
            record w {
              live = (w.next + 1 + 1) ∷ (w.next + 1) ∷ w.next ∷ w.live;
              next = w.next + 1 + 1 + 1;
            },
          ))
        × (take header_length bytes ++ content ≡ bytes)
  unfolding decapsulate run malloc le32 doff byte_at
  decapsulate-segment block session w hb fits supported =
      let content : Bytes = drop header_length bytes in
      let inside = (handles-segment block session hb).0 supported in
      let left : sub_size (length bytes) header_length ≡ length content =
        omega (arith, length-drop header_length bytes) in
      let words : bits o 4 4 ≡ o / 16 = omega arith in
      let source : Buffer = record { addr = block + 1; bytes = bytes } in
      (
        content,
        rw
            (
              supported,
              words,
              left,
              bytes_at-ok source header_length (length content)
                  (omega (arith, length-drop header_length bytes)),
              take-length (length content) content (omega arith),
            )
            (rw (le16-be16 s1 s2, le16-be16 d1 d2) refl),
        take-append-drop header_length bytes,
      )
