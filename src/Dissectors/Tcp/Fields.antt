-- ===== src/Dissectors/Tcp/Fields.antt =====
-- src/dissectors/tcp/tcp.c: what is shown of a segment, and short segments.
use mathlib.Core.List.{append_assoc}
use open_sniffer.Base.{
  ℕ, ◌+◌, ◌*◌, ◌/◌, ◌%◌, ◌^◌, ◌≡◌, ap, ◌∙◌, ◌≤◌, true, Option, some, All, codes, ◌==◌,
  if◌then◌else◌, List, [], ◌∷◌, Bytes, length, arith,
}
use open_sniffer.Base.Words.{ntohs, bits}
use open_sniffer.Machine.{Print, run, out_of_bounds, fault, World, ok, int, text, Buffer, le32}
use open_sniffer.Machine.Reads.{byte_at-fault}
use open_sniffer.Osi.Packet.{Packet, Session}
use open_sniffer.Dissectors.Wire.{ntohs-le16, ntohs-le32, be16, line, prints, IsByte, packet_of}
use open_sniffer.Dissectors.Tcp.{
  tcp_output_header, tcp_output_footer, ipproto_tcp, doff, has_flag, packet_type, handles_data,
  handles, dump,
}

-- A payload of 8 to 12 bytes that the IP dissector hands on as TCP passes the test on its size, made
-- with the size of a pointer, and the length field is then read outside the payload.
pub handles-short :
    (p : Packet) (b : Buffer)
    → p.payload ≡ some b
    → p.protocol ≡ ipproto_tcp
    → p.size ≡ length b.bytes
    → 8 ≤ p.size
    → p.size ≤ 12
    → handles (some p) ≡ fault out_of_bounds
unfolding handles doff
handles-short p b e proto whole low high =
    ap (handles_data p) e ∙ ground (arith, byte_at-fault b 12)

-- The flag that is shown, by the bits of the flag byte: FIN, RST, PSH, SYN and ACK in this order.
abbrev pub flag_text : ℕ → Bytes
flag_text f =
    if f % 2 == 1
    then codes "FIN "
    else if f / 4 % 2 == 1
    then codes "RST "
    else if f / 8 % 2 == 1
    then codes "PSH "
    else if f / 2 % 2 == 1
    then codes "SYN "
    else if f / 16 % 2 == 1
    then codes "ACK "
    else []

-- The flag that `tcp_dissector_get_packet_type` finds in the loaded word is the one that the bits of the
-- second byte on the wire say, when the first byte is a byte.
pub packet_type-flag_text :
    (o f x y : ℕ) → IsByte o → packet_type (o + 2 ^ 8 * f + 2 ^ 16 * (x + 2 ^ 8 * y)) ≡ flag_text f
unfolding packet_type has_flag
packet_type-flag_text o f x y h =
    let word : ℕ = o + 2 ^ 8 * f + 2 ^ 16 * (x + 2 ^ 8 * y) in
    let fin : bits word 8 1 ≡ f % 2 = omega arith in
    let syn : bits word 9 1 ≡ f / 2 % 2 = omega arith in
    let rst : bits word 10 1 ≡ f / 4 % 2 = omega arith in
    let psh : bits word 11 1 ≡ f / 8 % 2 = omega arith in
    let ack : bits word 12 1 ≡ f / 16 % 2 = omega arith in rw (fin, rst, psh, syn, ack)

module _ (s1 s2 d1 d2 q1 q2 q3 q4 a1 a2 a3 a4 o f x y : ℕ) (rest : Bytes) where
  -- A TCP segment: `o` holds the header's length, `f` the flags.
  abbrev pub segment : ℕ → Option Session → Packet
  segment block session =
      packet_of block ipproto_tcp session
        (s1 ∷ s2 ∷ d1 ∷ d2 ∷ q1 ∷ q2 ∷ q3 ∷ q4 ∷ a1 ∷ a2 ∷ a3 ∷ a4 ∷ o ∷ f ∷ x ∷ y ∷ rest)

  -- What is printed of it.
  abbrev pub tcp_lines : List Print
  tcp_lines =
      line tcp_output_header []
      ∷ line "Packet type : %s\n" (text (flag_text f) ∷ [])
      ∷ line "Source port : %u\n" (int (be16 s1 s2) ∷ [])
      ∷ line "Destination port : %u\n" (int (be16 d1 d2) ∷ [])
      ∷ line "Sequence number : %u\n" (int (be16 q1 q2) ∷ [])
      ∷ line "Acknowledgement number : %u\n" (int (be16 a1 a2) ∷ [])
      ∷ line "Header length : %u bytes\n" (int (1024 * (o / 16)) ∷ [])
      ∷ line tcp_output_footer []
      ∷ []

  -- The dump of a supported TCP segment of at least sixteen bytes, all of its payload, prints the
  -- header, the flag, both ports, the upper halves of the sequence and of the acknowledgement number,
  -- 1024 times the header's length in words, and the footer, and changes nothing else; the bytes of
  -- the ports, the upper halves and byte 12 are bytes.
  pub dump-segment :
      (block : ℕ) (session : Option Session) (w : World)
      → All IsByte (s1 ∷ s2 ∷ d1 ∷ d2 ∷ q1 ∷ q2 ∷ a1 ∷ a2 ∷ o ∷ [])
      → handles (some (segment block session)) ≡ ok true
      → dump (some (segment block session)) w ≡ prints w tcp_lines
  unfolding dump run le32 doff
  dump-segment block session w (hs1, (hs2, (hd1, (hd2, (hq1, (hq2, (ha1, (ha2, (ho, _)))))))))
        supported =
      let words : ntohs (o / 16 % 16 * 4) ≡ 1024 * (o / 16) = omega arith in
      rw
        (
          supported,
          packet_type-flag_text o f x y ho,
          ntohs-le16 s1 s2 hs1 hs2,
          ntohs-le16 d1 d2 hd1 hd2,
          ntohs-le32 q1 q2 q3 q4 hq1 hq2,
          ntohs-le32 a1 a2 a3 a4 ha1 ha2,
          words,
        )
        (simp append_assoc)
