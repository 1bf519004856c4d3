-- ===== src/Dissectors/Ip/Fields.antt =====
-- src/dissectors/ip/ip.c: what is supported, what is shown of a datagram, and what is handed on.
use mathlib.Core.List.{append_assoc}
use open_sniffer.Base.{
  ℕ, ◌↔◌, ◌⊎◌, ◌+◌, ◌*◌, ◌/◌, ◌%◌, ◌^◌, ◌≡◌, ◌≤◌, ◌<◌, refl, true, Option, some, none, List, [],
  ◌∷◌, ◌++◌, Bytes, All, length, length-drop, take, drop, take-length, take-append-drop, arith,
}
use open_sniffer.Base.Words.{sub_size, bits}
use open_sniffer.Machine.{
  run, Print, out_of_bounds, fault, World, ok, int, text, Buffer, malloc, byte_at, le32,
}
use open_sniffer.Machine.Reads.{bytes_at-ok, le32-fault}
use open_sniffer.Osi.Packet.{Packet, Session, data_of-some}
use open_sniffer.Inaddr.Dotted.{dotted, inet_ntoa-le32}
use open_sniffer.Dissectors.Wire.{ntohs-le16, be16, line, prints, IsByte, packet_of}
use open_sniffer.Dissectors.Ip.{
  ip_output_header, ip_output_footer, ethertype_ip, ihl, version, handles, dump, decapsulate,
}

-- A packet whose payload begins with the byte `v0`: the version and the header's length.
abbrev pub ip_packet : ℕ → Bytes → ℕ → ℕ → Option Session → Packet
ip_packet v0 more protocol block session = packet_of block protocol session (v0 ∷ more)

-- A packet is supported exactly if its protocol is 0x0800, it has at least eight bytes, its version
-- is 4 or 6 and its header, by the length in the first byte, fits the packet. The payload, all of
-- which belongs to the packet, is not empty, and its first byte is a byte.
pub handles-ip_packet :
    (v0 : ℕ) (more : Bytes) (protocol block : ℕ) (session : Option Session)
    → IsByte v0
    → (handles (some (ip_packet v0 more protocol block session)) ≡ ok true) ↔ (
        (protocol ≡ 0x0800)
        × (8 ≤ length (v0 ∷ more))
        × (v0 % 16 * 4 ≤ length (v0 ∷ more))
        × ((v0 / 16 ≡ 4) ⊎ (v0 / 16 ≡ 6)))
unfolding handles ihl version byte_at
handles-ip_packet v0 more protocol block session h = (λ e. ground arith, λ e. ground arith)

module _ (v0 v1 v2 v3 v4 v5 v6 v7 v8 v9 : ℕ) (rest : Bytes) where
  -- A packet on which the IP dissector works: `v0` holds the version and the header's length, `v9`
  -- the protocol.
  abbrev pub ip_datagram : ℕ → Option Session → Packet
  ip_datagram block session =
      packet_of block ethertype_ip session (v0 ∷ v1 ∷ v2 ∷ v3 ∷ v4 ∷ v5 ∷ v6 ∷ v7 ∷ v8 ∷ v9 ∷ rest)

  -- The length of the header in bytes.
  abbrev pub header_size : ℕ
  header_size = v0 % 16 * 4

  pub handles-ip_datagram :
      (block : ℕ) (session : Option Session)
      → IsByte v0
      → (handles (some (ip_datagram block session)) ≡ ok true)
        ↔ ((header_size ≤ length rest + 10) × ((v0 / 16 ≡ 4) ⊎ (v0 / 16 ≡ 6)))
  handles-ip_datagram block session h =
      let more : Bytes = v1 ∷ v2 ∷ v3 ∷ v4 ∷ v5 ∷ v6 ∷ v7 ∷ v8 ∷ v9 ∷ rest in
      let (to, from) = handles-ip_packet v0 more 0x0800 block session h in
      (
        λ e. (let (_, _, inside, known) = to e in (omega arith, known)),
        λ (inside, known). from (refl, omega arith, omega arith, known),
      )

  -- The packet that is handed on: what follows the header, with the header's protocol as the hint.
  abbrev pub content_packet : World → Bytes → Packet
  content_packet w content = record {
    addr = w.next;
    payload = some (record { addr = w.next + 1; bytes = content });
    size = length content;
    protocol = v9;
    session = none;
  }

  -- The decapsulation of a supported packet of at least ten bytes, all of its payload, whose length
  -- fits a `size_t` and whose first byte is a byte, hands on a packet without a session, of the protocol that byte
  -- 9 names, and its content is what follows the header: the header's bytes and the content make up
  -- the payload. It takes two blocks.
  pub decapsulate-ip_datagram :
      (block : ℕ) (session : Option Session) (w : World)
      → IsByte v0
      → length rest + 10 < 2 ^ 64
      → handles (some (ip_datagram block session)) ≡ ok true
      → (content : Bytes) × (decapsulate (some (ip_datagram block session)) w
          ≡ ok (
            some (content_packet w content),
            record w { live = (w.next + 1) ∷ w.next ∷ w.live; next = w.next + 1 + 1 },
          ))
        × (take header_size (v0 ∷ v1 ∷ v2 ∷ v3 ∷ v4 ∷ v5 ∷ v6 ∷ v7 ∷ v8 ∷ v9 ∷ rest) ++ content
            ≡ v0 ∷ v1 ∷ v2 ∷ v3 ∷ v4 ∷ v5 ∷ v6 ∷ v7 ∷ v8 ∷ v9 ∷ rest)
  unfolding decapsulate run malloc byte_at
  decapsulate-ip_datagram block session w hb fits supported =
      let bytes : Bytes = v0 ∷ v1 ∷ v2 ∷ v3 ∷ v4 ∷ v5 ∷ v6 ∷ v7 ∷ v8 ∷ v9 ∷ rest in
      let content : Bytes = drop header_size bytes in
      let inside = ((handles-ip_datagram block session hb).0 supported).0 in
      let left : sub_size (length bytes) header_size ≡ length content =
        omega (arith, length-drop header_size bytes) in
      let low : bits v0 0 4 ≡ v0 % 16 = omega arith in
      let source : Buffer = record { addr = block + 1; bytes = bytes } in
      (
        content,
        rw (
          supported,
          low,
          left,
          bytes_at-ok source header_size (length content)
              (omega (arith, length-drop header_size bytes)),
          take-length (length content) content (omega arith),
        ),
        take-append-drop header_size bytes,
      )

module _ (v0 v1 v2 v3 v4 v5 v6 v7 v8 v9 k1 k2 s1 s2 s3 s4 d1 d2 d3 d4 : ℕ) (rest : Bytes) where
  -- A whole header of twenty bytes with its addresses.
  abbrev pub whole_datagram : ℕ → Option Session → Packet
  whole_datagram =
      ip_datagram v0 v1 v2 v3 v4 v5 v6 v7 v8 v9
        (k1 ∷ k2 ∷ s1 ∷ s2 ∷ s3 ∷ s4 ∷ d1 ∷ d2 ∷ d3 ∷ d4 ∷ rest)

  -- What is printed of it.
  abbrev pub ip_lines : List Print
  ip_lines =
      line ip_output_header []
      ∷ line "Source address : %s\n" (text (dotted s1 s2 s3 s4) ∷ [])
      ∷ line "Destination address : %s\n" (text (dotted d1 d2 d3 d4) ∷ [])
      ∷ line "Checksum : 0x%x\n" (int (be16 k1 k2) ∷ [])
      ∷ line ip_output_footer []
      ∷ []

  -- The dump of a supported packet with a header of twenty bytes prints the header, both addresses as
  -- dotted quads, the checksum as the big-endian number on the wire, and the footer, and changes
  -- nothing else; the bytes of the checksum and of the addresses are bytes.
  pub dump-ip_datagram :
      (block : ℕ) (session : Option Session) (w : World)
      → All IsByte (k1 ∷ k2 ∷ [])
      → All IsByte (s1 ∷ s2 ∷ s3 ∷ s4 ∷ [])
      → All IsByte (d1 ∷ d2 ∷ d3 ∷ d4 ∷ [])
      → handles (some (whole_datagram block session)) ≡ ok true
      → dump (some (whole_datagram block session)) w ≡ prints w ip_lines
  unfolding dump run le32
  dump-ip_datagram block session w (hk1, (hk2, _)) hs hd supported =
      rw
        (
          supported,
          inet_ntoa-le32 s1 s2 s3 s4 hs,
          inet_ntoa-le32 d1 d2 d3 d4 hd,
          ntohs-le16 k1 k2 hk1 hk2,
        )
        (simp append_assoc)

-- A supported packet of at most fifteen bytes, all of its payload, is dumped by reading its source
-- address outside the payload.
pub dump-short :
    (p : Packet) (b : Buffer) (w : World)
    → p.payload ≡ some b
    → length b.bytes ≤ 15
    → handles (some p) ≡ ok true
    → dump (some p) w ≡ fault out_of_bounds
unfolding dump run
dump-short p b w e short supported = rw (supported, data_of-some p b e, le32-fault b 12 short)
