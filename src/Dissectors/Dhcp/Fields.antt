-- ===== src/Dissectors/Dhcp/Fields.antt =====
-- src/dissectors/dhcp/dhcp.c: which payloads are taken for DHCP, and what is shown of a message.
use mathlib.Core.List.{append_assoc}
use open_sniffer.Base.{
  ℕ, ◌≡◌, ◌≢◌, ◌≤◌, ◌<◌, ◌↔◌, ◌⊎◌, true, false, Option, some, [], ◌∷◌, Bytes, All, arith,
}
use open_sniffer.Machine.{run, World, ok, str, text, int, byte_at, le32}
use open_sniffer.Osi.Packet.{Packet, Session}
use open_sniffer.Inaddr.{stringify_hw_addr, colons}
use open_sniffer.Inaddr.Dotted.{dotted, inet_ntoa-le32}
use open_sniffer.Dissectors.Wire.{be32, ntohl-le32, long_enough, line, prints, IsByte, packet_of}
use open_sniffer.Dissectors.Dhcp.{
  dhcp_output_header, dhcp_output_footer, op_to_string, hw_type_to_string, handles, dump,
}

module _ (protocol op htype x2 x3 x4 x5 x6 x7 : ℕ) (rest : Bytes) where
  -- A payload of at least eight bytes.
  abbrev pub payload : ℕ → Option Session → Packet
  payload block session =
      packet_of block protocol session (op ∷ htype ∷ x2 ∷ x3 ∷ x4 ∷ x5 ∷ x6 ∷ x7 ∷ rest)

  -- Of the payloads of at least eight bytes, taken for DHCP are exactly those whose first byte is 1 or 2
  -- and whose second is at most 20, of whatever protocol and session.
  pub handles-payload :
      (block : ℕ) (session : Option Session)
      → (handles (some (payload block session)) ≡ ok true) ↔ (((op ≡ 1) ⊎ (op ≡ 2)) × (htype ≤ 20))
  unfolding handles byte_at
  handles-payload block session =
      let n : ℕ = (payload block session).size in
      rw (long_enough 8 n (omega arith)) (λ e. ground arith, λ e. ground arith)

  -- The others are left to the next dissector.
  pub refuses-payload :
      (block : ℕ) (session : Option Session)
      → ((op ≢ 1) × (op ≢ 2)) ⊎ (20 < htype)
      → handles (some (payload block session)) ≡ ok false
  unfolding handles byte_at
  refuses-payload block session h =
      let n : ℕ = (payload block session).size in rw (long_enough 8 n (omega arith)) (ground arith)

module _
    (op htype x2 x3 d1 d2 d3 d4 x8 x9 x10 x11 c1 c2 c3 c4 y1 y2 y3 y4 s1 s2 s3 s4 g1 g2 g3 g4 a1 a2
      a3 a4 a5 a6 : ℕ)
    (rest : Bytes) where
  -- A message up to the hardware address of the client.
  abbrev pub dhcp_message : ℕ → ℕ → Option Session → Packet
  dhcp_message protocol = payload protocol op htype x2 x3 d1 d2 d3 d4 (
      x8 ∷ x9 ∷ x10 ∷ x11 ∷ c1 ∷ c2 ∷ c3 ∷ c4 ∷ y1 ∷ y2 ∷ y3 ∷ y4 ∷ s1 ∷ s2 ∷ s3 ∷ s4 ∷ g1 ∷ g2 ∷ g3
      ∷ g4 ∷ a1 ∷ a2 ∷ a3 ∷ a4 ∷ a5 ∷ a6 ∷ rest)

  -- The dump of a handled message prints the header, the kind of the message, the name of the hardware,
  -- the transaction as a big-endian number, the client's, the offered and the server's address as
  -- dotted quads, the client's hardware address, and the footer, and changes nothing else; the
  -- transaction and the addresses consist of bytes.
  pub dump-dhcp_message :
      (block protocol : ℕ) (session : Option Session) (w : World)
      → All IsByte (d1 ∷ d2 ∷ d3 ∷ d4 ∷ [])
      → All IsByte (c1 ∷ c2 ∷ c3 ∷ c4 ∷ [])
      → All IsByte (y1 ∷ y2 ∷ y3 ∷ y4 ∷ [])
      → All IsByte (s1 ∷ s2 ∷ s3 ∷ s4 ∷ [])
      → handles (some (dhcp_message protocol block session)) ≡ ok true
      → dump (some (dhcp_message protocol block session)) w
        ≡ prints w (
            line dhcp_output_header []
            ∷ line "Type : %s\n" (str (op_to_string op) ∷ [])
            ∷ line "Hardware type : %s\n" (str (hw_type_to_string htype) ∷ [])
            ∷ line "XID : %x\n" (int (be32 d1 d2 d3 d4) ∷ [])
            ∷ line "CIADDR : %s\n" (text (dotted c1 c2 c3 c4) ∷ [])
            ∷ line "YIADDR : %s\n" (text (dotted y1 y2 y3 y4) ∷ [])
            ∷ line "SIADDR : %s\n" (text (dotted s1 s2 s3 s4) ∷ [])
            ∷ line "Client address : %s\n" (text (colons a1 a2 a3 a4 a5 a6) ∷ [])
            ∷ line dhcp_output_footer []
            ∷ [])
  unfolding dump run le32 byte_at stringify_hw_addr
  dump-dhcp_message block protocol session w (hd1, (hd2, (hd3, (hd4, _)))) hc hy hs supported =
      rw
        (
          supported,
          ntohl-le32 d1 d2 d3 d4 hd1 hd2 hd3 hd4,
          inet_ntoa-le32 c1 c2 c3 c4 hc,
          inet_ntoa-le32 y1 y2 y3 y4 hy,
          inet_ntoa-le32 s1 s2 s3 s4 hs,
        )
        (simp append_assoc)
