-- ===== src/Dissectors/Dns/Response.antt =====
-- src/dissectors/dns/dns.c: a response with one question and one address.
pub mod Address
pub mod Whole
use mathlib.Core.List.{append_assoc}
use open_sniffer.Base.{
  ℕ, ◌+◌, ◌/◌, ◌%◌, ◌^◌, ◌*◌, ◌≡◌, ◌≢◌, ◌≤◌, refl, ap, true, false, some, List, [], ◌∷◌, ◌++◌,
  Bytes, All, length, length-append, ltb, ◌==◌, drop, arith,
}
use open_sniffer.Base.Words.{ntohl, bits}
use open_sniffer.Machine.{ok, World, Print, text, int, str, Buffer, byte_at, le16, le32, run}
use open_sniffer.Inaddr.Dotted.{dotted, inet_ntoa-le32}
use open_sniffer.Osi.Packet.{Packet, Session, data_of}
use open_sniffer.Dissectors.Wire.{ntohs-le16, ntohl-le32, be16, be32, IsByte, line, prints}
use open_sniffer.Dissectors.Dns.Types.{type_to_string}
use open_sniffer.Dissectors.Dns.Asked.{
  IsPrinted, asked, asked_buffer, tail_buffer, field16-tail, le32-tail, drop-tail, one_question,
}
use open_sniffer.Dissectors.Dns.Header.{field16, handles}
use open_sniffer.Dissectors.Dns.Accepts.{handles-dns_message}
use open_sniffer.Dissectors.Dns.Expand.Names.{text_of}
use open_sniffer.Dissectors.Dns.Expand.Encode.{encode}
use open_sniffer.Dissectors.Dns.Dump.{
  dns_output_header, dns_output_footer, response_format, nul_index, ns_get32, a_rr, dump_record,
  dump_answer, dump_answers, dump_response_body, dump_response_packet, dump_body, dump_header,
  type_of_packet, dump,
}

module _ (i1 i2 v2 v3 n1 n2 r1 r2 : ℕ) (labels : List Bytes)
    (t1 t2 c1 c2 p1 p2 y1 y2 z1 z2 z3 z4 m1 m2 b1 b2 b3 b4 : ℕ) (after : Bytes) where
  abbrev answer : Bytes
  answer = p1 ∷ p2 ∷ 0 ∷ 1 ∷ y1 ∷ y2 ∷ z1 ∷ z2 ∷ z3 ∷ z4 ∷ m1 ∷ m2 ∷ b1 ∷ b2 ∷ b3 ∷ b4 ∷ after

  abbrev pub tail : Bytes
  tail = t1 ∷ t2 ∷ c1 ∷ c2 ∷ answer

  -- A response: the question with its type and class, then a pointer to a name, the type A, a class, a
  -- lifetime, a length and an address.
  abbrev pub response : ℕ → ℕ → Session → Packet
  response = asked i1 i2 v2 v3 0 1 n1 n2 r1 r2 labels tail

  abbrev pub buffer : ℕ → Buffer
  buffer = asked_buffer i1 i2 v2 v3 0 1 n1 n2 r1 r2 labels tail

  -- The header of a response without an error, a name that can be printed, and a pointer without a
  -- byte 0.
  pub record IsResponse : Type 0 where
    pub flags : All IsByte (v2 ∷ v3 ∷ [])
    pub bytes : All IsByte (i1 ∷ i2 ∷ n1 ∷ n2 ∷ r1 ∷ r2 ∷ t1 ∷ t2 ∷ [])
    pub address : All IsByte (b1 ∷ b2 ∷ b3 ∷ b4 ∷ [])
    pub is_response : 128 ≤ v2
    pub no_error : v3 % 16 ≡ 0
    pub unused_zero : v3 / 64 % 2 ≡ 0
    pub name : IsPrinted labels
    pub pointer : (p1 ≢ 0) × (p2 ≢ 0)

  -- What is printed of it.
  abbrev pub response_lines : List Print
  response_lines =
      line dns_output_header []
      ∷ line "Identifier : %d\n" (int (be16 i1 i2) ∷ [])
      ∷ line "Type of packet : %s\n" (str "RESPONSE" ∷ [])
      ∷ line "Response code : %d\n" (int 0 ∷ [])
      ∷ line "# of questions : %d\n" (int 1 ∷ [])
      ∷ line "# of answers : %d\n" (int 1 ∷ [])
      ∷ line "# of authoritative servers : %d\n" (int (be16 n1 n2) ∷ [])
      ∷ line "# of additional records : %d\n" (int (be16 r1 r2) ∷ [])
      ∷ line "Query address : %s\n" (text (text_of labels) ∷ [])
      ∷ line "Query type : %s (%u)\n" (str (type_to_string (be16 t1 t2)) ∷ int (be16 t1 t2) ∷ [])
      ∷ line response_format (int 1 ∷ str (type_to_string 1) ∷ [])
      ∷ line "IPv4 address : %s\n" (text (dotted b1 b2 b3 b4) ∷ [])
      ∷ line dns_output_footer []
      ∷ []
