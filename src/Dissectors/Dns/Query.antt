-- ===== src/Dissectors/Dns/Query.antt =====
-- src/dissectors/dns/dns.c: the dump of a query with one question.
use mathlib.Core.List.{append_assoc}
use open_sniffer.Base.{
  ℕ, ◌+◌, ◌/◌, ◌%◌, ◌≡◌, ◌≤◌, ◌<◌, refl, ap, true, some, List, [], ◌∷◌, ◌++◌, Bytes, All, length,
  length-append, arith,
}
use open_sniffer.Base.Words.{bits}
use open_sniffer.Machine.{Print, ok, World, text, int, str, Buffer, byte_at, le16, run}
use open_sniffer.Osi.Packet.{Packet, Session, data_of}
use open_sniffer.Dissectors.Wire.{ntohs-le16, be16, IsByte, line, prints}
use open_sniffer.Dissectors.Dns.Types.{type_to_string}
use open_sniffer.Dissectors.Dns.Asked.{IsPrinted, asked, asked_buffer, field16-tail, one_question}
use open_sniffer.Dissectors.Dns.Header.{field16, handles}
use open_sniffer.Dissectors.Dns.Accepts.{handles-dns_message}
use open_sniffer.Dissectors.Dns.Expand.Names.{text_of}
use open_sniffer.Dissectors.Dns.Expand.Encode.{encode}
use open_sniffer.Dissectors.Dns.Questions.{show_query_type, dump_query_packet}
use open_sniffer.Dissectors.Dns.Dump.{
  dns_output_header, dns_output_footer, dump_body, dump_header, type_of_packet, dump,
}

module _ (i1 i2 v2 v3 a1 a2 n1 n2 r1 r2 : ℕ) (labels : List Bytes) (t1 t2 c1 c2 : ℕ)
    (after : Bytes) where
  abbrev tail : Bytes
  tail = t1 ∷ t2 ∷ c1 ∷ c2 ∷ after

  -- A query with one question: a name without compression, its type and its class.
  abbrev pub query : ℕ → ℕ → Session → Packet
  query = asked i1 i2 v2 v3 a1 a2 n1 n2 r1 r2 labels tail

  abbrev query_buffer : ℕ → Buffer
  query_buffer = asked_buffer i1 i2 v2 v3 a1 a2 n1 n2 r1 r2 labels tail

  -- What is printed of it.
  abbrev pub query_lines : List Print
  query_lines =
      line dns_output_header []
      ∷ line "Identifier : %d\n" (int (be16 i1 i2) ∷ [])
      ∷ line "Type of packet : %s\n" (str "QUERY" ∷ [])
      ∷ line "# of questions : %d\n" (int 1 ∷ [])
      ∷ line "Query : %s\n" (text (text_of labels) ∷ [])
      ∷ line "Query type : %s (%u)\n" (str (type_to_string (be16 t1 t2)) ∷ int (be16 t1 t2) ∷ [])
      ∷ line dns_output_footer []
      ∷ []

  -- The header of a query without an error, and a name that can be printed.
  pub record IsQuery : Type 0 where
    pub bytes : All IsByte (i1 ∷ i2 ∷ v2 ∷ v3 ∷ a1 ∷ a2 ∷ t1 ∷ t2 ∷ [])
    pub no_response : v2 < 128
    pub no_error : v3 % 16 ≡ 0
    pub unused_zero : v3 / 64 % 2 ≡ 0
    pub few_answers : be16 a1 a2 ≤ 10
    pub name : IsPrinted labels

  module _ (q : IsQuery) (block protocol : ℕ) (session : Session) where
    abbrev p : Packet
    p = query block protocol session

    type_at : field16 (query_buffer block) (12 + length (encode labels)) ≡ ok (be16 t1 t2)
    unfolding field16 le16 byte_at
    type_at =
        let (_, (_, (_, (_, (_, (_, (h1, (h2, _)))))))) = q.bytes in
        rw
          (field16-tail i1 i2 v2 v3 a1 a2 n1 n2 r1 r2 labels tail block 0
            (12 + length (encode labels)) (omega arith))
          (ap ok (ntohs-le16 t1 t2 h1 h2))

    one_count : field16 (query_buffer block) 4 ≡ ok 1
    unfolding field16 le16 byte_at
    one_count = refl

    queried :
        (w : World)
        → dump_query_packet p (query_buffer block) w
          ≡ prints w (
              line "# of questions : %d\n" (int 1 ∷ [])
              ∷ line "Query : %s\n" (text (text_of labels) ∷ [])
              ∷ line "Query type : %s (%u)\n"
                  (str (type_to_string (be16 t1 t2)) ∷ int (be16 t1 t2) ∷ [])
              ∷ [])
    unfolding dump_query_packet show_query_type run
    queried w =
        let opened : World = record w {
          output = w.output ++ line "# of questions : %d\n" (int 1 ∷ []) ∷ [];
        } in
        rw
          (
            one_count,
            one_question i1 i2 v2 v3 a1 a2 n1 n2 r1 r2 labels tail q.name block protocol session
                "Query : %s\n" opened,
            type_at,
          )
          (simp append_assoc)

    -- The fields of the header of a query.
    identifier_at : field16 (query_buffer block) 0 ≡ ok (be16 i1 i2)
    unfolding field16 le16 byte_at
    identifier_at = ap ok (ntohs-le16 i1 i2 q.bytes.0 q.bytes.1.0)

    accepted : handles (some p) ≡ ok true
    accepted =
        let (_, (_, (h2, (h3, (ha1, (ha2, _)))))) = q.bytes in
        let no_response : v2 / 128 ≡ 0 = omega (arith, q.no_response) in
        (handles-dns_message i1 i2 v2 v3 0 1 a1 a2 n1 n2 r1 r2 (encode labels ++ tail) block
            protocol session (h2, (h3, (omega arith, (omega arith, (ha1, (ha2, tt))))))).1
          (record {
            unused_zero = q.unused_zero;
            known_code = omega (arith, q.no_error);
            few_questions = omega arith;
            few_answers = q.few_answers;
            has_room = rw no_response (omega (arith, length-append (encode labels) tail));
          })

    module _ (inet_ntop6 : Bytes → Bytes) where
      dumped_header :
          (w : World) → dump_header inet_ntop6 (p, query_buffer block) w ≡ prints w query_lines
      unfolding dump_header dump_body type_of_packet byte_at run
      dumped_header w =
          let flag : bits v2 7 1 ≡ 0 = omega (arith, q.no_response) in
          let code : bits v3 0 4 ≡ 0 = omega (arith, q.no_error) in
          rw
            (
              identifier_at,
              flag,
              code,
              queried (record w {
                output =
                    ((w.output ++ line dns_output_header [] ∷ [])
                      ++ line "Identifier : %d\n" (int (be16 i1 i2) ∷ []) ∷ [])
                    ++ line "Type of packet : %s\n" (str "QUERY" ∷ []) ∷ [];
              }),
            )
            (simp append_assoc)

      -- A query with one question, whose header has no error, its unused bit 0 and at most ten
      -- answers counted, and whose name has labels of 1 to 63 bytes, no byte 0, less than 254
      -- characters and no compression, where the fields are bytes, is taken for DNS when it comes
      -- with a session. Its dump prints the identifier, the name with dots between its labels, and
      -- the type of the question with its number, between the header and the footer, and changes
      -- nothing else.
      pub dump-query :
          (w : World)
          → (handles (some (query block protocol session)) ≡ ok true)
            × (dump inet_ntop6 (some (query block protocol session)) w ≡ prints w query_lines)
      unfolding dump data_of run
      dump-query w = (accepted, rw accepted (dumped_header w))
