-- ===== src/Dissectors/Dns/Response/Whole.antt =====
-- src/dissectors/dns/dns.c: the dump of a response with one question and one address.
use mathlib.Core.List.{append_assoc}
use open_sniffer.Base.{
  ℕ, ◌/◌, ◌≡◌, refl, ap, true, some, List, [], ◌∷◌, ◌++◌, Bytes, length-append, arith,
}
use open_sniffer.Base.Words.{bits}
use open_sniffer.Machine.{ok, World, Print, text, int, str, byte_at, le16, run}
use open_sniffer.Inaddr.Dotted.{dotted}
use open_sniffer.Osi.Packet.{Packet, Session, data_of}
use open_sniffer.Dissectors.Wire.{ntohs-le16, be16, line, prints}
use open_sniffer.Dissectors.Dns.Types.{type_to_string}
use open_sniffer.Dissectors.Dns.Asked.{one_question}
use open_sniffer.Dissectors.Dns.Header.{field16, handles}
use open_sniffer.Dissectors.Dns.Accepts.{handles-dns_message}
use open_sniffer.Dissectors.Dns.Expand.Names.{text_of}
use open_sniffer.Dissectors.Dns.Expand.Encode.{encode}
use open_sniffer.Dissectors.Dns.Dump.{
  dns_output_header, response_format, dump_response_packet, dump_body, dump_header, type_of_packet,
  dump,
}
use open_sniffer.Dissectors.Dns.Response.{tail, response, buffer, IsResponse, response_lines}
use open_sniffer.Dissectors.Dns.Response.Address.{bodied}

module _ (i1 i2 v2 v3 n1 n2 r1 r2 : ℕ) (labels : List Bytes)
    (t1 t2 c1 c2 p1 p2 y1 y2 z1 z2 z3 z4 m1 m2 b1 b2 b3 b4 : ℕ) (after : Bytes) where
  module _
      (q : IsResponse i1 i2 v2 v3 n1 n2 r1 r2 labels t1 t2 c1 c2 p1 p2 y1 y2 z1 z2 z3 z4 m1 m2 b1 b2
        b3 b4 after)
      (block protocol : ℕ) (session : Session) (inet_ntop6 : Bytes → Bytes) where
    abbrev p : Packet
    p =
        response i1 i2 v2 v3 n1 n2 r1 r2 labels t1 t2 c1 c2 p1 p2 y1 y2 z1 z2 z3 z4 m1 m2 b1 b2 b3
          b4 after block protocol session

    -- The counts in the header.
    counts :
        (field16
            (buffer i1 i2 v2 v3 n1 n2 r1 r2 labels t1 t2 c1 c2 p1 p2 y1 y2 z1 z2 z3 z4 m1 m2 b1 b2
              b3 b4 after block)
            0
          ≡ ok (be16 i1 i2))
        × (field16
              (buffer i1 i2 v2 v3 n1 n2 r1 r2 labels t1 t2 c1 c2 p1 p2 y1 y2 z1 z2 z3 z4 m1 m2 b1 b2
                b3 b4 after block)
              4
            ≡ ok 1)
        × (field16
              (buffer i1 i2 v2 v3 n1 n2 r1 r2 labels t1 t2 c1 c2 p1 p2 y1 y2 z1 z2 z3 z4 m1 m2 b1 b2
                b3 b4 after block)
              6
            ≡ ok 1)
        × (field16
              (buffer i1 i2 v2 v3 n1 n2 r1 r2 labels t1 t2 c1 c2 p1 p2 y1 y2 z1 z2 z3 z4 m1 m2 b1 b2
                b3 b4 after block)
              8
            ≡ ok (be16 n1 n2))
        × (field16
              (buffer i1 i2 v2 v3 n1 n2 r1 r2 labels t1 t2 c1 c2 p1 p2 y1 y2 z1 z2 z3 z4 m1 m2 b1 b2
                b3 b4 after block)
              10
            ≡ ok (be16 r1 r2))
    unfolding field16 le16 byte_at
    counts =
        let (h1, (h2, (h3, (h4, (h5, (h6, _)))))) = q.bytes in
        (
          ap ok (ntohs-le16 i1 i2 h1 h2),
          refl,
          refl,
          ap ok (ntohs-le16 n1 n2 h3 h4),
          ap ok (ntohs-le16 r1 r2 h5 h6),
        )

    accepted : handles (some p) ≡ ok true
    accepted =
        let (h2, (h3, _)) = q.flags in
        let response : v2 / 128 ≡ 1 = omega (arith, q.is_response) in
        (handles-dns_message i1 i2 v2 v3 0 1 0 1 n1 n2 r1 r2
            (encode labels
              ++ tail i1 i2 v2 v3 n1 n2 r1 r2 labels t1 t2 c1 c2 p1 p2 y1 y2 z1 z2 z3 z4 m1 m2 b1 b2
                  b3 b4 after)
            block protocol session
            (h2, (h3, (omega arith, (omega arith, (omega arith, (omega arith, tt))))))).1
          (record {
            unused_zero = q.unused_zero;
            known_code = omega (arith, q.no_error);
            few_questions = omega arith;
            few_answers = omega arith;
            has_room = rw response (
                omega (
                  arith,
                  length-append (encode labels) (
                      tail i1 i2 v2 v3 n1 n2 r1 r2 labels t1 t2 c1 c2 p1 p2 y1 y2 z1 z2 z3 z4 m1 m2
                        b1 b2 b3 b4 after),
                ));
          })

    responded :
        (w : World)
        → dump_response_packet inet_ntop6 p
            (buffer i1 i2 v2 v3 n1 n2 r1 r2 labels t1 t2 c1 c2 p1 p2 y1 y2 z1 z2 z3 z4 m1 m2 b1 b2
              b3 b4 after block)
            w
          ≡ prints w (
              line "Response code : %d\n" (int 0 ∷ [])
              ∷ line "# of questions : %d\n" (int 1 ∷ [])
              ∷ line "# of answers : %d\n" (int 1 ∷ [])
              ∷ line "# of authoritative servers : %d\n" (int (be16 n1 n2) ∷ [])
              ∷ line "# of additional records : %d\n" (int (be16 r1 r2) ∷ [])
              ∷ line "Query address : %s\n" (text (text_of labels) ∷ [])
              ∷ line "Query type : %s (%u)\n"
                  (str (type_to_string (be16 t1 t2)) ∷ int (be16 t1 t2) ∷ [])
              ∷ line response_format (int 1 ∷ str (type_to_string 1) ∷ [])
              ∷ line "IPv4 address : %s\n" (text (dotted b1 b2 b3 b4) ∷ [])
              ∷ [])
    unfolding dump_response_packet byte_at run
    responded w =
        let (_, questions, answers, servers, additional) = counts in
        let code : bits v3 0 4 ≡ 0 = omega (arith, q.no_error) in
        let counted : List Print =
          ((((w.output ++ line "Response code : %d\n" (int 0 ∷ []) ∷ [])
                ++ line "# of questions : %d\n" (int 1 ∷ []) ∷ [])
              ++ line "# of answers : %d\n" (int 1 ∷ []) ∷ [])
            ++ line "# of authoritative servers : %d\n" (int (be16 n1 n2) ∷ []) ∷ [])
          ++ line "# of additional records : %d\n" (int (be16 r1 r2) ∷ []) ∷ [] in
        let named : List Print =
          counted ++ line "Query address : %s\n" (text (text_of labels) ∷ []) ∷ [] in
        rw
          (
            code,
            questions,
            answers,
            servers,
            additional,
            one_question i1 i2 v2 v3 0 1 n1 n2 r1 r2 labels
                (tail i1 i2 v2 v3 n1 n2 r1 r2 labels t1 t2 c1 c2 p1 p2 y1 y2 z1 z2 z3 z4 m1 m2 b1 b2
                  b3 b4 after)
                q.name block protocol session "Query address : %s\n"
                (record w { output = counted }),
            bodied i1 i2 v2 v3 n1 n2 r1 r2 labels t1 t2 c1 c2 p1 p2 y1 y2 z1 z2 z3 z4 m1 m2 b1 b2 b3
                b4 after q block protocol session inet_ntop6 (record w { output = named }),
          )
          (simp append_assoc)

    dumped :
        (w : World)
        → dump_header inet_ntop6
            (
              p,
              buffer i1 i2 v2 v3 n1 n2 r1 r2 labels t1 t2 c1 c2 p1 p2 y1 y2 z1 z2 z3 z4 m1 m2 b1 b2
                  b3 b4 after block,
            )
            w
          ≡ prints w (
              response_lines i1 i2 v2 v3 n1 n2 r1 r2 labels t1 t2 c1 c2 p1 p2 y1 y2 z1 z2 z3 z4 m1
                m2 b1 b2 b3 b4 after)
    unfolding dump_header dump_body type_of_packet byte_at run
    dumped w =
        let (h2, _) = q.flags in
        let flag : bits v2 7 1 ≡ 1 = omega (arith, q.is_response) in
        let code : bits v3 0 4 ≡ 0 = omega (arith, q.no_error) in
        rw
          (
            counts.0,
            flag,
            code,
            responded (record w {
              output =
                  ((w.output ++ line dns_output_header [] ∷ [])
                    ++ line "Identifier : %d\n" (int (be16 i1 i2) ∷ []) ∷ [])
                  ++ line "Type of packet : %s\n" (str "RESPONSE" ∷ []) ∷ [];
            }),
          )
          (simp append_assoc)

    -- A response with one question and one answer that is an address of IPv4 is taken for DNS when
    -- it comes with a session. Its dump prints the identifier, the response code 0, the four counts,
    -- the name that was asked for with dots between its labels, the type of the question with its
    -- number, and the address as a dotted quad, between the header and the footer, and changes
    -- nothing else. The header has no error and its unused bit 0, the question's name has labels of
    -- 1 to 63 bytes, no byte 0, less than 254 characters and no compression, the answer begins with
    -- two bytes other than 0, as a pointer does, and the bytes of the header, of the question's type
    -- and of the address are bytes.
    pub dump-response :
        (w : World)
        → (handles (
              some (
                response i1 i2 v2 v3 n1 n2 r1 r2 labels t1 t2 c1 c2 p1 p2 y1 y2 z1 z2 z3 z4 m1 m2 b1
                  b2 b3 b4 after block protocol session))
            ≡ ok true)
          × (dump inet_ntop6
                (some (
                  response i1 i2 v2 v3 n1 n2 r1 r2 labels t1 t2 c1 c2 p1 p2 y1 y2 z1 z2 z3 z4 m1 m2
                    b1 b2 b3 b4 after block protocol session))
                w
              ≡ prints w (
                  response_lines i1 i2 v2 v3 n1 n2 r1 r2 labels t1 t2 c1 c2 p1 p2 y1 y2 z1 z2 z3 z4
                    m1 m2 b1 b2 b3 b4 after))
    unfolding dump data_of run
    dump-response w = (accepted, rw accepted (dumped w))
