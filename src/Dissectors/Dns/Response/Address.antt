-- ===== src/Dissectors/Dns/Response/Address.antt =====
-- src/dissectors/dns/dns.c: the dump of the one answer of a response.
use mathlib.Core.List.{append_assoc}
use open_sniffer.Base.{
  ℕ, ◌+◌, ◌^◌, ◌*◌, ◌≡◌, refl, ap, true, false, some, List, [], ◌∷◌, ◌++◌, Bytes, length,
  length-append, ltb, ◌==◌, drop, arith,
}
use open_sniffer.Base.Words.{ntohl}
use open_sniffer.Machine.{ok, World, text, int, str, byte_at, le16, le32, run}
use open_sniffer.Inaddr.Dotted.{dotted, inet_ntoa-le32}
use open_sniffer.Osi.Packet.{Packet, Session}
use open_sniffer.Dissectors.Wire.{ntohs-le16, ntohl-le32, be16, be32, IsByte, line, prints}
use open_sniffer.Dissectors.Dns.Types.{type_to_string}
use open_sniffer.Dissectors.Dns.Asked.{tail_buffer, field16-tail, le32-tail, drop-tail}
use open_sniffer.Dissectors.Dns.Header.{field16}
use open_sniffer.Dissectors.Dns.Expand.Encode.{encode}
use open_sniffer.Dissectors.Dns.Dump.{
  response_format, nul_index, ns_get32, a_rr, dump_record, dump_answer, dump_answers,
  dump_response_body,
}
use open_sniffer.Dissectors.Dns.Response.{tail, response, buffer, IsResponse}

-- An address that is turned around twice.
ntohl-be32 :
    (x y z t : ℕ)
    → IsByte x
    → IsByte y
    → IsByte z
    → IsByte t
    → ntohl (be32 x y z t) ≡ x + 2 ^ 8 * y + 2 ^ 16 * (z + 2 ^ 8 * t)
ntohl-be32 x y z t hx hy hz ht = omega arith

module _ (i1 i2 v2 v3 n1 n2 r1 r2 : ℕ) (labels : List Bytes)
    (t1 t2 c1 c2 p1 p2 y1 y2 z1 z2 z3 z4 m1 m2 b1 b2 b3 b4 : ℕ) (after : Bytes) where
  module _
      (q : IsResponse i1 i2 v2 v3 n1 n2 r1 r2 labels t1 t2 c1 c2 p1 p2 y1 y2 z1 z2 z3 z4 m1 m2 b1 b2
        b3 b4 after)
      (block protocol : ℕ) (session : Session) (inet_ntop6 : Bytes → Bytes) where
    abbrev p : Packet
    p =
        response i1 i2 v2 v3 n1 n2 r1 r2 labels t1 t2 c1 c2 p1 p2 y1 y2 z1 z2 z3 z4 m1 m2 b1 b2 b3
          b4 after block protocol session

    -- Where the question's type stands.
    abbrev behind : ℕ
    behind = 12 + length (encode labels)

    field_at :
        (k i : ℕ)
        → i ≡ behind + k
        → field16
            (buffer i1 i2 v2 v3 n1 n2 r1 r2 labels t1 t2 c1 c2 p1 p2 y1 y2 z1 z2 z3 z4 m1 m2 b1 b2
              b3 b4 after block)
            i
          ≡ field16
              (tail_buffer i1 i2 v2 v3 0 1 n1 n2 r1 r2 labels
                (tail i1 i2 v2 v3 n1 n2 r1 r2 labels t1 t2 c1 c2 p1 p2 y1 y2 z1 z2 z3 z4 m1 m2 b1 b2
                  b3 b4 after)
                block)
              k
    field_at k i at =
        field16-tail i1 i2 v2 v3 0 1 n1 n2 r1 r2 labels
          (tail i1 i2 v2 v3 n1 n2 r1 r2 labels t1 t2 c1 c2 p1 p2 y1 y2 z1 z2 z3 z4 m1 m2 b1 b2 b3 b4
            after)
          block k i at

    word_at :
        (k i : ℕ)
        → i ≡ behind + k
        → le32
            (buffer i1 i2 v2 v3 n1 n2 r1 r2 labels t1 t2 c1 c2 p1 p2 y1 y2 z1 z2 z3 z4 m1 m2 b1 b2
              b3 b4 after block)
            i
          ≡ le32
              (tail_buffer i1 i2 v2 v3 0 1 n1 n2 r1 r2 labels
                (tail i1 i2 v2 v3 n1 n2 r1 r2 labels t1 t2 c1 c2 p1 p2 y1 y2 z1 z2 z3 z4 m1 m2 b1 b2
                  b3 b4 after)
                block)
              k
    word_at k i at =
        le32-tail i1 i2 v2 v3 0 1 n1 n2 r1 r2 labels
          (tail i1 i2 v2 v3 n1 n2 r1 r2 labels t1 t2 c1 c2 p1 p2 y1 y2 z1 z2 z3 z4 m1 m2 b1 b2 b3 b4
            after)
          block k i at

    type_at :
        field16
          (buffer i1 i2 v2 v3 n1 n2 r1 r2 labels t1 t2 c1 c2 p1 p2 y1 y2 z1 z2 z3 z4 m1 m2 b1 b2 b3
            b4 after block)
          behind
        ≡ ok (be16 t1 t2)
    unfolding field16 le16 byte_at
    type_at =
        let (_, (_, (_, (_, (_, (_, (h1, (h2, _)))))))) = q.bytes in
        rw (field_at 0 behind (omega arith)) (ap ok (ntohs-le16 t1 t2 h1 h2))

    -- The pointer is skipped: the next byte is 0.
    pointer_skipped :
        nul_index (
          drop
            (behind + 4)
            (buffer i1 i2 v2 v3 n1 n2 r1 r2 labels t1 t2 c1 c2 p1 p2 y1 y2 z1 z2 z3 z4 m1 m2 b1 b2
              b3 b4 after block).bytes)
        ≡ ok 2
    unfolding nul_index
    pointer_skipped =
        let first : (p1 == 0) ≡ false = ground (arith, q.pointer.0) in
        let second : (p2 == 0) ≡ false = ground (arith, q.pointer.1) in
        rw
          (
            drop-tail i1 i2 v2 v3 0 1 n1 n2 r1 r2 labels
                (tail i1 i2 v2 v3 n1 n2 r1 r2 labels t1 t2 c1 c2 p1 p2 y1 y2 z1 z2 z3 z4 m1 m2 b1 b2
                  b3 b4 after)
                block 4 (behind + 4) refl,
            first,
            second,
          )
          refl

    address_at :
        a_rr
          (buffer i1 i2 v2 v3 n1 n2 r1 r2 labels t1 t2 c1 c2 p1 p2 y1 y2 z1 z2 z3 z4 m1 m2 b1 b2 b3
            b4 after block)
          (behind + 4 + 2 + 10)
        ≡ ok (dotted b1 b2 b3 b4, behind + 4 + 2 + 10 + 4)
    unfolding a_rr ns_get32 le32 le16 byte_at
    address_at =
        let (h1, (h2, (h3, (h4, _)))) = q.address in
        rw
          (
            word_at 16 (behind + 4 + 2 + 10) (omega arith),
            ntohl-le32 b1 b2 b3 b4 h1 h2 h3 h4,
            ntohl-be32 b1 b2 b3 b4 h1 h2 h3 h4,
            inet_ntoa-le32 b1 b2 b3 b4 q.address,
          )
          refl

    answered :
        (w : World)
        → dump_answer inet_ntop6 p
            (buffer i1 i2 v2 v3 n1 n2 r1 r2 labels t1 t2 c1 c2 p1 p2 y1 y2 z1 z2 z3 z4 m1 m2 b1 b2
              b3 b4 after block)
            0
            (behind + 4)
            w
          ≡ ok (
            some (behind + 4 + 2 + 10 + 4),
            record w {
              output =
                  (w.output ++ line response_format (int 1 ∷ str (type_to_string 1) ∷ []) ∷ [])
                  ++ line "IPv4 address : %s\n" (text (dotted b1 b2 b3 b4) ∷ []) ∷ [];
            },
          )
    unfolding dump_answer dump_record ns_get32 run field16 le32 le16 byte_at
    answered w =
        rw
          (
            pointer_skipped,
            field_at 6 (behind + 4 + 2) (omega arith),
            field_at 8 (behind + 4 + 2 + 2) (omega arith),
            word_at 10 (behind + 4 + 2 + 4) (omega arith),
            field_at 14 (behind + 4 + 2 + 8) (omega arith),
            address_at,
          )
          refl

    -- The loop over the one answer.
    all_answered :
        (w : World)
        → dump_answers inet_ntop6 p
            (buffer i1 i2 v2 v3 n1 n2 r1 r2 labels t1 t2 c1 c2 p1 p2 y1 y2 z1 z2 z3 z4 m1 m2 b1 b2
              b3 b4 after block)
            1
            0
            (behind + 4)
            w
          ≡ prints w (
              line response_format (int 1 ∷ str (type_to_string 1) ∷ [])
              ∷ line "IPv4 address : %s\n" (text (dotted b1 b2 b3 b4) ∷ [])
              ∷ [])
    unfolding dump_answers run
    all_answered w =
        let more : ltb (behind + 4) p.size ≡ true = ground (
          arith,
          length-append (encode labels) (
              tail i1 i2 v2 v3 n1 n2 r1 r2 labels t1 t2 c1 c2 p1 p2 y1 y2 z1 z2 z3 z4 m1 m2 b1 b2 b3
                b4 after),
        ) in
        rw (dump_answers, more, answered w) (simp append_assoc)

    pub bodied :
        (w : World)
        → dump_response_body inet_ntop6 p
            (buffer i1 i2 v2 v3 n1 n2 r1 r2 labels t1 t2 c1 c2 p1 p2 y1 y2 z1 z2 z3 z4 m1 m2 b1 b2
              b3 b4 after block)
            1
            (some behind)
            w
          ≡ prints w (
              line "Query type : %s (%u)\n"
                (str (type_to_string (be16 t1 t2)) ∷ int (be16 t1 t2) ∷ [])
              ∷ line response_format (int 1 ∷ str (type_to_string 1) ∷ [])
              ∷ line "IPv4 address : %s\n" (text (dotted b1 b2 b3 b4) ∷ [])
              ∷ [])
    unfolding dump_response_body run field16 le16 byte_at
    bodied w =
        let opened : World = record w {
          output =
              w.output
              ++ line "Query type : %s (%u)\n"
                  (str (type_to_string (be16 t1 t2)) ∷ int (be16 t1 t2) ∷ [])
                ∷ [];
        } in
        rw (type_at, field_at 2 (behind + 2) refl, all_answered opened) (simp append_assoc)
