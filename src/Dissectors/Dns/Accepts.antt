-- ===== src/Dissectors/Dns/Accepts.antt =====
-- src/dissectors/dns/dns.c: which payloads `dns_dissector_handles` takes for DNS.
use open_sniffer.Base.{
  ℕ, ◌+◌, ◌*◌, ◌/◌, ◌%◌, ◌≡◌, ◌≤◌, ◌<◌, ◌↔◌, inl, inr, true, false, Option, some, [], ◌∷◌, Bytes,
  All, length, ltb, Bool-cases, ltb→lt, ltb→le, arith,
}
use open_sniffer.Base.Words.{bits}
use open_sniffer.Machine.{ok, byte_at, le16}
use open_sniffer.Osi.Packet.{Packet, Session}
use open_sniffer.Dissectors.Wire.{ntohs-le16, long_enough, be16, IsByte, packet_of}
use open_sniffer.Dissectors.Dns.Header.{field16, minimum_size, get_minimum_packet_size, handles}

module _ (i1 i2 v2 v3 q1 q2 a1 a2 n1 n2 r1 r2 : ℕ) (rest : Bytes) where
  -- A DNS message: `v2` and `v3` hold the flags, then come the counts of questions, of answers, of
  -- servers and of additional records.
  abbrev pub dns_message : ℕ → ℕ → Option Session → Packet
  dns_message block protocol session =
      packet_of block protocol session
        (i1 ∷ i2 ∷ v2 ∷ v3 ∷ q1 ∷ q2 ∷ a1 ∷ a2 ∷ n1 ∷ n2 ∷ r1 ∷ r2 ∷ rest)

  -- Four bytes for each question, and ten for each answer of a response.
  abbrev pub records_size : ℕ
  records_size = be16 q1 q2 * 4 + v2 / 128 * (be16 a1 a2 * 10)

  -- What is asked of a message: the unused bit is 0, the response code is at most 5, there are at
  -- most five questions and ten answers, and what follows the header has room for them.
  pub record IsPlausible : Type 0 where
    pub unused_zero : v3 / 64 % 2 ≡ 0
    pub known_code : v3 % 16 ≤ 5
    pub few_questions : be16 q1 q2 ≤ 5
    pub few_answers : be16 a1 a2 ≤ 10
    pub has_room : records_size ≤ length rest

  -- Of the payloads with a whole header of bytes that come with a session, taken for DNS are exactly the
  -- plausible ones, of whatever protocol.
  pub handles-dns_message :
      (block protocol : ℕ) (session : Session)
      → All IsByte (v2 ∷ v3 ∷ q1 ∷ q2 ∷ a1 ∷ a2 ∷ [])
      → (handles (some (dns_message block protocol (some session))) ≡ ok true) ↔ IsPlausible
  unfolding handles field16 le16 byte_at get_minimum_packet_size minimum_size
  handles-dns_message block protocol session (h2, (h3, (hq1, (hq2, (ha1, (ha2, _)))))) =
      let n : ℕ = (dns_message block protocol (some session)).size in
      rw (long_enough 12 n (omega arith), ntohs-le16 q1 q2 hq1 hq2, ntohs-le16 a1 a2 ha1 ha2)
        (elim (Bool-cases (ltb v2 128)) [
          | inl e ↦
              let flag : bits v2 7 1 ≡ 0 = omega (arith, ltb→lt v2 128 e) in
              let high : v2 / 128 ≡ 0 = omega (arith, ltb→lt v2 128 e) in
              let room : records_size ≡ be16 q1 q2 * 4 = rw high (omega arith) in
              rw flag (
                λ h. record {
                  unused_zero = ground arith;
                  known_code = ground arith;
                  few_questions = ground arith;
                  few_answers = ground arith;
                  has_room = ground arith;
                },
                λ v. ground (
                  arith, v.unused_zero, v.known_code, v.few_questions, v.few_answers, v.has_room,
                ),
              )
          | inr e ↦
              let flag : bits v2 7 1 ≡ 1 = omega (arith, ltb→le v2 128 e) in
              let high : v2 / 128 ≡ 1 = omega (arith, ltb→le v2 128 e) in
              let room : records_size ≡ be16 q1 q2 * 4 + be16 a1 a2 * 10 = rw high (omega arith) in
              rw flag (
                λ h. record {
                  unused_zero = ground arith;
                  known_code = ground arith;
                  few_questions = ground arith;
                  few_answers = ground arith;
                  has_room = ground arith;
                },
                λ v. ground (
                  arith, v.unused_zero, v.known_code, v.few_questions, v.few_answers, v.has_room,
                ),
              )
        ])

  -- A payload that comes with a session is left to the next dissector if the header counts more
  -- than five questions.
  pub refuses-dns_message :
      (block protocol : ℕ) (session : Session)
      → All IsByte (q1 ∷ q2 ∷ [])
      → 5 < be16 q1 q2
      → handles (some (dns_message block protocol (some session))) ≡ ok false
  unfolding handles field16 le16 byte_at
  refuses-dns_message block protocol session (hq1, (hq2, _)) many =
      rw
        (
          long_enough 12 (dns_message block protocol (some session)).size (omega arith),
          ntohs-le16 q1 q2 hq1 hq2,
        )
        (ground arith)
