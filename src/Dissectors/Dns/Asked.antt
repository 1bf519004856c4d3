-- ===== src/Dissectors/Dns/Asked.antt =====
-- src/dissectors/dns/dns.c: a message with one question, and the reads behind its name.
use open_sniffer.Base.{
  ℕ, ◌+◌, ◌≡◌, ◌≢◌, ◌<◌, refl, ap, true, false, some, List, [], ◌∷◌, ◌++◌, Bytes, All, length,
  length-append, ltb, ◌==◌, drop, get_elem?-shift, drop-shift, String, arith,
}
use open_sniffer.Machine.{ok, World, text, Buffer, byte_at, le16, le32, run}
use open_sniffer.Osi.Packet.{Packet, Session}
use open_sniffer.Dissectors.Wire.{line, packet_of}
use open_sniffer.Dissectors.Dns.Header.{field16}
use open_sniffer.Dissectors.Dns.Expand.{dn_expand}
use open_sniffer.Dissectors.Dns.Expand.Names.{text_of}
use open_sniffer.Dissectors.Dns.Expand.Encode.{encode, length-encode, IsName, dn_expand-encode}
use open_sniffer.Dissectors.Dns.Questions.{c_string, name_at, show_name, dump_questions}

-- A text without a 0 is printed whole.
c_string-whole : (xs : Bytes) → All (λ x. x ≢ 0) xs → c_string xs ≡ xs
unfolding c_string
c_string-whole [] h = refl
c_string-whole (x ∷ xs) h =
    let some_byte : (x == 0) ≡ false = ground (arith, h.0) in
    rw some_byte (ap (◌∷◌ x) (c_string-whole xs h.1))

-- A name that can be printed: labels of 1 to 63 bytes, less than 254 characters in all, and no byte 0.
pub record IsPrinted (labels : List Bytes) : Type 0 where
  pub is_name : IsName labels
  pub fits : length (text_of labels) < 254
  pub no_zero : All (λ x. x ≢ 0) (text_of labels)

module _ (i1 i2 v2 v3 a1 a2 n1 n2 r1 r2 : ℕ) (labels : List Bytes) (tail : Bytes) where
  abbrev pub head : Bytes
  head = i1 ∷ i2 ∷ v2 ∷ v3 ∷ 0 ∷ 1 ∷ a1 ∷ a2 ∷ n1 ∷ n2 ∷ r1 ∷ r2 ∷ []

  -- The bytes of a message with one question, whose name is written without compression.
  abbrev pub asked_bytes : Bytes
  asked_bytes = head ++ (encode labels ++ tail)

  abbrev pub asked : ℕ → ℕ → Session → Packet
  asked block protocol session = packet_of block protocol (some session) asked_bytes

  abbrev pub asked_buffer : ℕ → Buffer
  asked_buffer block = record { addr = block + 1; bytes = asked_bytes }

  abbrev pub tail_buffer : ℕ → Buffer
  tail_buffer block = record { addr = block + 1; bytes = tail }

  module _ (block : ℕ) where
    -- A read behind the name is one of what stands there.
    pub field16-tail :
        (k i : ℕ)
        → i ≡ 12 + length (encode labels) + k
        → field16 (asked_buffer block) i ≡ field16 (tail_buffer block) k
    unfolding field16 le16 byte_at
    field16-tail k i at =
        rw
          (
            get_elem?-shift (head ++ encode labels) tail k i (omega arith),
            get_elem?-shift (head ++ encode labels) tail (k + 1) (i + 1) (omega arith),
          )
          refl

    pub le32-tail :
        (k i : ℕ)
        → i ≡ 12 + length (encode labels) + k
        → le32 (asked_buffer block) i ≡ le32 (tail_buffer block) k
    unfolding le32 le16 byte_at
    le32-tail k i at =
        rw
          (
            get_elem?-shift (head ++ encode labels) tail k i (omega arith),
            get_elem?-shift (head ++ encode labels) tail (k + 1) (i + 1) (omega arith),
            get_elem?-shift (head ++ encode labels) tail (k + 2) (i + 2) (omega arith),
            get_elem?-shift (head ++ encode labels) tail (k + 2 + 1) (i + 2 + 1) (omega arith),
          )
          refl

    pub drop-tail :
        (k i : ℕ)
        → i ≡ 12 + length (encode labels) + k
        → drop i (asked_buffer block).bytes ≡ drop k tail
    drop-tail k i at = drop-shift (head ++ encode labels) tail k i (omega arith)

  module _ (q : IsPrinted labels) (block protocol : ℕ) (session : Session) where
    expanded :
        dn_expand (name_at (asked block protocol session) (asked_buffer block) 12)
        ≡ ok (some (length (encode labels), text_of labels))
    expanded =
        dn_expand-encode (name_at (asked block protocol session) (asked_buffer block) 12) head
          labels tail refl refl (omega (arith, length-append (encode labels) tail)) (omega arith)
          q.is_name q.fits
          (omega (arith, length-encode labels q.is_name, length-append (encode labels) tail))

    -- The one question is printed, and the dump goes on behind its name.
    pub one_question :
        (format : String) (w : World)
        → dump_questions format (asked block protocol session) (asked_buffer block) 1 12 w
          ≡ ok (
            some (12 + length (encode labels)),
            record w { output = w.output ++ line format (text (text_of labels) ∷ []) ∷ [] },
          )
    unfolding dump_questions show_name run
    one_question format w =
        let more : ltb 12 (asked block protocol session).size ≡ true =
          ground (arith, length-append (encode labels) tail, length-encode labels q.is_name) in
        rw (more, dump_questions, expanded, c_string-whole (text_of labels) q.no_zero) refl
