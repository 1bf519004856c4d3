-- ===== src/Dissectors/Dns/Lawful.antt =====
-- src/dissectors/dns/dns.c and the contract of a dissector.
use open_sniffer.Base.{
  ℕ, zero, suc, ◌+◌, refl, ◌||◌, inl, inr, String, not, Option, none, some, [], ◌∷◌, Bytes, drop,
  arith, ltb, ◌==◌, Bool-cases,
}
use open_sniffer.Machine.{Fault, out_of_bounds, M, ret, lift, Buffer, le32, bytes_at}
use open_sniffer.Machine.Rules.{
  Safe, IsQuiet, IsQuiet-bind, IsQuiet-then, IsQuiet-lift, IsQuiet-printf, IsQuiet-ret, IsQuiet-if,
  Gives-and_then, Gives-weaken, le32-Safe, bytes_at-Gives,
}
use open_sniffer.Osi.Packet.{Packet}
use open_sniffer.Osi.Contract.{IsLawful}
use open_sniffer.Dissectors.Guard.{Shows, Shows-IsLawful_last}
use open_sniffer.Dissectors.Dns.Types.{ns_t_a, ns_t_ns, ns_t_cname, ns_t_aaaa}
use open_sniffer.Dissectors.Dns.Expand.{dn_expand}
use open_sniffer.Dissectors.Dns.Expand.Ends.{dn_expand-Safe}
use open_sniffer.Dissectors.Dns.Header.{dnshdr_size, field16, qr, rcode, handles_data, handles}
use open_sniffer.Dissectors.Dns.Questions.{
  name_at, show_name, dump_questions, show_query_type, dump_query_packet,
}
use open_sniffer.Dissectors.Dns.Dump.{
  ns_get32, nul_index, a_rr, cname_rr, aaaa_rr, dump_record, dump_answer, dump_answers,
  dump_response_body, dump_response_packet, dump_body, dump_header, dump, decapsulate, dissector,
}
use open_sniffer.Dissectors.Dns.Header.Safety.{field16-Safe, qr-Safe, rcode-Safe, handles_data-Safe}

module _ (F : Fault → Type 0) (oob : F out_of_bounds) (b : Buffer) where
  word : (i : ℕ) → IsQuiet F (lift (field16 b i))
  word i = IsQuiet-lift _ (field16-Safe F b i (i + 2) (inl oob) (omega arith))

  long_word : (i : ℕ) → Safe F (ns_get32 b i)
  unfolding ns_get32
  long_word i =
      Gives-and_then F _ _ _ (le32 b i) (le32-Safe F b i (i + 4) (inl oob) (omega arith))
        (λ _ _. tt)

  nul_index-Safe : (xs : Bytes) → Safe F (nul_index xs)
  unfolding nul_index
  nul_index-Safe [] = oob
  nul_index-Safe (x ∷ xs) = elim (Bool-cases (x == 0)) [
    | inl e ↦ rw e tt
    | inr e ↦ rw e (Gives-and_then F _ _ _ (nul_index xs) (nul_index-Safe xs) (λ _ _. tt))
  ]

  module _ (p : Packet) where
    show_name-IsQuiet :
        (format : String) (go : ℕ → M (Option ℕ))
        → ((i : ℕ) → IsQuiet F (go i))
        → (r : Option (ℕ × Bytes)) → IsQuiet F (show_name format go r)
    unfolding show_name
    show_name-IsQuiet format go h none = IsQuiet-ret none
    show_name-IsQuiet format go h (some (size, name)) = IsQuiet-then (IsQuiet-printf _ _) (h size)

    dump_questions-IsQuiet : (format : String) (n i : ℕ) → IsQuiet F (dump_questions format p b n i)
    unfolding dump_questions
    dump_questions-IsQuiet format zero i = IsQuiet-ret (some i)
    dump_questions-IsQuiet format (suc n) i = elim (Bool-cases (ltb i p.size)) [
      | inl e ↦
          rw (e, dump_questions)
            (IsQuiet-bind (IsQuiet-lift _ (dn_expand-Safe F oob (name_at p b i)))
              (show_name-IsQuiet format _ (λ size. dump_questions-IsQuiet format n (i + size))))
      | inr e ↦ rw (e, dump_questions) (IsQuiet-ret (some i))
    ]

    show_query_type-IsQuiet : (o : Option ℕ) → IsQuiet F (show_query_type b o)
    unfolding show_query_type
    show_query_type-IsQuiet none = IsQuiet-ret tt
    show_query_type-IsQuiet (some i) = IsQuiet-bind (word i) (λ _. IsQuiet-printf _ _)

    dump_query_packet-IsQuiet : IsQuiet F (dump_query_packet p b)
    unfolding dump_query_packet
    dump_query_packet-IsQuiet = IsQuiet-bind (word 4) λ questions.
        IsQuiet-then (IsQuiet-printf _ _)
          (IsQuiet-bind (dump_questions-IsQuiet _ questions dnshdr_size) show_query_type-IsQuiet)

    a_rr-Safe : (i : ℕ) → Safe F (a_rr b i)
    unfolding a_rr
    a_rr-Safe i = Gives-and_then F _ _ _ (ns_get32 b i) (long_word i) (λ _ _. tt)

    cname_rr-Safe : (i : ℕ) → Safe F (cname_rr p b i)
    unfolding cname_rr
    cname_rr-Safe i =
        Gives-and_then F _ _ _ (dn_expand (name_at p b i)) (dn_expand-Safe F oob (name_at p b i))
          (λ _ _. tt)

    module _ (inet_ntop6 : Bytes → Bytes) where
      aaaa_rr-Safe : (i : ℕ) → Safe F (aaaa_rr inet_ntop6 b i)
      unfolding aaaa_rr
      aaaa_rr-Safe i =
          Gives-and_then F _ _ _ (bytes_at b i 16)
            (Gives-weaken F _ _ (bytes_at-Gives F b i 16 (inl oob))) (λ _ _. tt)

      dump_record-IsQuiet : (type i : ℕ) → IsQuiet F (dump_record inet_ntop6 p b type i)
      unfolding dump_record
      dump_record-IsQuiet type i =
          IsQuiet-if (type == ns_t_a)
            (IsQuiet-bind (IsQuiet-lift _ (a_rr-Safe i))
              λ _. IsQuiet-then (IsQuiet-printf _ _) (IsQuiet-ret _))
            (IsQuiet-if (type == ns_t_aaaa)
              (IsQuiet-bind (IsQuiet-lift _ (aaaa_rr-Safe i))
                λ _. IsQuiet-then (IsQuiet-printf _ _) (IsQuiet-ret _))
              (IsQuiet-if (type == ns_t_ns || type == ns_t_cname)
                (IsQuiet-bind (IsQuiet-lift _ (cname_rr-Safe i))
                  λ _. IsQuiet-then (IsQuiet-printf _ _) (IsQuiet-ret _))
                (IsQuiet-ret none)))

      dump_answer-IsQuiet : (index i : ℕ) → IsQuiet F (dump_answer inet_ntop6 p b index i)
      unfolding dump_answer
      dump_answer-IsQuiet index i =
          IsQuiet-bind (IsQuiet-lift _ (nul_index-Safe (drop i b.bytes))) λ skipped.
            IsQuiet-bind (word (i + skipped)) λ type. IsQuiet-bind (word (i + skipped + 2)) λ _.
              IsQuiet-bind (IsQuiet-lift _ (long_word (i + skipped + 4))) λ _.
                IsQuiet-bind (word (i + skipped + 8)) λ _.
                  IsQuiet-then (IsQuiet-printf _ _) (dump_record-IsQuiet type (i + skipped + 10))

      dump_answers-IsQuiet : (n index i : ℕ) → IsQuiet F (dump_answers inet_ntop6 p b n index i)
      unfolding dump_answers
      dump_answers-IsQuiet zero index i = IsQuiet-ret tt
      dump_answers-IsQuiet (suc n) index i = elim (Bool-cases (ltb i p.size)) [
        | inl e ↦
            rw (e, dump_answers)
              (IsQuiet-bind (dump_answer-IsQuiet index i)
                (next (λ j. dump_answers-IsQuiet n (index + 1) j)))
        | inr e ↦ rw (e, dump_answers) (IsQuiet-ret tt)
      ]
        where
          next :
              ((j : ℕ) → IsQuiet F (dump_answers inet_ntop6 p b n (index + 1) j))
              → (o : Option ℕ)
              → IsQuiet F (elim o as (λ _. M (Unit {0})) [
                | none ↦ ret tt
                | some j ↦ dump_answers inet_ntop6 p b n (index + 1) j
              ])
          next ih none = IsQuiet-ret tt
          next ih (some j) = ih j

      dump_response_body-IsQuiet :
          (n : ℕ) (o : Option ℕ) → IsQuiet F (dump_response_body inet_ntop6 p b n o)
      unfolding dump_response_body
      dump_response_body-IsQuiet n none = IsQuiet-ret tt
      dump_response_body-IsQuiet n (some i) = IsQuiet-bind (word i) λ _.
          IsQuiet-bind (word (i + 2))
            λ _. IsQuiet-then (IsQuiet-printf _ _) (dump_answers-IsQuiet n 0 (i + 4))

      rcode_read : IsQuiet F (lift (rcode b))
      rcode_read = IsQuiet-lift _ (rcode-Safe F b 4 (inl oob) (omega arith))

      dump_response_packet-IsQuiet : IsQuiet F (dump_response_packet inet_ntop6 p b)
      unfolding dump_response_packet
      dump_response_packet-IsQuiet = IsQuiet-bind (word 4) λ questions.
          IsQuiet-bind (word 6) λ answers. IsQuiet-bind rcode_read λ _.
            IsQuiet-then (IsQuiet-printf _ _) (
              IsQuiet-then (IsQuiet-printf _ _) (
                IsQuiet-then (IsQuiet-printf _ _) (
                  IsQuiet-bind (word 8) λ _. IsQuiet-then (IsQuiet-printf _ _) (
                    IsQuiet-bind (word 10) λ _. IsQuiet-then (IsQuiet-printf _ _) (
                      IsQuiet-bind (dump_questions-IsQuiet _ questions dnshdr_size)
                        (dump_response_body-IsQuiet answers))))))

      dump_body-IsQuiet : (response : ℕ) → IsQuiet F (dump_body inet_ntop6 p b response)
      unfolding dump_body
      dump_body-IsQuiet response =
          IsQuiet-then
            (IsQuiet-if (not (response == 0)) dump_response_packet-IsQuiet
              dump_query_packet-IsQuiet)
            (IsQuiet-printf _ _)

      dump_header-IsQuiet : IsQuiet F (dump_header inet_ntop6 (p, b))
      unfolding dump_header
      dump_header-IsQuiet = IsQuiet-then (IsQuiet-printf _ _) (
          IsQuiet-bind (word 0) λ _. IsQuiet-then (IsQuiet-printf _ _) (
            IsQuiet-bind (IsQuiet-lift (qr b) (qr-Safe F b 3 (inl oob) (omega arith))) λ response.
              IsQuiet-then (IsQuiet-printf _ _) (
                IsQuiet-bind rcode_read λ code.
                  IsQuiet-if (not (code == 0)) (IsQuiet-printf _ _) (dump_body-IsQuiet response))))

module _ (F : Fault → Type 0) (oob : F out_of_bounds) (inet_ntop6 : Bytes → Bytes) where
  shows : Shows F (λ p o. handles_data p o p.session) (dump_header inet_ntop6)
  unfolding handles_data
  shows = record {
    at_null_payload = λ p. refl;
    handles_safe = λ p b h. handles_data-Safe F b p p.session h;
    dump_quiet = λ p b h e. dump_header-IsQuiet F oob b p inet_ntop6;
  }

  -- The DNS dissector keeps the contract where reads outside an array are among the faults.
  pub dns-IsLawful : IsLawful F (dissector inet_ntop6)
  unfolding handles dump decapsulate
  dns-IsLawful = Shows-IsLawful_last shows handles refl (λ _. refl) 7 "dns"
