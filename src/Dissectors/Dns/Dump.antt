-- ===== src/Dissectors/Dns/Dump.antt =====
-- src/dissectors/dns/dns.c: the dump of responses, and the dissector. The pointer
-- `data` into the packet is an offset, and what moves it returns the new offset. `inet_ntop` for
-- IPv6 is a parameter: it is given the sixteen bytes of the address.
use open_sniffer.Base.{
  ℕ, zero, suc, ◌+◌, ◌||◌, not, String, true, false, Option, none, some, [], ◌∷◌, Bytes, drop, ltb,
  ◌==◌, if◌then◌else◌,
}
use open_sniffer.Base.Words.{ntohl}
use open_sniffer.Machine.{
  out_of_bounds, Result, ok, fault, and_then, Arg, text, int, str, null_str, M, ◌>>=◌, ◌>>◌, ret,
  lift, printf, Buffer, le32, bytes_at,
}
use open_sniffer.Inaddr.{inet_ntoa}
use open_sniffer.Osi.Packet.{Packet, osi_layer_7, data_of}
use open_sniffer.Osi.Dissector.{Dissector}
use open_sniffer.Dissectors.Dns.Types.{ns_t_a, ns_t_ns, ns_t_cname, ns_t_aaaa, type_to_string}
use open_sniffer.Dissectors.Dns.Expand.{dn_expand}
use open_sniffer.Dissectors.Dns.Header.{
  dnshdr_size, field16, id, qcount, ancount, nscount, arcount, qr, rcode, handles,
}
use open_sniffer.Dissectors.Dns.Questions.{c_string, name_at, dump_questions, dump_query_packet}

abbrev pub dns_output_header : String
dns_output_header =
    "\u{1b}[94m-------------------------------------------------------\n--------------------  \u{1b}[1mDNS Header\u{1b}[21m  ---------------------\n-------------------------------------------------------\n"

abbrev pub dns_output_footer : String
dns_output_footer = "-------------------------------------------------------\n\u{1b}[0m"

-- `UNDERLINED("Response #%zu (%s)\n")`
abbrev pub response_format : String
response_format = "\u{1b}[4mResponse #%zu (%s)\n\u{1b}[24m"

-- The bytes before the first 0: `strlen`.
unfoldable pub nul_index : Bytes → Result ℕ
nul_index [] = fault out_of_bounds
nul_index (x ∷ xs) =
    let rest = and_then (nul_index xs) (λ n. ok (suc n)) in if x == 0 then ok 0 else rest

-- `NS_GET16`, `NS_GET32`: big-endian; the pointer is moved by the caller.
unfoldable pub ns_get32 : Buffer → ℕ → Result ℕ
ns_get32 b i = and_then (le32 b i) (λ x. ok (ntohl x))

-- `_a_rr`
unfoldable pub a_rr : Buffer → ℕ → Result (Bytes × ℕ)
unfolding ns_get32 inet_ntoa
a_rr b i = and_then (ns_get32 b i) (λ x. ok (inet_ntoa (ntohl x), i + 4))

unfoldable pub alias : ℕ → Option (ℕ × Bytes) → Arg × ℕ
unfolding c_string
alias i none = (null_str, i)
alias i (some (size, name)) = (text (c_string name), i + size)

-- `_cname_rr`: NULL and an unmoved pointer where the name is invalid.
unfoldable pub cname_rr : Packet → Buffer → ℕ → Result (Arg × ℕ)
unfolding dn_expand alias
cname_rr p b i = and_then (dn_expand (name_at p b i)) (λ r. ok (alias i r))

module _ (inet_ntop6 : Bytes → Bytes) where
  -- `_aaaa_rr`
  unfoldable pub aaaa_rr : Buffer → ℕ → Result (Bytes × ℕ)
  aaaa_rr b i = and_then (bytes_at b i 16) (λ x. ok (inet_ntop6 x, i + 16))

  -- The `switch` over the type of an answer; `none` is the `return` of its default case.
  unfoldable pub dump_record : Packet → Buffer → ℕ → ℕ → M (Option ℕ)
  unfolding a_rr aaaa_rr cname_rr
  dump_record p b type i =
      if type == ns_t_a
      then (do (t, i') ← lift (a_rr b i); printf "IPv4 address : %s\n" (text t ∷ []); ret (some i'))
      else if type == ns_t_aaaa
      then (do
        (t, i') ← lift (aaaa_rr b i)
        printf "IPv6 address : %s\n" (text t ∷ [])
        ret (some i'))
      else if type == ns_t_ns || type == ns_t_cname
      then (do (t, i') ← lift (cname_rr p b i); printf "Alias : %s\n" (t ∷ []); ret (some i'))
      else ret none

  -- The body of the loop over the answers: the name is skipped by `strlen`, and the fixed part of
  -- the record is read.
  unfoldable pub dump_answer : Packet → Buffer → ℕ → ℕ → M (Option ℕ)
  unfolding nul_index field16 ns_get32 type_to_string dump_record
  dump_answer p b index i = do
    skipped ← lift (nul_index (drop i b.bytes))
    let j = i + skipped
    type ← lift (field16 b j)
    class ← lift (field16 b (j + 2))
    ttl ← lift (ns_get32 b (j + 4))
    len ← lift (field16 b (j + 8))
    printf response_format (int (index + 1) ∷ str (type_to_string type) ∷ [])
    dump_record p b type (j + 10)

  -- The loop over the answers, with `answers` rounds left.
  unfoldable pub dump_answers : Packet → Buffer → ℕ → ℕ → ℕ → M (Unit {0})
  unfolding dump_answer
  dump_answers p b zero index i = ret tt
  dump_answers p b (suc answers) index i = elim (ltb i p.size) [
    | true ↦
        dump_answer p b index i
        >>= elim [ none ↦ ret tt | some j ↦ dump_answers p b answers (index + 1) j ]
    | false ↦ ret tt
  ]

  unfoldable pub dump_response_body : Packet → Buffer → ℕ → Option ℕ → M (Unit {0})
  unfolding field16 type_to_string dump_answers
  dump_response_body p b answers none = ret tt
  dump_response_body p b answers (some i) = do
    type ← lift (field16 b i)
    class ← lift (field16 b (i + 2))
    printf "Query type : %s (%u)\n" (str (type_to_string type) ∷ int type ∷ [])
    dump_answers p b answers 0 (i + 4)

  -- `dns_dissector_dump_response_packet`
  unfoldable pub dump_response_packet : Packet → Buffer → M (Unit {0})
  unfolding field16 dump_questions dump_response_body
  dump_response_packet p b = do
    questions ← lift (qcount b)
    answers ← lift (ancount b)
    code ← lift (rcode b)
    printf "Response code : %d\n" (int code ∷ [])
    printf "# of questions : %d\n" (int questions ∷ [])
    printf "# of answers : %d\n" (int answers ∷ [])
    servers ← lift (nscount b)
    printf "# of authoritative servers : %d\n" (int servers ∷ [])
    additional ← lift (arcount b)
    printf "# of additional records : %d\n" (int additional ∷ [])
    i ← dump_questions "Query address : %s\n" p b questions dnshdr_size
    dump_response_body p b answers i

  -- `dns_dissector_type_of_packet`
  unfoldable pub type_of_packet : ℕ → String
  type_of_packet response = if not (response == 0) then "RESPONSE" else "QUERY"

  -- The rest of the dump of a packet whose `rcode` is 0.
  unfoldable pub dump_body : Packet → Buffer → ℕ → M (Unit {0})
  dump_body p b response = do
    if not (response == 0) then dump_response_packet p b else dump_query_packet p b
    printf dns_output_footer []

  unfoldable pub dump_header : Packet × Buffer → M (Unit {0})
  unfolding type_of_packet
  dump_header (p, b) = do
    printf dns_output_header []
    identifier ← lift (id b)
    printf "Identifier : %d\n" (int identifier ∷ [])
    response ← lift (qr b)
    printf "Type of packet : %s\n" (str (type_of_packet response) ∷ [])
    code ← lift (rcode b)
    if not (code == 0)
        then printf "An error response was received from the remote server\n" []
        else dump_body p b response

  -- `dns_dissector_dump`
  unfoldable pub dump : Option Packet → M (Unit {0})
  unfolding handles data_of dump_header
  dump packet = do
    supported ← lift (handles packet)
    if supported then lift (data_of packet) >>= dump_header else ret tt

  -- `dns_dissector_decapsulate`
  unfoldable pub decapsulate : Option Packet → M (Option Packet)
  decapsulate packet = ret none

  -- `dns_dissector_new`
  abbrev pub dissector : Dissector
  dissector = record {
    layer = osi_layer_7;
    operations = record { handles = handles; dump = dump; decapsulate = decapsulate };
    name = "dns";
  }
