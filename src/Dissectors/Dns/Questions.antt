-- ===== src/Dissectors/Dns/Questions.antt =====
-- src/dissectors/dns/dns.c: the dump of the questions of a packet, and of queries. The pointer `data`
-- into the packet is an offset, and what moves it returns the new offset.
use open_sniffer.Base.{
  ℕ, zero, suc, ◌+◌, String, true, false, Option, none, some, [], ◌∷◌, Bytes, ltb, ◌==◌,
  if◌then◌else◌,
}
use open_sniffer.Machine.{text, int, str, M, ◌>>=◌, ◌>>◌, ret, lift, printf, Buffer}
use open_sniffer.Osi.Packet.{Packet}
use open_sniffer.Dissectors.Dns.Types.{type_to_string}
use open_sniffer.Dissectors.Dns.Expand.{Args, dn_expand}
use open_sniffer.Dissectors.Dns.Header.{dnshdr_size, field16, qcount}

-- `MAX_NAME_LENGTH`
abbrev pub max_name_length : ℕ
max_name_length = 256

-- What `%s` prints of an array that holds these bytes and then zeros.
unfoldable pub c_string : Bytes → Bytes
c_string [] = []
c_string (x ∷ xs) = if x == 0 then [] else x ∷ c_string xs

-- The arguments of `dn_expand` for the name at `data`: `base` is the first byte after the header.
abbrev pub name_at : Packet → Buffer → ℕ → Args
name_at p b i = record {
  buffer = b;
  base = dnshdr_size;
  end = p.size;
  src = i;
  space = max_name_length;
}

-- What a round does with the result of `dn_expand`; `none` is the early return of the dump.
unfoldable pub show_name : String → (ℕ → M (Option ℕ)) → Option (ℕ × Bytes) → M (Option ℕ)
unfolding c_string
show_name format go none = ret none
show_name format go (some (size, name)) = printf format (text (c_string name) ∷ []) >> go size

-- The loop over the questions, with `questions` rounds left.
unfoldable pub dump_questions : String → Packet → Buffer → ℕ → ℕ → M (Option ℕ)
unfolding dn_expand show_name
dump_questions format p b zero i = ret (some i)
dump_questions format p b (suc questions) i = elim (ltb i p.size) [
  | true ↦
      lift (dn_expand (name_at p b i))
      >>= show_name format (λ size. dump_questions format p b questions (i + size))
  | false ↦ ret (some i)
]

unfoldable pub show_query_type : Buffer → Option ℕ → M (Unit {0})
unfolding field16 type_to_string
show_query_type b none = ret tt
show_query_type b (some i) = do
  type ← lift (field16 b i)
  printf "Query type : %s (%u)\n" (str (type_to_string type) ∷ int type ∷ [])

-- `dns_dissector_dump_query_packet`
unfoldable pub dump_query_packet : Packet → Buffer → M (Unit {0})
unfolding field16 dump_questions show_query_type
dump_query_packet p b = do
  questions ← lift (qcount b)
  printf "# of questions : %d\n" (int questions ∷ [])
  i ← dump_questions "Query : %s\n" p b questions dnshdr_size
  show_query_type b i
