-- ===== src/Dissectors/Icmp/Lookup.antt =====
-- src/dissectors/icmp/icmp.c: the search for the name of a packet type.
use open_sniffer.Base.{
  refl, ℕ, zero, suc, ◌+◌, ◌≡◌, ap, ◌∙◌, ◌<◌, inl, inr, String, Option, none, some, List, [], ◌∷◌,
  map, length, get_elem?, arith, ◌==◌, Bool-cases,
}
use open_sniffer.Machine.{out_of_bounds, Result, ok, fault, in_range}
use open_sniffer.Dissectors.Table.{find_value}
use open_sniffer.Dissectors.Icmp.{
  PacketType, types, sizeof_types, search_types, packet_type_stringified,
}

-- The known types with their names.
abbrev pub names : List PacketType → List (ℕ × String)
names ts = map (λ t. (t.type_code, t.type_name)) ts

abbrev pub or_fault : Option String → Result String
or_fault none = fault out_of_bounds
or_fault (some name) = ok name

-- The search from index `i` on, where the table goes on with `ts`.
search_types-names :
    (rounds i : ℕ) (ts : List PacketType) (code : ℕ)
    → length ts < rounds
    → ((k : ℕ) → get_elem? types (i + k) ≡ get_elem? ts k)
    → search_types rounds i code ≡ or_fault (find_value code (names ts))
unfolding search_types in_range find_value
search_types-names zero i ts code h e = absurd (omega arith)
search_types-names (suc rounds) i [] code h e =
    let here : get_elem? types i ≡ none = ap (get_elem? types) (omega arith) ∙ e 0 in rw here refl
search_types-names (suc rounds) i (t ∷ ts) code h e =
    let here : get_elem? types i ≡ some t = ap (get_elem? types) (omega arith) ∙ e 0 in
    let there =
      search_types-names rounds (i + 1) ts code (omega arith)
        (λ k. ap (get_elem? types) (omega arith) ∙ e (suc k)) in
    elim (Bool-cases (t.type_code == code)) [
      | inl f ↦ rw (here, f) refl
      | inr f ↦ rw (here, f) there
    ]

-- The name of a packet type is that of the first entry of the table with its code; for a code that is
-- not in the table the search goes on past the table, and never gives `ICMP_TYPE_UNKNOWN`.
pub packet_type_stringified-names :
    (code : ℕ) → packet_type_stringified code ≡ or_fault (find_value code (names types))
unfolding packet_type_stringified
packet_type_stringified-names code =
    search_types-names sizeof_types 0 types code (omega arith)
      (λ k. ap (get_elem? types) (omega arith))
