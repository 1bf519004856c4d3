-- ===== src/Dissectors/Icmp/Lawful.antt =====
-- src/dissectors/icmp/icmp.c and the contract of a dissector.
use open_sniffer.Base.{
  ℕ, ◌+◌, ◌^◌, ◌≡◌, refl, ◌≤◌, ◌<◌, inl, inr, true, Option, none, some, zero, suc, arith, length,
  get_elem?, ◌==◌, if◌then◌else◌, Bool-cases,
}
use open_sniffer.Base.Words.{sub_size}
use open_sniffer.Machine.{Fault, out_of_bounds, ok, and_then, World, ret, Buffer, in_range}
use open_sniffer.Machine.Rules.{
  Ends, Safe, IsQuiet, IsQuiet-bind, IsQuiet-then, IsQuiet-lift, IsQuiet-printf, byte_at-Safe,
  le16-Safe,
}
use open_sniffer.Osi.Packet.{Packet}
use open_sniffer.Osi.Contract.{HandsOver, IsLawful, build-HandsOver, no_session-MakesSession}
use open_sniffer.Dissectors.Guard.{Shows, Shows-IsLawful}
use open_sniffer.Dissectors.Icmp.{
  PacketType, sizeof_types, icmphdr_size, types, search_types, packet_type_stringified,
  handles_data, handles, dump_header, strip_header, dump, decapsulate, dissector,
}

module _ (F : Fault → Type 0) (oob : F out_of_bounds) where
  search_types-Safe : (rounds i code : ℕ) → Safe F (search_types rounds i code)
  unfolding search_types
  search_types-Safe zero i code = tt
  search_types-Safe (suc rounds) i code =
      go (get_elem? types i) (search_types-Safe rounds (i + 1) code)
    where
      go :
          (o : Option PacketType)
          → Safe F (search_types rounds (i + 1) code)
          → Safe F (
              and_then (in_range o) λ t.
                if t.type_code == code then ok t.type_name else search_types rounds (i + 1) code)
      go none rest = oob
      go (some t) rest = elim (Bool-cases (t.type_code == code)) [
        | inl e ↦ rw e tt
        | inr e ↦ rw e rest
      ]

  packet_type_stringified-Safe : (code : ℕ) → Safe F (packet_type_stringified code)
  unfolding packet_type_stringified
  packet_type_stringified-Safe code = search_types-Safe sizeof_types 0 code

  handles-Safe :
      (p : Packet) (b : Buffer) → p.size ≤ length b.bytes → Safe F (handles_data p (some b))
  unfolding handles_data
  handles-Safe p b v = ground arith

  dump-IsQuiet : (p : Packet) (b : Buffer) → IsQuiet F (dump_header (p, b))
  unfolding dump_header
  dump-IsQuiet p b =
      (IsQuiet-then (IsQuiet-printf _ _) (
        IsQuiet-bind (IsQuiet-lift _ (byte_at-Safe F b 0 1 (inl oob) (omega arith))) λ type.
          (IsQuiet-bind (IsQuiet-lift _ (packet_type_stringified-Safe type)) λ _.
            (IsQuiet-then (IsQuiet-printf _ _) (
              IsQuiet-bind (IsQuiet-lift _ (byte_at-Safe F b 1 2 (inl oob) (omega arith))) λ _.
                (IsQuiet-then (IsQuiet-printf _ _) (
                  IsQuiet-bind (IsQuiet-lift _ (le16-Safe F b 2 4 (inl oob) (omega arith)))
                    λ _. (IsQuiet-then (IsQuiet-printf _ _) (IsQuiet-printf _ _)))))))))

  shows : Shows F handles_data dump_header
  unfolding handles_data
  shows = record {
    at_null_payload = λ p. refl;
    handles_safe = handles-Safe;
    dump_quiet = λ p b h e. dump-IsQuiet p b;
  }

  strip-HandsOver :
      (p : Packet) (b : Buffer) (w : World)
      → p.size ≤ length b.bytes
      → p.size < 2 ^ 64
      → handles_data p (some b) ≡ ok true
      → Ends F (HandsOver w) (strip_header (p, b) w)
  unfolding strip_header
  strip-HandsOver p b w holds lt e =
      let long : icmphdr_size ≤ p.size = unfold handles_data in ground arith in
      build-HandsOver F (sub_size p.size icmphdr_size) (ok 0) (ret none) b icmphdr_size w
        (omega arith) tt (no_session-MakesSession F) (inl oob)

  -- The ICMP dissector keeps the contract where reads outside an array are among the faults.
  pub icmp-IsLawful : IsLawful F dissector
  unfolding handles dump decapsulate
  icmp-IsLawful =
      Shows-IsLawful shows handles refl (λ _. refl) dissector.layer dissector.name strip_header
        strip-HandsOver
