-- ===== src/Dissectors/Ethernet/Lawful.antt =====
-- src/dissectors/ethernet/ethernet.c and the contract of a dissector.
use open_sniffer.Base.{
  ◌^◌, ◌≡◌, refl, ◌≤◌, ◌<◌, inl, inr, true, none, some, arith, length, ltb, ltb→le, Bool-cases,
}
use open_sniffer.Base.Words.{sub_size}
use open_sniffer.Machine.{Fault, ok, World, ret, Buffer, le16}
use open_sniffer.Machine.Rules.{
  Ends, Safe, Reach, IsQuiet, IsQuiet-bind, IsQuiet-then, IsQuiet-lift, IsQuiet-printf,
  Gives-and_then, le16-Safe,
}
use open_sniffer.Inaddr.Safety.{stringify_hw_addr-Safe}
use open_sniffer.Osi.Packet.{Packet}
use open_sniffer.Osi.Contract.{HandsOver, IsLawful, build-HandsOver, no_session-MakesSession}
use open_sniffer.Dissectors.Guard.{Shows, Shows-IsLawful}
use open_sniffer.Dissectors.Ethernet.{
  ether_header_size, ether_type, handles_data, handles, get_hint, dump, decapsulate, dump_header,
  strip_header, dissector,
}

-- What is supported has a whole header.
pub size_of_supported :
    (p : Packet) (b : Buffer) → handles_data p (some b) ≡ ok true → ether_header_size ≤ p.size
unfolding handles_data
size_of_supported p b h = ground arith

module _ (F : Fault → Type 0) where
  ether_type-Safe : (b : Buffer) → Reach F b ether_header_size → Safe F (ether_type b)
  ether_type-Safe b r =
      Gives-and_then F _ _ _ (le16 b 12) (le16-Safe F b 12 14 r (omega arith)) (λ _ _. tt)

  handles-Safe :
      (p : Packet) (b : Buffer) → p.size ≤ length b.bytes → Safe F (handles_data p (some b))
  unfolding handles_data
  handles-Safe p b v = elim (Bool-cases (ltb p.size ether_header_size)) [
    | inl short ↦ rw short tt
    | inr long ↦ rw long (
        Gives-and_then F _ _ _ (ether_type b)
          (ether_type-Safe b (inr (omega (arith, ltb→le p.size ether_header_size)))) (λ _ _. tt))
  ]

  dump-IsQuiet :
      (p : Packet) (b : Buffer) → Reach F b ether_header_size → IsQuiet F (dump_header (p, b))
  unfolding dump_header
  dump-IsQuiet p b r = IsQuiet-then (IsQuiet-printf _ _) (
      IsQuiet-bind (IsQuiet-lift _ (stringify_hw_addr-Safe F b 6 14 r (omega arith))) λ _.
        IsQuiet-then (IsQuiet-printf _ _) (
          IsQuiet-bind (IsQuiet-lift _ (stringify_hw_addr-Safe F b 0 14 r (omega arith)))
            λ _. IsQuiet-then (IsQuiet-printf _ _) (IsQuiet-printf _ _)))

  shows : Shows F handles_data dump_header
  unfolding handles_data
  shows = record {
    at_null_payload = λ p. refl;
    handles_safe = handles-Safe;
    dump_quiet = λ p b h e. dump-IsQuiet p b (inr (omega (arith, size_of_supported p b e)));
  }

  strip-HandsOver :
      (p : Packet) (b : Buffer) (w : World)
      → p.size ≤ length b.bytes
      → p.size < 2 ^ 64
      → handles_data p (some b) ≡ ok true
      → Ends F (HandsOver w) (strip_header (p, b) w)
  unfolding strip_header get_hint
  strip-HandsOver p b w holds lt e =
      let long = size_of_supported p b e in
      build-HandsOver F (sub_size p.size ether_header_size) (ether_type b) (ret none) b
        ether_header_size w (omega arith) (ether_type-Safe b (inr (omega arith)))
        (no_session-MakesSession F) (inr (omega arith))

  -- The Ethernet dissector keeps the contract, for every set of faults, the empty one included.
  pub ethernet-IsLawful : IsLawful F dissector
  unfolding handles dump decapsulate
  ethernet-IsLawful =
      Shows-IsLawful shows handles refl (λ _. refl) dissector.layer dissector.name strip_header
        strip-HandsOver
