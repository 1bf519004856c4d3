-- ===== src/Dissectors/Arp/Lawful.antt =====
-- src/dissectors/arp/arp.c and the contract of a dissector.
use open_sniffer.Base.{◌^◌, ◌≡◌, refl, ◌≤◌, ◌<◌, inr, true, none, some, arith, length}
use open_sniffer.Base.Words.{sub_size}
use open_sniffer.Machine.{Fault, ok, World, ret, Buffer}
use open_sniffer.Machine.Rules.{
  Ends, Safe, Reach, IsQuiet, IsQuiet-bind, IsQuiet-then, IsQuiet-lift, IsQuiet-printf,
}
use open_sniffer.Inaddr.Safety.{stringify_hw_addr-Safe}
use open_sniffer.Osi.Packet.{Packet}
use open_sniffer.Osi.Contract.{HandsOver, IsLawful, build-HandsOver, no_session-MakesSession}
use open_sniffer.Dissectors.Guard.{Shows, Shows-IsLawful}
use open_sniffer.Dissectors.Arp.{
  ether_arp_size, handles_data, handles, dump_header, strip_header, dump, decapsulate, dissector,
}

-- What is supported has a whole header.
pub size_of_supported :
    (p : Packet) (b : Buffer) → handles_data p (some b) ≡ ok true → ether_arp_size ≤ p.size
unfolding handles_data
size_of_supported p b h = ground arith

module _ (F : Fault → Type 0) where
  handles-Safe :
      (p : Packet) (b : Buffer) → p.size ≤ length b.bytes → Safe F (handles_data p (some b))
  unfolding handles_data
  handles-Safe p b v = ground arith

  dump-IsQuiet :
      (p : Packet) (b : Buffer) → Reach F b ether_arp_size → IsQuiet F (dump_header (p, b))
  unfolding dump_header
  dump-IsQuiet p b r =
      (IsQuiet-then (IsQuiet-printf _ _) (
        IsQuiet-bind (IsQuiet-lift _ (stringify_hw_addr-Safe F b 8 28 r (omega arith))) λ _.
          (IsQuiet-then (IsQuiet-printf _ _) (
            IsQuiet-bind (IsQuiet-lift _ (stringify_hw_addr-Safe F b 18 28 r (omega arith)))
              λ _. (IsQuiet-then (IsQuiet-printf _ _) (IsQuiet-printf _ _))))))

  shows : Shows F handles_data dump_header
  unfolding handles_data
  shows = record {
    at_null_payload = λ p. refl;
    handles_safe = handles-Safe;
    dump_quiet = λ p b h e. dump-IsQuiet p b (inr (omega (arith, size_of_supported p b e)));
  }

  strip-HandsOver :
      (p : Packet) (b : Buffer) (w : World)
      → p.size ≤ length b.bytes
      → p.size < 2 ^ 64
      → handles_data p (some b) ≡ ok true
      → Ends F (HandsOver w) (strip_header (p, b) w)
  unfolding strip_header
  strip-HandsOver p b w holds lt e =
      let long = size_of_supported p b e in
      build-HandsOver F (sub_size p.size ether_arp_size) (ok 0) (ret none) b ether_arp_size w
        (omega arith) tt (no_session-MakesSession F) (inr (omega arith))

  -- The ARP dissector keeps the contract, for every set of faults, the empty one included.
  pub arp-IsLawful : IsLawful F dissector
  unfolding handles dump decapsulate
  arp-IsLawful =
      Shows-IsLawful shows handles refl (λ _. refl) dissector.layer dissector.name strip_header
        strip-HandsOver
