-- ===== src/Dissectors/Ip/Lawful.antt =====
-- src/dissectors/ip/ip.c and the contract of a dissector.
use open_sniffer.Base.{
  ℕ, ◌*◌, ◌^◌, ◌≡◌, refl, ◌≤◌, ◌<◌, ◌||◌, inl, inr, true, not, none, some, arith, length, ltb, ◌==◌,
  Bool-cases,
}
use open_sniffer.Base.Words.{sub_size}
use open_sniffer.Machine.{Fault, out_of_bounds, ok, World, ret, lift, Buffer, byte_at}
use open_sniffer.Machine.Rules.{
  Ends, Safe, Reach, IsQuiet, IsQuiet-bind, IsQuiet-then, IsQuiet-lift, IsQuiet-printf,
  Gives-and_then, Ends-bind, Ends-lift, byte_at-Safe, le16-Safe, le32-Safe,
}
use open_sniffer.Osi.Packet.{Packet}
use open_sniffer.Osi.Contract.{HandsOver, IsLawful, build-HandsOver, no_session-MakesSession}
use open_sniffer.Dissectors.Guard.{Shows, Shows-IsLawful}
use open_sniffer.Dissectors.Ip.{
  ihl, version, get_hint, handles_data, handles, dump_header, strip_header, dump, decapsulate,
  dissector, pointer_size, ethertype_ip,
}

module _ (F : Fault → Type 0) (oob : F out_of_bounds) where
  ihl-Safe : (b : Buffer) (n : ℕ) → Reach F b n → 0 < n → Safe F (ihl b)
  unfolding ihl
  ihl-Safe b n r h = Gives-and_then F _ _ _ (byte_at b 0) (byte_at-Safe F b 0 n r h) (λ _ _. tt)

  version-Safe : (b : Buffer) (n : ℕ) → Reach F b n → 0 < n → Safe F (version b)
  unfolding version
  version-Safe b n r h = Gives-and_then F _ _ _ (byte_at b 0) (byte_at-Safe F b 0 n r h) (λ _ _. tt)

  handles-Safe :
      (p : Packet) (b : Buffer) → p.size ≤ length b.bytes → Safe F (handles_data p (some b))
  unfolding handles_data
  handles-Safe p b v =
      elim (Bool-cases (ltb p.size pointer_size || not (p.protocol == ethertype_ip))) [
        | inl e ↦ rw e tt
        | inr e ↦ rw e (
            Gives-and_then F _ _ _ (ihl b) (ihl-Safe b 1 (inl oob) (omega arith)) λ _ _.
              Gives-and_then F _ _ _ (version b) (version-Safe b 1 (inl oob) (omega arith))
                λ _ _. tt)
      ]

  dump-IsQuiet : (p : Packet) (b : Buffer) → IsQuiet F (dump_header (p, b))
  unfolding dump_header
  dump-IsQuiet p b =
      (IsQuiet-then (IsQuiet-printf _ _) (
        IsQuiet-bind (IsQuiet-lift _ (le32-Safe F b 12 16 (inl oob) (omega arith))) λ _.
          (IsQuiet-then (IsQuiet-printf _ _) (
            IsQuiet-bind (IsQuiet-lift _ (le32-Safe F b 16 20 (inl oob) (omega arith))) λ _.
              (IsQuiet-then (IsQuiet-printf _ _) (
                IsQuiet-bind (IsQuiet-lift _ (le16-Safe F b 10 12 (inl oob) (omega arith)))
                  λ _. (IsQuiet-then (IsQuiet-printf _ _) (IsQuiet-printf _ _))))))))

  shows : Shows F handles_data dump_header
  unfolding handles_data
  shows = record {
    at_null_payload = λ p. refl;
    handles_safe = handles-Safe;
    dump_quiet = λ p b h e. dump-IsQuiet p b;
  }

  hint-Safe : (b : Buffer) → Safe F (get_hint b)
  unfolding get_hint
  hint-Safe b = byte_at-Safe F b 9 10 (inl oob) (omega arith)

  strip-HandsOver :
      (p : Packet) (b : Buffer) (w : World)
      → p.size ≤ length b.bytes
      → p.size < 2 ^ 64
      → handles_data p (some b) ≡ ok true
      → Ends F (HandsOver w) (strip_header (p, b) w)
  unfolding strip_header
  strip-HandsOver p b w holds lt e =
      Ends-bind F (λ _ v. v ≡ w) (HandsOver w) (lift (ihl b)) _ w
        (Ends-lift F _ _ (ihl b) w (ihl-Safe b 1 (inl oob) (omega arith)) (λ _ _. refl))
        (λ words v same. rw same (
          build-HandsOver F (sub_size p.size (words * 4)) (get_hint b) (ret none) b (words * 4) w
            (omega arith) (hint-Safe b) (no_session-MakesSession F) (inl oob)))

  -- The IP dissector keeps the contract where reads outside an array are among the faults.
  pub ip-IsLawful : IsLawful F dissector
  unfolding handles dump decapsulate
  ip-IsLawful =
      Shows-IsLawful shows handles refl (λ _. refl) dissector.layer dissector.name strip_header
        strip-HandsOver
