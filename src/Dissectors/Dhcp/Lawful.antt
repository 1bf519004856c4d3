-- ===== src/Dissectors/Dhcp/Lawful.antt =====
-- src/dissectors/dhcp/dhcp.c and the contract of a dissector.
use open_sniffer.Base.{refl, ◌≤◌, inl, inr, some, arith, length, ltb, ltb→le, Bool-cases}
use open_sniffer.Machine.{Fault, out_of_bounds, Buffer, byte_at}
use open_sniffer.Machine.Rules.{
  Safe, IsQuiet, IsQuiet-bind, IsQuiet-then, IsQuiet-lift, IsQuiet-printf, Gives-and_then,
  byte_at-Safe, le32-Safe,
}
use open_sniffer.Inaddr.Safety.{stringify_hw_addr-Safe}
use open_sniffer.Osi.Packet.{Packet}
use open_sniffer.Osi.Contract.{IsLawful}
use open_sniffer.Dissectors.Guard.{Shows, Shows-IsLawful_last}
use open_sniffer.Dissectors.Dhcp.{
  handles_data, handles, dump_header, dump, decapsulate, dissector, pointer_size,
}

module _ (F : Fault → Type 0) (oob : F out_of_bounds) where
  handles-Safe :
      (p : Packet) (b : Buffer) → p.size ≤ length b.bytes → Safe F (handles_data p (some b))
  unfolding handles_data
  handles-Safe p b v = elim (Bool-cases (ltb p.size pointer_size)) [
    | inl e ↦ rw e tt
    | inr e ↦
        let long = ltb→le p.size pointer_size e in
        rw e (
          Gives-and_then F _ _ _ (byte_at b 0)
            (byte_at-Safe F b 0 8 (inr (omega arith)) (omega arith))
            λ _ _.
              Gives-and_then F _ _ _ (byte_at b 1)
                (byte_at-Safe F b 1 8 (inr (omega arith)) (omega arith)) λ _ _. tt)
  ]

  dump-IsQuiet : (p : Packet) (b : Buffer) → IsQuiet F (dump_header (p, b))
  unfolding dump_header
  dump-IsQuiet p b =
      (IsQuiet-then (IsQuiet-printf _ _) (
        IsQuiet-bind (IsQuiet-lift _ (byte_at-Safe F b 0 1 (inl oob) (omega arith))) λ _.
          (IsQuiet-then (IsQuiet-printf _ _) (
            IsQuiet-bind (IsQuiet-lift _ (byte_at-Safe F b 1 2 (inl oob) (omega arith))) λ _.
              (IsQuiet-then (IsQuiet-printf _ _) (
                IsQuiet-bind (IsQuiet-lift _ (le32-Safe F b 4 8 (inl oob) (omega arith))) λ _.
                  (IsQuiet-then (IsQuiet-printf _ _) (
                    IsQuiet-bind (IsQuiet-lift _ (le32-Safe F b 12 16 (inl oob) (omega arith))) λ _.
                      (IsQuiet-then (IsQuiet-printf _ _) (
                        IsQuiet-bind (IsQuiet-lift _ (le32-Safe F b 16 20 (inl oob) (omega arith)))
                          λ _.
                            (IsQuiet-then (IsQuiet-printf _ _) (
                              IsQuiet-bind
                                (IsQuiet-lift _ (le32-Safe F b 20 24 (inl oob) (omega arith)))
                                λ _.
                                  (IsQuiet-then (IsQuiet-printf _ _) (
                                    IsQuiet-bind
                                      (IsQuiet-lift _
                                        (stringify_hw_addr-Safe F b 28 34 (inl oob) (omega arith)))
                                      λ _.
                                        (IsQuiet-then (IsQuiet-printf _ _)
                                          (IsQuiet-printf _ _))))))))))))))))

  shows : Shows F handles_data dump_header
  unfolding handles_data
  shows = record {
    at_null_payload = λ p. refl;
    handles_safe = handles-Safe;
    dump_quiet = λ p b h e. dump-IsQuiet p b;
  }

  -- The DHCP dissector keeps the contract where reads outside an array are among the faults.
  pub dhcp-IsLawful : IsLawful F dissector
  unfolding handles dump decapsulate
  dhcp-IsLawful = Shows-IsLawful_last shows handles refl (λ _. refl) dissector.layer dissector.name
