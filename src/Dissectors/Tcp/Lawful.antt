-- ===== src/Dissectors/Tcp/Lawful.antt =====
-- src/dissectors/tcp/tcp.c and the contract of a dissector.
use open_sniffer.Base.{
  ◌*◌, ◌^◌, ◌≡◌, refl, ◌≤◌, ◌<◌, ◌||◌, inl, inr, true, not, some, arith, length, ltb, ◌==◌,
  Bool-cases,
}
use open_sniffer.Base.Words.{sub_size}
use open_sniffer.Machine.{Fault, out_of_bounds, ok, World, lift, Buffer, byte_at, le16, le32}
use open_sniffer.Machine.Rules.{
  Ends, Safe, IsQuiet, IsQuiet-bind, IsQuiet-then, IsQuiet-lift, IsQuiet-printf, Gives-and_then,
  Ends-bind, Ends-lift, byte_at-Safe, le16-Safe, le32-Safe,
}
use open_sniffer.Osi.Packet.{Packet}
use open_sniffer.Osi.Contract.{
  HandsOver, IsLawful, MakesSession, build-HandsOver, create_session-MakesSession,
  lift-MakesSession,
}
use open_sniffer.Dissectors.Guard.{Shows, Shows-IsLawful}
use open_sniffer.Dissectors.Tcp.{
  doff, new_session, handles_data, handles, dump_header, strip_header, dump, decapsulate, dissector,
  pointer_size, ipproto_tcp,
}

module _ (F : Fault → Type 0) (oob : F out_of_bounds) where
  doff-Safe : (b : Buffer) → Safe F (doff b)
  unfolding doff
  doff-Safe b =
      Gives-and_then F _ _ _ (byte_at b 12) (byte_at-Safe F b 12 13 (inl oob) (omega arith))
        (λ _ _. tt)

  handles-Safe :
      (p : Packet) (b : Buffer) → p.size ≤ length b.bytes → Safe F (handles_data p (some b))
  unfolding handles_data
  handles-Safe p b v =
      elim (Bool-cases (ltb p.size pointer_size || not (p.protocol == ipproto_tcp))) [
        | inl e ↦ rw e tt
        | inr e ↦ rw e (Gives-and_then F _ _ _ (doff b) (doff-Safe b) (λ _ _. tt))
      ]

  dump-IsQuiet : (p : Packet) (b : Buffer) → IsQuiet F (dump_header (p, b))
  unfolding dump_header
  dump-IsQuiet p b =
      (IsQuiet-then (IsQuiet-printf _ _) (
        IsQuiet-bind (IsQuiet-lift _ (le32-Safe F b 12 16 (inl oob) (omega arith))) λ _.
          (IsQuiet-then (IsQuiet-printf _ _) (
            IsQuiet-bind (IsQuiet-lift _ (le16-Safe F b 0 2 (inl oob) (omega arith))) λ _.
              (IsQuiet-then (IsQuiet-printf _ _) (
                IsQuiet-bind (IsQuiet-lift _ (le16-Safe F b 2 4 (inl oob) (omega arith))) λ _.
                  (IsQuiet-then (IsQuiet-printf _ _) (
                    IsQuiet-bind (IsQuiet-lift _ (le32-Safe F b 4 8 (inl oob) (omega arith))) λ _.
                      (IsQuiet-then (IsQuiet-printf _ _) (
                        IsQuiet-bind (IsQuiet-lift _ (le32-Safe F b 8 12 (inl oob) (omega arith)))
                          λ _.
                            (IsQuiet-then (IsQuiet-printf _ _) (
                              IsQuiet-bind (IsQuiet-lift _ (doff-Safe b)) λ _.
                                (IsQuiet-then (IsQuiet-printf _ _) (IsQuiet-printf _ _))))))))))))))

  shows : Shows F handles_data dump_header
  unfolding handles_data
  shows = record {
    at_null_payload = λ p. refl;
    handles_safe = handles-Safe;
    dump_quiet = λ p b h e. dump-IsQuiet p b;
  }

  session_made : (b : Buffer) → MakesSession F (new_session b)
  unfolding new_session
  session_made b =
      lift-MakesSession F (le32 b 4) _ (le32-Safe F b 4 8 (inl oob) (omega arith)) λ seq.
        lift-MakesSession F (le16 b 0) _ (le16-Safe F b 0 2 (inl oob) (omega arith)) λ source.
          lift-MakesSession F (le16 b 2) _ (le16-Safe F b 2 4 (inl oob) (omega arith))
            λ dest. create_session-MakesSession F seq source dest

  strip-HandsOver :
      (p : Packet) (b : Buffer) (w : World)
      → p.size ≤ length b.bytes
      → p.size < 2 ^ 64
      → handles_data p (some b) ≡ ok true
      → Ends F (HandsOver w) (strip_header (p, b) w)
  unfolding strip_header
  strip-HandsOver p b w holds lt e =
      Ends-bind F (λ _ v. v ≡ w) (HandsOver w) (lift (doff b)) _ w
        (Ends-lift F _ _ (doff b) w (doff-Safe b) (λ _ _. refl))
        (λ words v same. rw same (
          build-HandsOver F (sub_size p.size (words * 4)) (ok 0) (new_session b) b (words * 4) w
            (omega arith) tt (session_made b) (inl oob)))

  -- The TCP dissector keeps the contract where reads outside an array are among the faults.
  pub tcp-IsLawful : IsLawful F dissector
  unfolding handles dump decapsulate
  tcp-IsLawful =
      Shows-IsLawful shows handles refl (λ _. refl) dissector.layer dissector.name strip_header
        strip-HandsOver
