-- ===== src/Dissectors/Dns/Header/Safety.antt =====
-- src/dissectors/dns/dns.c: the reads of `dns_dissector_handles`.
use open_sniffer.Base.{
  ℕ, ◌+◌, ◌≤◌, ◌<◌, ◌||◌, inl, inr, not, Option, none, some, length, arith, ltb, ltb→le, ◌==◌,
  Bool-cases,
}
use open_sniffer.Machine.{Fault, Buffer, byte_at, le16}
use open_sniffer.Machine.Rules.{Safe, Reach, Gives-and_then, byte_at-Safe, le16-Safe}
use open_sniffer.Osi.Packet.{Packet, Session}
use open_sniffer.Dissectors.Dns.Header.{
  dnshdr_size, field16, qr, rcode, unused, get_minimum_packet_size, handles_header, handles_data,
}

module _ (F : Fault → Type 0) (b : Buffer) where
  pub field16-Safe : (i n : ℕ) → Reach F b n → i + 1 < n → Safe F (field16 b i)
  unfolding field16
  field16-Safe i n r h = Gives-and_then F _ _ _ (le16 b i) (le16-Safe F b i n r h) (λ _ _. tt)

  pub qr-Safe : (n : ℕ) → Reach F b n → 2 < n → Safe F (qr b)
  qr-Safe n r h = Gives-and_then F _ _ _ (byte_at b 2) (byte_at-Safe F b 2 n r h) (λ _ _. tt)

  pub rcode-Safe : (n : ℕ) → Reach F b n → 3 < n → Safe F (rcode b)
  rcode-Safe n r h = Gives-and_then F _ _ _ (byte_at b 3) (byte_at-Safe F b 3 n r h) (λ _ _. tt)

  pub unused-Safe : (n : ℕ) → Reach F b n → 3 < n → Safe F (unused b)
  unused-Safe n r h = Gives-and_then F _ _ _ (byte_at b 3) (byte_at-Safe F b 3 n r h) (λ _ _. tt)

  pub minimum-Safe : Reach F b 12 → Safe F (get_minimum_packet_size b)
  unfolding get_minimum_packet_size
  minimum-Safe r = Gives-and_then F _ _ _ (field16 b 4) (field16-Safe 4 12 r (omega arith)) λ _ _.
      Gives-and_then F _ _ _ (field16 b 6) (field16-Safe 6 12 r (omega arith))
        λ _ _. Gives-and_then F _ _ _ (qr b) (qr-Safe 12 r (omega arith)) λ _ _. tt

  pub handles_header-Safe : (p : Packet) → Reach F b 12 → Safe F (handles_header p b)
  unfolding handles_header
  handles_header-Safe p r =
      Gives-and_then F _ _ _ (field16 b 4) (field16-Safe 4 12 r (omega arith)) λ questions _.
        Gives-and_then F _ _ _ (field16 b 6) (field16-Safe 6 12 r (omega arith)) λ answers _.
          Gives-and_then F _ _ _ (unused b) (unused-Safe 12 r (omega arith)) λ zeros _.
            Gives-and_then F _ _ _ (rcode b) (rcode-Safe 12 r (omega arith)) λ code _.
              elim (Bool-cases
                (not (zeros == 0) || ltb 5 code || ltb 5 questions || ltb 10 answers)) [
                  | inl e ↦ rw e tt
                  | inr e ↦ rw e (
                      Gives-and_then F _ _ _ (get_minimum_packet_size b) (minimum-Safe r)
                        (λ _ _. tt))
                ]

  -- `dns_dissector_handles` reads inside the header only, and only where there is one.
  pub handles_data-Safe :
      (p : Packet) (s : Option Session)
      → p.size ≤ length b.bytes
      → Safe F (handles_data p (some b) s)
  unfolding handles_data
  handles_data-Safe p none h = tt
  handles_data-Safe p (some s) h = elim (Bool-cases (ltb p.size dnshdr_size)) [
    | inl e ↦ rw e tt
    | inr e ↦ rw e (handles_header-Safe p (inr (omega (arith, ltb→le p.size dnshdr_size e))))
  ]
