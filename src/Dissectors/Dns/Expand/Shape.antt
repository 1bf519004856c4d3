-- ===== src/Dissectors/Dns/Expand/Shape.antt =====
-- src/dissectors/dns/dns.c: what a round of the loop of `dn_expand` says of the bytes in the packet.
use open_sniffer.Base.{
  ℕ, ◌+◌, ◌-◌, ◌*◌, ◌%◌, ◌≡◌, ◌≢◌, refl, ◌∙◌, ◌⊎◌, inl, inr, ap, false, ◌||◌, Option, some, ◌++◌,
  Bytes, length, leb, ◌==◌, ==_iff, Bool-cases, arith,
}
use open_sniffer.Base.Words.{bits}
use open_sniffer.Machine.{Fault, ok, byte_at}
use open_sniffer.Machine.Reads.{byte_at-ok}
use open_sniffer.Machine.Rules.{Gives}
use open_sniffer.Dissectors.Dns.Expand.{
  Args, dest_limit, Step, invalid, finished, continue, len_or, follow, label, expand_step,
}
use open_sniffer.Dissectors.Dns.Expand.Round.{IsReady, Inv}
use open_sniffer.Dissectors.Dns.Expand.Names.{IsLabel, IsPointer, label_at, separated}
use open_sniffer.Dissectors.Dns.Expand.Steps.{
  dest_limit-le, separate-ok, expand_step-root, expand_step-label, expand_step-pointer,
}

module _ (c : Args) where
  -- A label was taken.
  abbrev pub Took : ℕ → Bytes → Option ℕ → ℕ → Bytes → Option ℕ → Type 0
  Took p dest len q d l =
      (x : ℕ) × IsLabel c p x × (q ≡ p + 1 + x) × (d ≡ separated dest ++ label_at c p x) × (l ≡ len)

  -- A pointer was followed.
  abbrev pub Followed : ℕ → Bytes → Option ℕ → ℕ → Bytes → Option ℕ → Type 0
  Followed p dest len q d l = IsPointer c p q × (d ≡ dest) × (l ≡ some (len_or len (p + 2 - c.src)))

  -- What a round says of the bytes at `p`.
  abbrev pub Shape : ℕ → Bytes → Option ℕ → Step → Type 0
  Shape p dest len invalid = Unit
  Shape p dest len (finished n d) =
      (byte_at c.buffer p ≡ ok 0) × (n ≡ len_or len (p + 1 - c.src)) × (d ≡ dest)
  Shape p dest len (continue q d l) = Took p dest len q d l ⊎ Followed p dest len q d l

  module _ (ready : IsReady c) (F : Fault → Type 0) (p : ℕ) (dest : Bytes) (len : Option ℕ)
      (v : Inv c p dest len) (x : ℕ) (byte_is : byte_at c.buffer p ≡ ok x) where
    label-Shape :
        bits x 6 2 ≡ 0 → (x == 0) ≡ false → Gives F (Shape p dest len) (expand_step c p dest len)
    unfolding expand_step label
    label-Shape plain some_bytes =
        elim (Bool-cases
          (leb c.end (p + 1 + x) || leb (dest_limit c) (length (separated dest) + x))) [
            | inl no_room ↦
                rw
                  (
                    byte_is,
                    plain,
                    some_bytes,
                    separate-ok c ready.end_in dest
                        (omega (arith, v.dest_lt_dend, dest_limit-le c)),
                    no_room,
                  )
                  tt
            | inr room ↦
                let l : IsLabel c p x = record {
                  byte_is = byte_is;
                  is_plain = plain;
                  not_root = ground (arith, some_bytes);
                  inside = ground (arith, room);
                } in
                rw
                  (expand_step-label c ready.end_in p x dest len l v.dest_lt_dend
                    (ground (arith, room)))
                  (inl (x, l, refl, refl, refl))
          ]

    follow-Shape : (bits x 6 2 == 0) ≡ false → Gives F (Shape p dest len) (expand_step c p dest len)
    unfolding expand_step follow
    follow-Shape marked = elim (Bool-cases (p + 1 == c.end)) [
      | inl e ↦ rw (byte_is, marked, e) tt
      | inr e ↦
          let has_next : p + 1 ≢ c.end = ground arith in
          let (y, next_is) =
            byte_at-ok c.buffer (p + 1) (omega (arith, v.p_lt_end, ready.end_in)) in
          elim (Bool-cases (leb c.end (c.base + (x % 64 * 256 + y)))) [
            | inl f ↦ rw (byte_is, marked, e, next_is, f) tt
            | inr f ↦
                let t : IsPointer c p (c.base + (x % 64 * 256 + y)) = record {
                  high = x;
                  low = y;
                  byte_is = byte_is;
                  is_marked = ground (arith, marked);
                  has_next = has_next;
                  next_is = next_is;
                  target_is = refl;
                  inside = ground (arith, f);
                } in
                rw (expand_step-pointer c ready.end_in p (c.base + (x % 64 * 256 + y)) dest len t)
                  (inr (t, refl, refl))
          ]
    ]

    pub expand_step-Shape : Gives F (Shape p dest len) (expand_step c p dest len)
    expand_step-Shape = elim (Bool-cases (bits x 6 2 == 0)) [
      | inl plain ↦ elim (Bool-cases (x == 0)) [
        | inl e ↦
            let zero_byte : byte_at c.buffer p ≡ ok 0 = byte_is ∙ ap ok ((==_iff x 0).0 e) in
            rw (expand_step-root c ready.end_in p dest len zero_byte v.dest_lt_dend)
              (zero_byte, refl, refl)
        | inr e ↦ label-Shape ((==_iff (bits x 6 2) 0).0 plain) e
      ]
      | inr marked ↦ follow-Shape marked
    ]
