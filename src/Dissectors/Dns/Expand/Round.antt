-- ===== src/Dissectors/Dns/Expand/Round.antt =====
-- src/dissectors/dns/dns.c: a round of the loop of `dn_expand` and its invariants.
use open_sniffer.Base.{
  ℕ, zero, suc, ◌+◌, ◌-◌, ◌*◌, ◌%◌, ◌≡◌, ◌≢◌, ◌≤◌, ◌<◌, inl, inr, not, ◌||◌, Option, none, some, [],
  ◌∷◌, Bytes, length, arith, leb, ◌==◌, if◌then◌else◌, Bool-cases, length-append,
}
use open_sniffer.Base.Words.{bits}
use open_sniffer.Machine.{Fault, ok, byte_at}
use open_sniffer.Machine.Rules.{Gives, Gives-and_then, Gives-mono, Safe, byte_at-Safe}
use open_sniffer.Dissectors.Dns.Expand.{
  Args, dest_limit, put, copy, Step, invalid, finished, continue, len_or, follow, separate, label,
  finish, expand_step,
}

-- The caller's side: the packet lies in its buffer.
pub record IsReady (c : Args) : Type 0 where
  pub base_le_end : c.base ≤ c.end
  pub src_lt_end : c.src < c.end
  pub end_in : c.end ≤ length c.buffer.bytes
  pub has_space : 0 < c.space

abbrev pub LenOk : Args → ℕ → Option ℕ → Type 0
LenOk c p none = c.src ≤ p
LenOk c p (some len) = (0 < len) × (c.src + len ≤ c.end)

-- The invariants that the comment in the loop names, and that of `len`.
pub record Inv (c : Args) (p : ℕ) (dest : Bytes) (len : Option ℕ) : Type 0 where
  pub p_lt_end : p < c.end
  pub dest_lt_dend : length dest < dest_limit c
  pub len_ok : LenOk c p len

-- What is returned: -1, or a length inside the packet with a text that leaves room for its final 0.
abbrev pub IsExpansion : Args → Option (ℕ × Bytes) → Type 0
IsExpansion c none = Unit
IsExpansion c (some (len, dest)) = (0 < len) × (c.src + len ≤ c.end) × (length dest < dest_limit c)

abbrev pub StepOk : Args → Step → Type 0
StepOk c invalid = Unit
StepOk c (finished len dest) = IsExpansion c (some (len, dest))
StepOk c (continue p dest len) = Inv c p dest len

dest_limit-le : (c : Args) → dest_limit c ≤ c.space
dest_limit-le c = ground arith

module _ (F : Fault → Type 0) (c : Args) (ready : IsReady c) where
  put-Gives :
      (dest : Bytes) (x : ℕ)
      → length dest < c.space
      → Gives F (λ d. length d ≡ length dest + 1) (put c dest x)
  unfolding put
  put-Gives dest x h = ground (arith, length-append dest (x ∷ []))

  read_byte : (p : ℕ) → p < c.end → Safe F (byte_at c.buffer p)
  read_byte p h = byte_at-Safe F c.buffer p c.end (inr ready.end_in) h

  copy-Gives :
      (j p : ℕ) (dest : Bytes)
      → p + j ≤ c.end
      → length dest + j ≤ c.space
      → Gives F (λ d. length d ≡ length dest + j) (copy c j p dest)
  unfolding copy
  copy-Gives zero p dest h k = omega arith
  copy-Gives (suc j) p dest h k =
      Gives-and_then F _ _ _ (byte_at c.buffer p) (read_byte p (omega arith)) λ x _.
        Gives-and_then F _ _ _ (put c dest x) (put-Gives dest x (omega arith)) λ d e.
          Gives-mono F _ _ (copy c j (p + 1) d) (copy-Gives j (p + 1) d (omega arith) (omega arith))
            λ t f. omega arith

  separate-Gives :
      (dest : Bytes)
      → length dest < dest_limit c
      → Gives F (λ d. length d ≤ dest_limit c) (separate c dest)
  unfolding separate
  separate-Gives [] h = omega arith
  separate-Gives (x ∷ dest) h =
      Gives-mono F _ _ (put c (x ∷ dest) b'.')
        (put-Gives (x ∷ dest) b'.' (omega (arith, dest_limit-le c))) λ d e. omega arith

  len_or-ok :
      (p k : ℕ) (len : Option ℕ)
      → LenOk c p len
      → 0 < k
      → p + k ≤ c.end
      → (0 < len_or len (p + k - c.src)) × (c.src + len_or len (p + k - c.src) ≤ c.end)
  len_or-ok p k none h pos le = omega arith
  len_or-ok p k (some len) h pos le = h

  LenOk-later : (p q : ℕ) (len : Option ℕ) → LenOk c p len → p ≤ q → LenOk c q len
  LenOk-later p q none h le = omega arith
  LenOk-later p q (some len) h le = h

  follow-Gives :
      (p : ℕ) (dest : Bytes) (len : Option ℕ) (x : ℕ)
      → Inv c p dest len
      → Gives F (StepOk c) (follow c p dest len x)
  unfolding follow
  follow-Gives p dest len x v = elim (Bool-cases (p + 1 == c.end)) [
    | inl e ↦ rw e tt
    | inr e ↦
        let more : p + 1 ≢ c.end = ground arith in
        rw e (
          Gives-and_then F _ _ _ (byte_at c.buffer (p + 1))
            (read_byte (p + 1) (omega (arith, v.p_lt_end)))
            λ y _. jump (c.base + (x % 64 * 256 + y)) (omega (arith, v.p_lt_end)))
  ]
    where
      jump :
          (q : ℕ)
          → p + 2 ≤ c.end
          → Gives F (StepOk c) (
              ok (
                if leb c.end q
                then invalid
                else continue q dest (some (len_or len (p + 2 - c.src)))))
      jump q more = elim (Bool-cases (leb c.end q)) [
        | inl e ↦ rw e tt
        | inr e ↦ rw e (record {
          p_lt_end = ground arith;
          dest_lt_dend = v.dest_lt_dend;
          len_ok = len_or-ok p 2 len v.len_ok (omega arith) more;
        })
      ]

  label-Gives :
      (p : ℕ) (dest : Bytes) (len : Option ℕ) (j : ℕ)
      → Inv c p dest len
      → Gives F (StepOk c) (label c p dest len j)
  unfolding label
  label-Gives p dest len j v =
      Gives-and_then F _ _ _ (separate c dest) (separate-Gives dest v.dest_lt_dend) λ d e.
        elim (Bool-cases (leb c.end (p + 1 + j) || leb (dest_limit c) (length d + j))) [
          | inl no_room ↦ rw no_room tt
          | inr room ↦
              let inside : p + 1 + j < c.end = ground arith in
              let fits : length d + j < dest_limit c = ground arith in
              rw room (
                Gives-and_then F _ _ _ (copy c j (p + 1) d)
                  (copy-Gives j (p + 1) d (omega arith) (omega (arith, dest_limit-le c)))
                  λ t f. record {
                    p_lt_end = inside;
                    dest_lt_dend = omega arith;
                    len_ok = LenOk-later p (p + 1 + j) len v.len_ok (omega arith);
                  })
        ]

  finish-Gives :
      (p : ℕ) (dest : Bytes) (len : Option ℕ)
      → Inv c p dest len
      → Gives F (StepOk c) (finish c p dest len)
  unfolding finish
  finish-Gives p dest len v =
      let (pos, le) = len_or-ok p 1 len v.len_ok (omega arith) (omega (arith, v.p_lt_end)) in
      Gives-and_then F _ _ _ (put c dest 0)
        (put-Gives dest 0 (omega (arith, v.dest_lt_dend, dest_limit-le c)))
        λ _ _. (pos, le, v.dest_lt_dend)

  -- When the packet lies in its buffer and the destination has space, a round keeps the loop's invariants: it has no fault, and it
  -- returns -1, or a length inside the packet with a text that leaves room for its final 0, or goes
  -- on with `p` before the end of the packet, `dest` before the end of the destination, and a `len`
  -- that is unset or inside the packet.
  pub expand_step-Gives :
      (p : ℕ) (dest : Bytes) (len : Option ℕ)
      → Inv c p dest len
      → Gives F (StepOk c) (expand_step c p dest len)
  unfolding expand_step
  expand_step-Gives p dest len v =
      Gives-and_then F _ _ _ (byte_at c.buffer p) (read_byte p v.p_lt_end) λ x _.
        elim (Bool-cases (not (bits x 6 2 == 0))) [
          | inl e ↦ rw e (follow-Gives p dest len x v)
          | inr e ↦ rw e (elim (Bool-cases (not (x == 0))) [
            | inl f ↦ rw f (label-Gives p dest len x v)
            | inr f ↦ rw f (finish-Gives p dest len v)
          ])
        ]
