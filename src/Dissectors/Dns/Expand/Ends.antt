-- ===== src/Dissectors/Dns/Expand/Ends.antt =====
-- src/dissectors/dns/dns.c: `dn_expand` on any arguments at all.
use open_sniffer.Base.{
  ℕ, zero, suc, ◌+◌, ◌*◌, ◌<◌, inl, inr, not, ◌||◌, Option, none, [], ◌∷◌, Bytes, length, arith,
  ltb, ltb→lt, leb, ◌==◌, Bool-cases,
}
use open_sniffer.Base.Words.{bits}
use open_sniffer.Machine.{Fault, out_of_bounds, byte_at}
use open_sniffer.Machine.Rules.{Gives-and_then, Safe, byte_at-Safe}
use open_sniffer.Dissectors.Dns.Expand.{
  Args, dest_limit, put, copy, Step, invalid, finished, continue, follow, separate, label, finish,
  expand_step, resume, expand_loop, rounds, dn_expand,
}

module _ (F : Fault → Type 0) (oob : F out_of_bounds) (c : Args) where
  read_byte : (p : ℕ) → Safe F (byte_at c.buffer p)
  read_byte p = byte_at-Safe F c.buffer p (p + 1) (inl oob) (omega arith)

  put-Safe : (dest : Bytes) (x : ℕ) → Safe F (put c dest x)
  unfolding put
  put-Safe dest x = elim (Bool-cases (ltb (length dest) c.space)) [
    | inl e ↦ rw e tt
    | inr e ↦ rw e oob
  ]

  copy-Safe : (j p : ℕ) (dest : Bytes) → Safe F (copy c j p dest)
  unfolding copy
  copy-Safe zero p dest = tt
  copy-Safe (suc j) p dest =
      Gives-and_then F _ _ _ (byte_at c.buffer p) (read_byte p)
        λ x _. Gives-and_then F _ _ _ (put c dest x) (put-Safe dest x) λ d _. copy-Safe j (p + 1) d

  separate-Safe : (dest : Bytes) → Safe F (separate c dest)
  unfolding separate
  separate-Safe [] = tt
  separate-Safe (x ∷ dest) = put-Safe (x ∷ dest) b'.'

  follow-Safe : (p : ℕ) (dest : Bytes) (len : Option ℕ) (x : ℕ) → Safe F (follow c p dest len x)
  unfolding follow
  follow-Safe p dest len x = elim (Bool-cases (p + 1 == c.end)) [
    | inl e ↦ rw e tt
    | inr e ↦
        rw e (Gives-and_then F _ _ _ (byte_at c.buffer (p + 1)) (read_byte (p + 1)) (λ _ _. tt))
  ]

  label-Safe : (p : ℕ) (dest : Bytes) (len : Option ℕ) (j : ℕ) → Safe F (label c p dest len j)
  unfolding label
  label-Safe p dest len j = Gives-and_then F _ _ _ (separate c dest) (separate-Safe dest) λ d _.
      elim (Bool-cases (leb c.end (p + 1 + j) || leb (dest_limit c) (length d + j))) [
        | inl e ↦ rw e tt
        | inr e ↦
            rw e (Gives-and_then F _ _ _ (copy c j (p + 1) d) (copy-Safe j (p + 1) d) (λ _ _. tt))
      ]

  finish-Safe : (p : ℕ) (dest : Bytes) (len : Option ℕ) → Safe F (finish c p dest len)
  unfolding finish
  finish-Safe p dest len = Gives-and_then F _ _ _ (put c dest 0) (put-Safe dest 0) (λ _ _. tt)

  expand_step-Safe : (p : ℕ) (dest : Bytes) (len : Option ℕ) → Safe F (expand_step c p dest len)
  unfolding expand_step
  expand_step-Safe p dest len = Gives-and_then F _ _ _ (byte_at c.buffer p) (read_byte p) λ x _.
      elim (Bool-cases (not (bits x 6 2 == 0))) [
        | inl e ↦ rw e (follow-Safe p dest len x)
        | inr e ↦ rw e (elim (Bool-cases (not (x == 0))) [
          | inl f ↦ rw f (label-Safe p dest len x)
          | inr f ↦ rw f (finish-Safe p dest len)
        ])
      ]

  expand_loop-Safe :
      (fuel p : ℕ) (dest : Bytes) (len : Option ℕ) (i : ℕ)
      → 0 < fuel
      → c.end + 1 < c.base + i + 2 * fuel
      → Safe F (expand_loop fuel c p dest len i)
  unfolding expand_loop
  expand_loop-Safe zero p dest len i some_left enough = absurd (omega arith)
  expand_loop-Safe (suc fuel) p dest len i some_left enough =
      elim (Bool-cases (ltb (c.base + i) c.end)) [
        | inl e ↦
            let inside = ltb→lt (c.base + i) c.end e in
            rw (e, expand_loop)
              (Gives-and_then F _ _ _ (expand_step c p dest len) (expand_step-Safe p dest len) (
                resumed (λ q d l. expand_loop-Safe fuel q d l (i + 2) (omega arith) (omega arith))))
        | inr e ↦ rw (e, expand_loop) tt
      ]
    where
      resumed :
          ((q : ℕ) (d : Bytes) (l : Option ℕ) → Safe F (expand_loop fuel c q d l (i + 2)))
          → (s : Step) → Unit {0}
          → Safe F (resume (λ q d l. expand_loop fuel c q d l (i + 2)) s)
      resumed ih invalid h = tt
      resumed ih (finished l d) h = tt
      resumed ih (continue q d l) h = ih q d l

  pub dn_expand-Safe : Safe F (dn_expand c)
  unfolding dn_expand
  dn_expand-Safe = elim (Bool-cases (c.src == c.end || c.space == 0)) [
    | inl e ↦ rw e tt
    | inr e ↦ rw e (expand_loop-Safe (rounds c) c.src [] none 0 (omega arith) (omega arith))
  ]
