-- ===== src/Dissectors/Dns/Expand/Safety.antt =====
-- src/dissectors/dns/dns.c: `dn_expand` on a name in a packet.
use open_sniffer.Base.{
  ℕ, zero, suc, ◌+◌, ◌*◌, ◌≡◌, refl, ◌≤◌, inl, inr, ◌||◌, Option, none, [], Bytes, arith, ltb,
  ltb→lt, ◌==◌, Bool-cases,
}
use open_sniffer.Machine.{Fault, Result, ok, fault}
use open_sniffer.Machine.Rules.{Gives, Gives-and_then}
use open_sniffer.Dissectors.Dns.Expand.{
  Args, Step, invalid, finished, continue, expand_step, resume, expand_loop, rounds, dn_expand,
}
use open_sniffer.Dissectors.Dns.Expand.Round.{IsReady, IsExpansion, Inv, StepOk, expand_step-Gives}

module _ (F : Fault → Type 0) (c : Args) (ready : IsReady c) where
  expand_loop-Gives :
      (fuel p : ℕ) (dest : Bytes) (len : Option ℕ) (i : ℕ)
      → c.base + i ≤ c.end + 1
      → c.end + 2 ≤ c.base + i + 2 * fuel
      → Inv c p dest len
      → Gives F (IsExpansion c) (expand_loop fuel c p dest len i)
  unfolding expand_loop
  expand_loop-Gives zero p dest len i low enough v = absurd (omega arith)
  expand_loop-Gives (suc fuel) p dest len i low enough v =
      elim (Bool-cases (ltb (c.base + i) c.end)) [
        | inl e ↦
            let inside = ltb→lt (c.base + i) c.end e in
            rw (e, expand_loop)
              (Gives-and_then F (StepOk c) _ _ (expand_step c p dest len)
                (expand_step-Gives F c ready p dest len v)
                (resumed
                  (λ q d l. expand_loop-Gives fuel q d l (i + 2) (omega arith) (omega arith))))
        | inr e ↦ rw (e, expand_loop) tt
      ]
    where
      resumed :
          ((q : ℕ) (d : Bytes) (l : Option ℕ)
            → Inv c q d l
            → Gives F (IsExpansion c) (expand_loop fuel c q d l (i + 2)))
          → (s : Step) → StepOk c s
          → Gives F (IsExpansion c) (resume (λ q d l. expand_loop fuel c q d l (i + 2)) s)
      resumed ih invalid h = tt
      resumed ih (finished l d) h = h
      resumed ih (continue q d l) h = ih q d l h

  pub dn_expand-Gives : Gives F (IsExpansion c) (dn_expand c)
  unfolding dn_expand
  dn_expand-Gives = elim (Bool-cases (c.src == c.end || c.space == 0)) [
    | inl e ↦ rw e tt
    | inr e ↦ rw e (
        expand_loop-Gives (rounds c) c.src [] none 0 (omega (arith, ready.base_le_end))
          (omega (arith, ready.base_le_end))
          (record {
            p_lt_end = ready.src_lt_end;
            dest_lt_dend = ground (arith, ready.has_space);
            len_ok = omega arith;
          }))
  ]

-- When the packet lies in its buffer, the name begins in the packet and the destination has space,
-- `dn_expand` has no fault: every read lies in the buffer, every write in the destination, and the
-- loop ends. It returns -1, or a length that is positive and inside the packet with a text that
-- leaves room for the final 0.
pub dn_expand-IsExpansion :
    (c : Args) → IsReady c → (r : Option (ℕ × Bytes)) × (dn_expand c ≡ ok r) × IsExpansion c r
dn_expand-IsExpansion c ready = returned (dn_expand c) refl (dn_expand-Gives (λ _. ⊥) c ready)
  where
    returned :
        (m : Result (Option (ℕ × Bytes)))
        → dn_expand c ≡ m
        → Gives (λ _. ⊥) (IsExpansion c) m
        → (r : Option (ℕ × Bytes)) × (dn_expand c ≡ ok r) × IsExpansion c r
    returned (ok r) e g = (r, e, g)
    returned (fault f) e g = absurd g
