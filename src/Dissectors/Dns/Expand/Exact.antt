-- ===== src/Dissectors/Dns/Expand/Exact.antt =====
-- src/dissectors/dns/dns.c: which names `dn_expand` expands, and to what.
use open_sniffer.Base.{
  ℕ, zero, suc, ◌+◌, ◌-◌, ◌*◌, ◌≡◌, refl, ◌≤◌, ◌<◌, subst, ◌∙◌, ◌⊎◌, inl, inr, ◌↔◌, sym, ap, false,
  ◌||◌, Option, none, some, List, [], ◌∷◌, Bytes, length, ltb, ltb→lt, ◌==◌, Bool-cases, arith,
}
use open_sniffer.Machine.{and_then, Fault, Result, ok, fault}
use open_sniffer.Machine.Reads.{byte_at-ok}
use open_sniffer.Machine.Rules.{Gives, Gives-mono}
use open_sniffer.Dissectors.Dns.Expand.{
  Args, dest_limit, Step, invalid, finished, continue, len_or, expand_step, resume, expand_loop,
  rounds, dn_expand,
}
use open_sniffer.Dissectors.Dns.Expand.Round.{IsReady, Inv, StepOk, expand_step-Gives}
use open_sniffer.Dissectors.Dns.Expand.Names.{
  label_at, Name, root, labelled, pointed, text_of, Expands, behind, behind-nil,
}
use open_sniffer.Dissectors.Dns.Expand.Shape.{Took, Followed, Shape, expand_step-Shape}
use open_sniffer.Dissectors.Dns.Expand.Complete.{behind-label, complete}

module _ (c : Args) (ready : IsReady c) where
  -- From `p` on a name is expanded, with `i` counted and `dest` and `len` as they are.
  pub record Denotes (p : ℕ) (dest : Bytes) (len : Option ℕ) (i n : ℕ) (text : Bytes) : Type 0 where
    pub steps : ℕ
    pub labels : List Bytes
    pub stop : ℕ
    pub name : Name c steps p labels stop
    pub length_is : n ≡ len_or len (stop - c.src)
    pub text_is : text ≡ behind dest labels
    pub fits : length text < dest_limit c
    pub few : c.base + i + 2 * steps < c.end

  abbrev IsResult : ℕ → Bytes → Option ℕ → ℕ → Option (ℕ × Bytes) → Type 0
  IsResult p dest len i none = Unit
  IsResult p dest len i (some (n, text)) = Denotes p dest len i n text

  module _ (F : Fault → Type 0) where
    sound :
        (fuel p : ℕ) (dest : Bytes) (len : Option ℕ) (i : ℕ)
        → c.end + 2 ≤ c.base + i + 2 * fuel
        → c.base + i ≤ c.end + 1
        → Inv c p dest len
        → Gives F (IsResult p dest len i) (expand_loop fuel c p dest len i)
    unfolding expand_loop
    sound zero p dest len i enough low v = absurd (omega arith)
    sound (suc fuel) p dest len i enough low v = elim (Bool-cases (ltb (c.base + i) c.end)) [
      | inl e ↦
          let inside = ltb→lt (c.base + i) c.end e in
          let (x, byte_is) = byte_at-ok c.buffer p (omega (arith, v.p_lt_end, ready.end_in)) in
          rw (e, expand_loop)
            (resumed inside (λ q d l. sound fuel q d l (i + 2) (omega arith) (omega arith))
              (expand_step c p dest len) (expand_step-Shape c ready F p dest len v x byte_is)
              (expand_step-Gives F c ready p dest len v))
      | inr e ↦ rw (e, expand_loop) tt
    ]
      where
        took :
            (q : ℕ) (d : Bytes) (l : Option ℕ) (n : ℕ) (text : Bytes)
            → Took c p dest len q d l
            → Denotes q d l (i + 2) n text
            → Denotes p dest len i n text
        took q d l n text (x, lab, q_is, d_is, l_is) h = record {
          steps = suc h.steps;
          labels = label_at c p x ∷ h.labels;
          stop = h.stop;
          name = labelled x lab (subst (λ t. Name c h.steps t h.labels h.stop) q_is h.name);
          length_is = h.length_is ∙ ap (λ t. len_or t (h.stop - c.src)) l_is;
          text_is =
              h.text_is
              ∙ ap (λ t. behind t h.labels) d_is
              ∙ sym (behind-label c ready dest p x h.labels lab);
          fits = h.fits;
          few = omega (arith, h.few);
        }

        followed :
            (q : ℕ) (d : Bytes) (l : Option ℕ) (n : ℕ) (text : Bytes)
            → Followed c p dest len q d l
            → Denotes q d l (i + 2) n text
            → Denotes p dest len i n text
        followed q d l n text (t, d_is, l_is) h = record {
          steps = suc h.steps;
          labels = h.labels;
          stop = p + 2;
          name = pointed t h.name refl;
          length_is = h.length_is ∙ ap (λ t. len_or t (h.stop - c.src)) l_is;
          text_is = h.text_is ∙ ap (λ t. behind t h.labels) d_is;
          fits = h.fits;
          few = omega (arith, h.few);
        }

        further :
            (q : ℕ) (d : Bytes) (l : Option ℕ)
            → Took c p dest len q d l ⊎ Followed c p dest len q d l
            → (r : Option (ℕ × Bytes)) → IsResult q d l (i + 2) r
            → IsResult p dest len i r
        further q d l s none h = tt
        further q d l (inl s) (some (n, text)) h = took q d l n text s h
        further q d l (inr s) (some (n, text)) h = followed q d l n text s h

        resumed :
            c.base + i < c.end
            → ((q : ℕ) (d : Bytes) (l : Option ℕ)
                → Inv c q d l
                → Gives F (IsResult q d l (i + 2)) (expand_loop fuel c q d l (i + 2)))
            → (m : Result Step) → Gives F (Shape c p dest len) m
            → Gives F (StepOk c) m
            → Gives F
                (IsResult p dest len i)
                (and_then m (resume (λ q d l. expand_loop fuel c q d l (i + 2))))
        resumed inside ih (fault f) shape good = good
        resumed inside ih (ok invalid) shape good = tt
        resumed inside ih (ok (finished n d)) (at_root, n_is, d_is) good = record {
          steps = 0;
          labels = [];
          stop = p + 1;
          name = root at_root refl;
          length_is = n_is;
          text_is = d_is ∙ sym (behind-nil dest);
          fits = good.2;
          few = omega arith;
        }
        resumed inside ih (ok (continue q d l)) shape good =
            Gives-mono F _ _ (expand_loop fuel c q d l (i + 2)) (ih q d l good)
              (further q d l shape)

  -- The guards of `dn_expand` are passed.
  loop_is : dn_expand c ≡ expand_loop (rounds c) c c.src [] none 0
  unfolding dn_expand
  loop_is =
      let guard : (c.src == c.end || c.space == 0) ≡ false =
        ground (arith, ready.src_lt_end, ready.has_space) in
      rw guard refl

  Name-lt : {k p e : ℕ} {labels : List Bytes} → Name c k p labels e → p < e
  Name-lt (root at_root stop) = omega arith
  Name-lt (labelled x lab rest) = omega (arith, Name-lt rest)
  Name-lt (pointed t rest stop) = omega arith

  dn_expand-Denotes : Gives (λ _. ⊥) (IsResult c.src [] none 0) (dn_expand c)
  dn_expand-Denotes = rw loop_is (
      sound (λ _. ⊥) (rounds c) c.src [] none 0 (omega (arith, ready.base_le_end))
        (omega (arith, ready.base_le_end))
        (record {
          p_lt_end = ready.src_lt_end;
          dest_lt_dend = ground (arith, ready.has_space);
          len_ok = omega arith;
        }))

-- When the packet lies in its buffer, the name begins in the packet and the destination has space,
-- `dn_expand` returns the length `n` with the text `text` exactly if a name stands at `src` whose
-- length there is `n` and whose labels, joined by dots, are `text`, where a label or a pointer that
-- reaches the end of the packet is none, the text leaves room for its final 0, and the labels and
-- pointers of the name, with two bytes for each, are fewer bytes than the packet has.
pub dn_expand-Expands :
    (c : Args) (n : ℕ) (text : Bytes)
    → IsReady c
    → (dn_expand c ≡ ok (some (n, text))) ↔ Expands c n text
unfolding dn_expand
dn_expand-Expands c n text ready = (
  λ e.
      let d : Denotes c ready c.src [] none 0 n text =
        subst (Gives (λ _. ⊥) (IsResult c ready c.src [] none 0)) e (dn_expand-Denotes c ready) in
      record {
        steps = d.steps;
        labels = d.labels;
        stop = d.stop;
        name = d.name;
        length_is = omega (arith, Name-lt c ready d.name, d.length_is);
        text_is = d.text_is;
        fits = d.fits;
        few = omega (arith, d.few);
      },
  λ h.
      loop_is c ready
      ∙ complete c ready (rounds c) [] none 0 h.name (omega (arith, h.few)) (omega (arith, h.few))
          (omega (arith, h.fits, ap length h.text_is))
      ∙ ap ok (rw (h.text_is, ← h.length_is) (ap (λ t. some (t, text_of h.labels)) (omega arith))),
)
