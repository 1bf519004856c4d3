-- ===== src/Dissectors/Dns/Expand/Complete.antt =====
-- src/dissectors/dns/dns.c: the loop of `dn_expand` on a name.
use open_sniffer.Base.{
  ℕ, zero, suc, ◌+◌, ◌-◌, ◌*◌, ◌≡◌, refl, ◌<◌, ◌∙◌, sym, ap, true, Option, some, List, [], ◌∷◌,
  ◌++◌, Bytes, length, length-append, ltb, arith,
}
use open_sniffer.Machine.{ok}
use open_sniffer.Dissectors.Dns.Expand.{Args, dest_limit, len_or, expand_loop}
use open_sniffer.Dissectors.Dns.Expand.Round.{IsReady}
use open_sniffer.Dissectors.Dns.Expand.Names.{
  IsLabel, label_at, Name, root, labelled, pointed, behind, separated, behind-nil, behind-cons,
  length-behind,
}
use open_sniffer.Dissectors.Dns.Expand.Steps.{
  length-label_at, expand_step-root, expand_step-label, expand_step-pointer,
}

module _ (c : Args) (ready : IsReady c) where
  pub behind-label :
      (dest : Bytes) (p x : ℕ) (labels : List Bytes)
      → IsLabel c p x
      → behind dest (label_at c p x ∷ labels) ≡ behind (separated dest ++ label_at c p x) labels
  behind-label dest p x labels lab =
      behind-cons dest (label_at c p x) labels
        (omega (arith, length-label_at c ready.end_in p x lab, lab.not_root))

  pub complete :
      (fuel : ℕ) {k p e : ℕ} {labels : List Bytes} (dest : Bytes) (len : Option ℕ) (i : ℕ)
      → Name c k p labels e
      → k < fuel
      → c.base + i + 2 * k < c.end
      → length (behind dest labels) < dest_limit c
      → expand_loop fuel c p dest len i ≡ ok (some (len_or len (e - c.src), behind dest labels))
  unfolding expand_loop
  complete zero dest len i name more few fits = absurd (omega arith)
  complete (suc fuel) dest len i (root {p} at_root stop) more few fits =
      let open_end : ltb (c.base + i) c.end ≡ true = ground (arith, few) in
      rw
        (
          open_end,
          expand_loop,
          expand_step-root c ready.end_in p dest len at_root (omega (arith, length-behind dest [])),
        )
        (rw (stop, behind-nil dest) refl)
  complete (suc fuel) dest len i (labelled {k} {p} {e} {labels} x lab rest) more few fits =
      let open_end : ltb (c.base + i) c.end ≡ true = ground (arith, few) in
      let same = behind-label dest p x labels lab in
      let so_far = length-behind (separated dest ++ label_at c p x) labels in
      let taken : length (separated dest) + x < dest_limit c = omega (
        arith,
        fits,
        ap length same,
        so_far,
        length-append (separated dest) (label_at c p x),
        length-label_at c ready.end_in p x lab,
      ) in
      rw
        (
          open_end,
          expand_loop,
          expand_step-label c ready.end_in p x dest len lab
              (omega (arith, fits, length-behind dest (label_at c p x ∷ labels))) taken,
        )
        (complete fuel (separated dest ++ label_at c p x) len (i + 2) rest (omega arith)
            (omega arith) (omega (arith, fits, ap length same))
          ∙ ap (λ t. ok (some (len_or len (e - c.src), t))) (sym same))
  complete (suc fuel) dest len i (pointed {k} {p} {q} {e} {e'} {labels} t rest stop) more few fits =
      let open_end : ltb (c.base + i) c.end ≡ true = ground (arith, few) in
      rw (open_end, expand_loop, expand_step-pointer c ready.end_in p q dest len t)
        (complete fuel dest (some (len_or len (p + 2 - c.src))) (i + 2) rest (omega arith)
            (omega arith) fits
          ∙ ap (λ t. ok (some (len_or len (t - c.src), behind dest labels))) (sym stop))
