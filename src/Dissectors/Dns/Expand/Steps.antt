-- ===== src/Dissectors/Dns/Expand/Steps.antt =====
-- src/dissectors/dns/dns.c: a round of the loop of `dn_expand` at a root, a label and a pointer.
use mathlib.Core.List.{append-nil, append_assoc}
use open_sniffer.Base.{
  ℕ, zero, suc, false, leb, ◌==◌, ◌+◌, ◌-◌, ◌*◌, ◌%◌, ◌≡◌, refl, ◌≤◌, ◌<◌, ◌∙◌, ap, sym, some,
  Option, [], ◌∷◌, ◌++◌, Bytes, take, drop, length, length-append, length-take, length-drop,
  get_elem?, get_elem?-of_lt, arith,
}
use open_sniffer.Base.Words.{bits}
use open_sniffer.Machine.{ok, byte_at}
use open_sniffer.Dissectors.Dns.Expand.{
  Args, dest_limit, len_or, put, copy, finished, continue, follow, separate, label, finish,
  expand_step,
}
use open_sniffer.Dissectors.Dns.Expand.Names.{IsLabel, IsPointer, label_at, separated}

drop-get_elem? : (xs : Bytes) (p x : ℕ) → get_elem? xs p ≡ some x → drop p xs ≡ x ∷ drop (p + 1) xs
drop-get_elem? [] p x e = cc
drop-get_elem? (y ∷ xs) zero x e = ground arith
drop-get_elem? (y ∷ xs) (suc p) x e =
    drop-get_elem? xs p x e ∙ ap (λ n. x ∷ drop n (y ∷ xs)) (drop_later p)
  where
    drop_later : (n : ℕ) → suc (n + 1) ≡ suc n + 1
    drop_later n = omega arith

pub dest_limit-le : (c : Args) → dest_limit c ≤ c.space
dest_limit-le c = ground arith

module _ (c : Args) (end_in : c.end ≤ length c.buffer.bytes) where
  put-ok : (dest : Bytes) (x : ℕ) → length dest < c.space → put c dest x ≡ ok (dest ++ x ∷ [])
  unfolding put
  put-ok dest x h = ground arith

  pub separate-ok : (dest : Bytes) → length dest < c.space → separate c dest ≡ ok (separated dest)
  unfolding separate
  separate-ok [] h = refl
  separate-ok (x ∷ dest) h = put-ok (x ∷ dest) b'.' h

  -- A copy inside the buffer and the destination appends what stands at `p`.
  copy-ok :
      (j p : ℕ) (dest : Bytes)
      → p + j ≤ length c.buffer.bytes
      → length dest + j ≤ c.space
      → copy c j p dest ≡ ok (dest ++ take j (drop p c.buffer.bytes))
  unfolding copy byte_at
  copy-ok zero p dest h k = ap ok (sym (append-nil dest))
  copy-ok (suc j) p dest h k =
      let (x, e) = get_elem?-of_lt c.buffer.bytes p (omega arith) in
      rw (e, put-ok dest x (omega arith), drop-get_elem? c.buffer.bytes p x e)
        (copy-ok j (p + 1) (dest ++ x ∷ []) (omega arith)
            (omega (arith, length-append dest (x ∷ [])))
          ∙ ap ok (append_assoc dest (x ∷ []) (take j (drop (p + 1) c.buffer.bytes))))

  pub length-label_at : (p x : ℕ) → IsLabel c p x → length (label_at c p x) ≡ x
  length-label_at p x l = omega (
    arith,
    length-take x (drop (p + 1) c.buffer.bytes),
    length-drop (p + 1) c.buffer.bytes,
    l.inside,
  )

  pub expand_step-root :
      (p : ℕ) (dest : Bytes) (len : Option ℕ)
      → byte_at c.buffer p ≡ ok 0
      → length dest < dest_limit c
      → expand_step c p dest len ≡ ok (finished (len_or len (p + 1 - c.src)) dest)
  unfolding expand_step finish
  expand_step-root p dest len e h = rw (e, put-ok dest 0 (omega (arith, dest_limit-le c))) refl

  pub expand_step-label :
      (p x : ℕ) (dest : Bytes) (len : Option ℕ)
      → IsLabel c p x
      → length dest < dest_limit c
      → length (separated dest) + x < dest_limit c
      → expand_step c p dest len ≡ ok (continue (p + 1 + x) (separated dest ++ label_at c p x) len)
  unfolding expand_step label
  expand_step-label p x dest len l h k =
      let some_bytes : (x == 0) ≡ false = ground (arith, l.not_root) in
      let inside : leb c.end (p + 1 + x) ≡ false = ground (arith, l.inside) in
      let room : leb (dest_limit c) (length (separated dest) + x) ≡ false = ground arith in
      let copied =
        copy-ok x (p + 1) (separated dest) (omega (arith, l.inside, end_in))
          (omega (arith, dest_limit-le c)) in
      rw
        (
          l.byte_is,
          l.is_plain,
          some_bytes,
          separate-ok dest (omega (arith, dest_limit-le c)),
          inside,
          room,
          copied,
        )
        refl

  pub expand_step-pointer :
      (p q : ℕ) (dest : Bytes) (len : Option ℕ)
      → IsPointer c p q
      → expand_step c p dest len ≡ ok (continue q dest (some (len_or len (p + 2 - c.src))))
  unfolding expand_step follow
  expand_step-pointer p q dest len t =
      let marked : (bits t.high 6 2 == 0) ≡ false = ground (arith, t.is_marked) in
      let more : (p + 1 == c.end) ≡ false = ground (arith, t.has_next) in
      let inside : leb c.end (c.base + (t.high % 64 * 256 + t.low)) ≡ false =
        ground (arith, t.inside, t.target_is) in
      rw (t.byte_is, marked, more, t.next_is, inside) (rw t.target_is refl)
