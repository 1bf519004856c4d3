-- ===== src/Dissectors/Dns/Expand/Encode.antt =====
-- src/dissectors/dns/dns.c: `dn_expand` on a name that is written without compression.
use mathlib.Core.List.{append_assoc}
use open_sniffer.Base.{
  ℕ, suc, ◌+◌, ◌*◌, ◌≡◌, ◌≤◌, ◌<◌, refl, ◌∙◌, subst, some, List, [], ◌∷◌, ◌++◌, Bytes, All, length,
  length-append, take-append, drop-append, get_elem?-append, arith,
}
use open_sniffer.Machine.{ok, byte_at}
use open_sniffer.Dissectors.Dns.Expand.{Args, dest_limit, dn_expand}
use open_sniffer.Dissectors.Dns.Expand.Names.{IsLabel, label_at, Name, root, labelled, text_of}
use open_sniffer.Dissectors.Dns.Expand.Exact.{dn_expand-Expands}

-- A name as it is written: each label after its length, and a 0.
abbrev pub encode : List Bytes → Bytes
encode [] = 0 ∷ []
encode (l ∷ labels) = length l ∷ (l ++ encode labels)

-- A label has 1 to 63 bytes.
abbrev pub IsName : List Bytes → Type 0
IsName labels = All (λ l. (0 < length l) × (length l < 64)) labels

-- Each label takes two bytes at least.
pub length-encode :
    (labels : List Bytes) → IsName labels → 2 * length labels < length (encode labels)
length-encode [] h = omega arith
length-encode (l ∷ labels) h =
    omega (arith, h.0, length-encode labels h.1, length-append l (encode labels))

some_left : (labels : List Bytes) → 0 < length (encode labels)
some_left [] = omega arith
some_left (l ∷ labels) = omega arith

module _ (c : Args) where
  -- The labels are written behind `before`, inside the packet.
  record IsWritten (before : Bytes) (labels : List Bytes) (after : Bytes) : Type 0 where
    bytes_are : c.buffer.bytes ≡ before ++ (encode labels ++ after)
    inside : length before + length (encode labels) ≤ c.end

  first_byte :
      (before : Bytes) (p x : ℕ) (rest : Bytes)
      → p ≡ length before
      → c.buffer.bytes ≡ before ++ x ∷ rest
      → byte_at c.buffer p ≡ ok x
  unfolding byte_at
  first_byte before p x rest at e = rw (e, at, get_elem?-append before rest x) refl

  written-IsLabel :
      (before : Bytes) (p : ℕ) (l : Bytes) (labels : List Bytes) (after : Bytes)
      → p ≡ length before
      → (0 < length l) × (length l < 64)
      → IsWritten before (l ∷ labels) after
      → IsLabel c p (length l)
  written-IsLabel before p l labels after at (some_bytes, short) w = record {
    byte_is = first_byte before p (length l) ((l ++ encode labels) ++ after) at w.bytes_are;
    is_plain = omega arith;
    not_root = omega arith;
    inside = omega (arith, w.inside, length-append l (encode labels), some_left labels);
  }

  written-label_at :
      (before : Bytes) (p : ℕ) (l : Bytes) (labels : List Bytes) (after : Bytes)
      → p ≡ length before
      → IsWritten before (l ∷ labels) after
      → label_at c p (length l) ≡ l
  written-label_at before p l labels after at w =
      let opened : Bytes = before ++ length l ∷ [] in
      let rest : Bytes = l ++ (encode labels ++ after) in
      let whole : c.buffer.bytes ≡ opened ++ rest = w.bytes_are ∙ simp append_assoc in
      let here : p + 1 ≡ length opened = omega (arith, length-append before (length l ∷ [])) in
      rw (whole, here, drop-append opened rest) (take-append l (encode labels ++ after))

  written-Name :
      (before : Bytes) (p e : ℕ) (labels : List Bytes) (after : Bytes)
      → p ≡ length before
      → e ≡ p + length (encode labels)
      → IsName labels
      → IsWritten before labels after
      → Name c (length labels) p labels e
  written-Name before p e [] after at stop h w =
      root (first_byte before p 0 after at w.bytes_are) (omega arith)
  written-Name before p e (l ∷ labels) after at stop h w =
      let behind : Bytes = before ++ length l ∷ l in
      subst (λ t. Name c (suc (length labels)) p (t ∷ labels) e)
        (written-label_at before p l labels after at w)
        (labelled (length l) (written-IsLabel before p l labels after at h.0 w) (
          written-Name behind (p + 1 + length l) e labels after
            (omega (arith, length-append before (length l ∷ l)))
            (omega (arith, length-append l (encode labels))) h.1
            (record {
              bytes_are = w.bytes_are ∙ simp append_assoc;
              inside = omega (
                arith,
                w.inside,
                length-append before (length l ∷ l),
                length-append l (encode labels),
              );
            })))

-- A name of labels with 1 to 63 bytes each, written without compression inside a packet that lies in
-- its buffer, is expanded to its labels joined by dots, and its length is that of what is written,
-- if the text leaves room for its final 0 and two times the number of labels is less than the size of
-- the packet.
pub dn_expand-encode :
    (c : Args) (before : Bytes) (labels : List Bytes) (after : Bytes)
    → c.buffer.bytes ≡ before ++ (encode labels ++ after)
    → c.src ≡ length before
    → length before + length (encode labels) ≤ c.end
    → c.end ≤ length c.buffer.bytes
    → IsName labels
    → length (text_of labels) < dest_limit c
    → c.base + 2 * length labels < c.end
    → dn_expand c ≡ ok (some (length (encode labels), text_of labels))
dn_expand-encode c before labels after bytes_are at inside end_in h fits few =
    (dn_expand-Expands c (length (encode labels)) (text_of labels) (record {
      base_le_end = omega arith;
      src_lt_end = omega (arith, some_left labels);
      end_in = end_in;
      has_space = ground arith;
    })).1
      (record {
        steps = length labels;
        labels = labels;
        stop = c.src + length (encode labels);
        name =
            written-Name c before c.src (c.src + length (encode labels)) labels after at refl h
              (record { bytes_are = bytes_are; inside = inside });
        length_is = refl;
        text_is = refl;
        fits = fits;
        few = few;
      })
