-- ===== src/Dissectors/Dns/Expand.antt =====
-- src/dissectors/dns/dns.c: `dn_expand`. Pointers into the packet are offsets into its buffer; the
-- pointer into the destination is the number of bytes written so far.
pub mod Round
pub mod Safety
pub mod Ends
pub mod Names
pub mod Steps
pub mod Shape
pub mod Complete
pub mod Exact
pub mod Encode
use open_sniffer.Base.{
  ℕ, zero, suc, ◌+◌, ◌-◌, ◌*◌, ◌%◌, Bool, true, false, not, ◌||◌, Option, none, some, [], ◌∷◌, ◌++◌,
  Bytes, length, ltb, leb, ◌==◌, if◌then◌else◌,
}
use open_sniffer.Base.Words.{bits}
use open_sniffer.Machine.{out_of_bounds, out_of_fuel, Result, ok, fault, and_then, Buffer, byte_at}

-- The arguments of `dn_expand`; `dest` is an array of `space` bytes.
pub record Args : Type 0 where
  pub buffer : Buffer
  pub base : ℕ
  pub end : ℕ
  pub src : ℕ
  pub space : ℕ

-- `dend - dbegin`
abbrev pub dest_limit : Args → ℕ
dest_limit c = if ltb 254 c.space then 254 else c.space

-- `*dest++ = x`
unfoldable pub put : Args → Bytes → ℕ → Result Bytes
put c dest x = if ltb (length dest) c.space then ok (dest ++ x ∷ []) else fault out_of_bounds

-- `while (j--) *dest++ = *p++`
unfoldable pub copy : Args → ℕ → ℕ → Bytes → Result Bytes
unfolding put
copy c zero p dest = ok dest
copy c (suc j) p dest =
    and_then (byte_at c.buffer p) λ x. and_then (put c dest x) λ dest'. copy c j (p + 1) dest'

-- What a round of the loop does: return -1, return a length with the text in `dest`, or go on
-- with other `p`, `dest` and `len` (`none` stands for a `len` that is still -1).
pub data Step : Type 0 where
  invalid : Step
  finished : ℕ → Bytes → Step
  continue : ℕ → Bytes → Option ℕ → Step

abbrev pub len_or : Option ℕ → ℕ → ℕ
len_or none n = n
len_or (some len) n = len

-- `if (*p & 0xc0)`: a compression pointer, of which `x` is the first byte.
unfoldable pub follow : Args → ℕ → Bytes → Option ℕ → ℕ → Result Step
follow c p dest len x =
    if p + 1 == c.end
    then ok invalid
    else and_then (byte_at c.buffer (p + 1)) λ y.
      let j = x % 64 * 256 + y in
      ok (
        if leb c.end (c.base + j)
        then invalid
        else continue (c.base + j) dest (some (len_or len (p + 2 - c.src))))

-- `if (dest != dbegin) *dest++ = '.'`
unfoldable pub separate : Args → Bytes → Result Bytes
unfolding put
separate c [] = ok []
separate c (x ∷ dest) = put c (x ∷ dest) b'.'

-- `else if (*p)`: a label of `j` bytes.
unfoldable pub label : Args → ℕ → Bytes → Option ℕ → ℕ → Result Step
unfolding separate copy
label c p dest len j = and_then (separate c dest) λ dest'.
    if leb c.end (p + 1 + j) || leb (dest_limit c) (length dest' + j)
    then ok invalid
    else and_then (copy c j (p + 1) dest') λ dest''. ok (continue (p + 1 + j) dest'' len)

-- `else`: the root.
unfoldable pub finish : Args → ℕ → Bytes → Option ℕ → Result Step
unfolding put
finish c p dest len = and_then (put c dest 0) λ _. ok (finished (len_or len (p + 1 - c.src)) dest)

-- The body of the loop.
unfoldable pub expand_step : Args → ℕ → Bytes → Option ℕ → Result Step
unfolding follow label finish
expand_step c p dest len = and_then (byte_at c.buffer p) λ x.
    if not (bits x 6 2 == 0)
    then follow c p dest len x
    else if not (x == 0)
    then label c p dest len x
    else finish c p dest len

abbrev pub resume :
    (ℕ → Bytes → Option ℕ → Result (Option (ℕ × Bytes))) → Step → Result (Option (ℕ × Bytes))
resume go invalid = ok none
resume go (finished len dest) = ok (some (len, dest))
resume go (continue p dest len) = go p dest len

-- The loop, with `i` counted up by two.
unfoldable pub expand_loop : ℕ → Args → ℕ → Bytes → Option ℕ → ℕ → Result (Option (ℕ × Bytes))
unfolding expand_step
expand_loop zero c p dest len i = fault out_of_fuel
expand_loop (suc fuel) c p dest len i = elim (ltb (c.base + i) c.end) [
  | true ↦
      and_then (expand_step c p dest len)
        (resume (λ p' dest' len'. expand_loop fuel c p' dest' len' (i + 2)))
  | false ↦ ok none
]

-- More rounds than the loop can make.
abbrev pub rounds : Args → ℕ
rounds c = c.end - c.base + 1

-- `dn_expand`: `none` is -1; else the length and the bytes written before the final 0.
unfoldable pub dn_expand : Args → Result (Option (ℕ × Bytes))
unfolding expand_loop
dn_expand c =
    if c.src == c.end || c.space == 0 then ok none else expand_loop (rounds c) c c.src [] none 0
