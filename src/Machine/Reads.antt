-- ===== src/Machine/Reads.antt =====
-- When a read of a buffer succeeds and when it is a fault.
use open_sniffer.Base.{
  ℕ, ◌+◌, ◌*◌, ◌^◌, ◌≡◌, ◌≤◌, ◌<◌, arith, length, get_elem?-of_lt, get_elem?-of_le, take, drop,
}
use native.Mathlib.Decide.{dec_lt}
use open_sniffer.Machine.{out_of_bounds, ok, fault, Buffer, byte_at, le16, le32, bytes_at}

module _ (b : Buffer) where
  pub byte_at-ok : (i : ℕ) → i < length b.bytes → (x : ℕ) × (byte_at b i ≡ ok x)
  unfolding byte_at
  byte_at-ok i h = let (x, e) = get_elem?-of_lt b.bytes i h in (x, rw e)

  pub byte_at-fault : (i : ℕ) → length b.bytes ≤ i → byte_at b i ≡ fault out_of_bounds
  unfolding byte_at
  byte_at-fault i h = rw (get_elem?-of_le b.bytes i h)

  pub le16-ok : (i : ℕ) → i + 2 ≤ length b.bytes → (x : ℕ) × (le16 b i ≡ ok x)
  unfolding le16
  le16-ok i h =
      let (x, e) = get_elem?-of_lt b.bytes i (omega arith) in
      let (y, f) = get_elem?-of_lt b.bytes (i + 1) (omega arith) in (x + 2 ^ 8 * y, rw (e, f))

  pub le32-ok : (i : ℕ) → i + 4 ≤ length b.bytes → (x : ℕ) × (le32 b i ≡ ok x)
  unfolding le32
  le32-ok i h =
      let (x, e) = le16-ok i (omega arith) in
      let (y, f) = le16-ok (i + 2) (omega arith) in (x + 2 ^ 16 * y, rw (e, f))

  -- A load that reaches past the end is a fault, wherever in it the end lies.
  pub le16-fault : (i : ℕ) → length b.bytes ≤ i + 1 → le16 b i ≡ fault out_of_bounds
  unfolding le16
  le16-fault i h = elim (dec_lt i (length b.bytes)) [
    | yes p ↦ rw ((byte_at-ok i p).1, byte_at-fault (i + 1) h)
    | no p ↦ rw (byte_at-fault i (omega arith))
  ]

  pub le32-fault : (i : ℕ) → length b.bytes ≤ i + 3 → le32 b i ≡ fault out_of_bounds
  unfolding le32
  le32-fault i h = elim (dec_lt (i + 1) (length b.bytes)) [
    | yes p ↦ rw ((le16-ok i (omega arith)).1, le16-fault (i + 2) (omega arith))
    | no p ↦ rw (le16-fault i (omega arith))
  ]

  pub bytes_at-ok :
      (i n : ℕ) → i + n ≤ length b.bytes → bytes_at b i n ≡ ok (take n (drop i b.bytes))
  unfolding bytes_at
  bytes_at-ok i n h = ground arith
