-- ===== src/Inaddr/Dotted.antt =====
-- `inet_ntoa` on an address as it is loaded from the wire.
use open_sniffer.Base.{
  ℕ, ◌+◌, ◌*◌, ◌/◌, ◌%◌, ◌^◌, ◌≡◌, [], ◌∷◌, ◌++◌, Bytes, All, ◌<◌, dec_byte, arith,
}
use open_sniffer.Inaddr.{inet_ntoa}

-- The dotted quad of the bytes `a.b.c.d`.
abbrev pub dotted : ℕ → ℕ → ℕ → ℕ → Bytes
dotted a b c d = dec_byte a ++ b'.' ∷ dec_byte b ++ b'.' ∷ dec_byte c ++ b'.' ∷ dec_byte d

-- An address is shown byte by byte in the order of the wire.
pub inet_ntoa-le32 :
    (a b c d : ℕ)
    → All (λ x. x < 256) (a ∷ b ∷ c ∷ d ∷ [])
    → inet_ntoa (a + 2 ^ 8 * b + 2 ^ 16 * (c + 2 ^ 8 * d)) ≡ dotted a b c d
unfolding inet_ntoa
inet_ntoa-le32 a b c d (ha, (hb, (hc, (hd, _)))) =
    let x : ℕ = a + 2 ^ 8 * b + 2 ^ 16 * (c + 2 ^ 8 * d) in
    let ea : x % 256 ≡ a = omega arith in
    let eb : x / 2 ^ 8 % 256 ≡ b = omega arith in
    let ec : x / 2 ^ 16 % 256 ≡ c = omega arith in
    let ed : x / 2 ^ 24 % 256 ≡ d = omega arith in rw (ea, eb, ec, ed)
