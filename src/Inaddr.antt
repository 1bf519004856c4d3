-- ===== src/Inaddr.antt =====
-- src/utils/inaddr.c and includes/utils/inaddr.h: addresses as text.
pub mod Safety
pub mod Dotted
pub mod Storage
pub mod Ports
pub mod Texts
use open_sniffer.Base.{ℕ, ◌+◌, ◌/◌, ◌%◌, ◌^◌, [], ◌∷◌, ◌++◌, Bytes, hex_byte, dec_byte}
use open_sniffer.Machine.{Result, ok, and_then, Buffer, byte_at}

-- Six bytes of an address as pairs of hexadecimal digits.
abbrev pub colons : ℕ → ℕ → ℕ → ℕ → ℕ → ℕ → Bytes
colons a b c d e f =
    hex_byte a
    ++ b':' ∷ hex_byte b
    ++ b':' ∷ hex_byte c
    ++ b':' ∷ hex_byte d
    ++ b':' ∷ hex_byte e
    ++ b':' ∷ hex_byte f

-- `stringify_hw_addr(b + i)`
unfoldable pub stringify_hw_addr : Buffer → ℕ → Result Bytes
stringify_hw_addr b i = and_then (byte_at b i) λ a0. and_then (byte_at b (i + 1)) λ a1.
    and_then (byte_at b (i + 2)) λ a2. and_then (byte_at b (i + 3)) λ a3.
      and_then (byte_at b (i + 4))
        λ a4. and_then (byte_at b (i + 5)) λ a5. ok (colons a0 a1 a2 a3 a4 a5)

-- `inet_ntoa` of a `struct in_addr` whose little-endian value is `ip`: its bytes in memory order.
unfoldable pub inet_ntoa : ℕ → Bytes
inet_ntoa ip =
    dec_byte (ip % 256)
    ++ b'.' ∷ dec_byte (ip / 2 ^ 8 % 256)
    ++ b'.' ∷ dec_byte (ip / 2 ^ 16 % 256)
    ++ b'.' ∷ dec_byte (ip / 2 ^ 24 % 256)
