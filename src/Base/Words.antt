-- ===== src/Base/Words.antt =====
-- Machine words of a little-endian 64-bit target as native numbers: the wrap-around is written out.
use Prim.Native.Nat.{ℕ, ◌+◌, ◌-◌, ◌*◌, ◌/◌, ◌%◌, ◌^◌}

-- `size_t` subtraction
abbrev pub sub_size : ℕ → ℕ → ℕ
sub_size a b = (a + 2 ^ 64 - b) % 2 ^ 64

-- `size_t` addition
abbrev pub add_size : ℕ → ℕ → ℕ
add_size a b = (a + b) % 2 ^ 64

-- `(uint16_t) x`
abbrev pub to_u16 : ℕ → ℕ
to_u16 x = x % 2 ^ 16

-- `ntohs` and `htons`: their argument is converted to `uint16_t` and its two bytes change places.
abbrev pub ntohs : ℕ → ℕ
ntohs x = (x % 256) * 256 + x / 256 % 256

-- `ntohl` and `htonl`
abbrev pub ntohl : ℕ → ℕ
ntohl x =
    (x % 256) * 2 ^ 24 + (x / 2 ^ 8 % 256) * 2 ^ 16 + (x / 2 ^ 16 % 256) * 2 ^ 8 + x / 2 ^ 24 % 256

-- `(x >> k) & (2 ^ n - 1)`, a bit field of `n` bits at bit `k`
abbrev pub bits : ℕ → ℕ → ℕ → ℕ
bits x k n = x / 2 ^ k % 2 ^ n
