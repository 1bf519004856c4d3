-- ===== src/Base/Text.antt =====
-- Text as the bytes of the characters, and what `printf` and `sprintf` make of numbers.
use Prim.Native.Nat.{ℕ, ◌+◌, ◌-◌, ◌/◌, ◌%◌}
use Prim.Native.Char.{code}
use Prim.Native.String.{String}
use mathlib.Core.List.{[], ◌∷◌}
use open_sniffer.Base.Lists.{Bytes}
use open_sniffer.Base.Tests.{ltb, if◌then◌else◌}

-- The bytes of an ASCII literal.
abbrev pub codes : String → Bytes
codes String.[] = []
codes (String.◌∷◌ c s) = code c ∷ codes s

-- One lower-case hexadecimal digit.
abbrev pub hex_digit : ℕ → ℕ
hex_digit n = if ltb n 10 then b'0' + n else b'a' + n - 10

-- `%02x` of a byte
abbrev pub hex_byte : ℕ → Bytes
hex_byte n = hex_digit (n / 16 % 16) ∷ hex_digit (n % 16) ∷ []

-- `%u` of a byte: one to three digits
abbrev pub dec_byte : ℕ → Bytes
dec_byte n =
    if ltb n 10
    then (b'0' + n) ∷ []
    else if ltb n 100
    then (b'0' + n / 10) ∷ (b'0' + n % 10) ∷ []
    else (b'0' + n / 100) ∷ (b'0' + n / 10 % 10) ∷ (b'0' + n % 10) ∷ []
