-- ===== src/Dissectors/Wire.antt =====
-- Fields as they lie on the wire: big-endian, over the bytes of a packet spelled out.
use mathlib.Core.List.{append_assoc}
use open_sniffer.Base.{ℕ, ◌+◌, ◌*◌, ◌≡◌, ◌<◌, String, List, ◌++◌, Bytes, length, Option, some}
use open_sniffer.Base.{ltb, false, ◌≤◌, arith, ◌^◌}
use open_sniffer.Base.Words.{ntohs, ntohl}
use open_sniffer.Machine.{Arg, Print, World, Result, ok}
use open_sniffer.Osi.Packet.{Packet, Session}

-- A big-endian 16-bit field.
abbrev pub be16 : ℕ → ℕ → ℕ
be16 x y = 256 * x + y

abbrev pub line : String → List Arg → Print
line f args = record { format = f; args = args }

-- The result of a dump that makes these calls of `printf`.
abbrev pub prints : World → List Print → Result (Unit {0} × World)
prints w calls = ok (tt, record w { output = w.output ++ calls })

abbrev pub IsByte : ℕ → Type 0
IsByte x = x < 256

-- A packet as a decapsulation makes it: the packet in the block `addr`, its payload, which is exactly
-- these bytes, in the next.
abbrev pub packet_of : ℕ → ℕ → Option Session → Bytes → Packet
packet_of addr protocol session bytes = record {
  addr = addr;
  payload = some (record { addr = addr + 1; bytes = bytes });
  size = length bytes;
  protocol = protocol;
  session = session;
}

-- `ntohs` of a field that a little-endian machine loads is the field's big-endian value.
pub ntohs-le16 : (x y : ℕ) → IsByte x → IsByte y → ntohs (x + 2 ^ 8 * y) ≡ be16 x y
ntohs-le16 x y hx hy = omega arith

-- A loaded field that is not converted is the field with its bytes swapped.
pub le16-be16 : (x y : ℕ) → x + 2 ^ 8 * y ≡ be16 y x
le16-be16 x y = omega arith

-- `ntohs` of a 32-bit field sees its first two bytes on the wire only.
pub ntohs-le32 :
    (x y z t : ℕ)
    → IsByte x
    → IsByte y
    → ntohs (x + 2 ^ 8 * y + 2 ^ 16 * (z + 2 ^ 8 * t)) ≡ be16 x y
ntohs-le32 x y z t hx hy = omega arith

-- A big-endian 32-bit field.
abbrev pub be32 : ℕ → ℕ → ℕ → ℕ → ℕ
be32 x y z t = 2 ^ 24 * x + 2 ^ 16 * y + 2 ^ 8 * z + t

-- `ntohl` of a loaded field is the field's big-endian value.
pub ntohl-le32 :
    (x y z t : ℕ)
    → IsByte x
    → IsByte y
    → IsByte z
    → IsByte t
    → ntohl (x + 2 ^ 8 * y + 2 ^ 16 * (z + 2 ^ 8 * t)) ≡ be32 x y z t
ntohl-le32 x y z t hx hy hz ht = omega arith

-- The guard on the length of a payload that is long enough.
pub long_enough : (k n : ℕ) → k ≤ n → ltb n k ≡ false
long_enough k n h = ground arith

pub ruleset calls = (append_assoc, ntohs-le16)
