-- ===== src/Osi/Packet.antt =====
-- includes/osi.h: the packets, sessions and layers, and their creation and destruction in
-- src/osi.c.
use open_sniffer.Base.{◌≡◌, ap, ℕ, Option, none, some}
use open_sniffer.Machine.{
  null_pointer, Result, ok, fault, M, ◌>>=◌, ◌>>◌, ret, lift, malloc, free, Buffer, bytes_at,
}

-- `osi_session_t`; `addr` is the block that holds it.
pub record Session : Type 0 where
  pub addr : ℕ
  pub id : ℕ
  pub src_port : ℕ
  pub dest_port : ℕ

-- `packet_t`; `payload` is its field `data`, and `addr` the block that holds it.
pub record Packet : Type 0 where
  pub addr : ℕ
  pub payload : Option Buffer
  pub size : ℕ
  pub protocol : ℕ
  pub session : Option Session

-- `osi_layer_t`: a layer is its number, and `++layer` goes past the last of them.
abbrev pub osi_layer_1 : ℕ
osi_layer_1 = 1

abbrev pub osi_layer_2 : ℕ
osi_layer_2 = 2

abbrev pub osi_layer_3 : ℕ
osi_layer_3 = 3

abbrev pub osi_layer_7 : ℕ
osi_layer_7 = 7

-- `osi_create_session`
unfoldable pub create_session : ℕ → ℕ → ℕ → M (Option Session)
create_session id src_port dest_port = do
  addr ← malloc
  ret (some (record { addr = addr; id = id; src_port = src_port; dest_port = dest_port }))

abbrev pub session_addr : Option Session → Option ℕ
session_addr none = none
session_addr (some s) = some s.addr

abbrev pub payload_addr : Option Buffer → Option ℕ
payload_addr none = none
payload_addr (some b) = some b.addr

-- `osi_destroy_session`
unfoldable pub destroy_session : Option Session → M (Unit {0})
destroy_session s = free (session_addr s)

-- `osi_destroy_packet`
unfoldable pub destroy_packet : Option Packet → M (Unit {0})
unfolding destroy_session
destroy_packet none = ret tt
destroy_packet (some p) = do
  destroy_session p.session
  free (payload_addr p.payload)
  free (some p.addr)

-- `packet->data`, dereferenced.
unfoldable pub deref_payload : Packet → Option Buffer → Result (Packet × Buffer)
deref_payload p none = fault null_pointer
deref_payload p (some b) = ok (p, b)

unfoldable pub data_of : Option Packet → Result (Packet × Buffer)
unfolding deref_payload
data_of none = fault null_pointer
data_of (some p) = deref_payload p p.payload

pub data_of-some : (p : Packet) (b : Buffer) → p.payload ≡ some b → data_of (some p) ≡ ok (p, b)
unfolding data_of
data_of-some p b e = ap (deref_payload p) e

-- The statements that end each decapsulation: a packet and `size` bytes for its payload are
-- allocated, `hint` reads its protocol and `session` makes its session, and the payload is copied
-- from `source + offset`.
unfoldable pub build : ℕ → Result ℕ → M (Option Session) → Buffer → ℕ → M (Option Packet)
build size hint session source offset = do
  addr ← malloc
  block ← malloc
  protocol ← lift hint
  made ← session
  bytes ← lift (bytes_at source offset size)
  let copy : Option Buffer = some (record { addr = block; bytes = bytes })
  ret (
      some
        (record { addr = addr; payload = copy; size = size; protocol = protocol; session = made }))
