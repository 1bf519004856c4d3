-- ===== src/Dissectors/Dns/Header.antt =====
-- includes/dissectors/dns/dns.h: the fields of `dnshdr`, as a little-endian machine lays them out,
-- and the tests of `dns_dissector_handles`.
pub mod Safety
use open_sniffer.Base.{
  ℕ, ◌+◌, ◌*◌, ◌%◌, ◌^◌, ◌||◌, not, Bool, Option, none, some, ltb, ◌==◌, if◌then◌else◌,
}
use open_sniffer.Base.Words.{ntohs, bits}
use open_sniffer.Machine.{Result, ok, and_then, Buffer, byte_at, le16}
use open_sniffer.Osi.Packet.{Packet, Session}
use open_sniffer.Osi.Dissector.{osi_packet_not_supported, osi_packet_supported}

-- `sizeof(dnshdr)`, `sizeof(dns_query)` and `sizeof(dns_resource_record)`
abbrev pub dnshdr_size : ℕ
dnshdr_size = 12

abbrev pub dns_query_size : ℕ
dns_query_size = 4

abbrev pub dns_resource_record_size : ℕ
dns_resource_record_size = 10

-- A 16-bit field of the header through `ntohs`.
unfoldable pub field16 : Buffer → ℕ → Result ℕ
field16 b i = and_then (le16 b i) (λ x. ok (ntohs x))

-- `header->id`, `qcount`, `ancount`, `nscount` and `arcount`, as host numbers
abbrev pub id : Buffer → Result ℕ
id b = field16 b 0

abbrev pub qcount : Buffer → Result ℕ
qcount b = field16 b 4

abbrev pub ancount : Buffer → Result ℕ
ancount b = field16 b 6

abbrev pub nscount : Buffer → Result ℕ
nscount b = field16 b 8

abbrev pub arcount : Buffer → Result ℕ
arcount b = field16 b 10

-- The bit fields of the third and the fourth byte.
abbrev pub qr : Buffer → Result ℕ
qr b = and_then (byte_at b 2) (λ x. ok (bits x 7 1))

abbrev pub rcode : Buffer → Result ℕ
rcode b = and_then (byte_at b 3) (λ x. ok (bits x 0 4))

abbrev pub unused : Buffer → Result ℕ
unused b = and_then (byte_at b 3) (λ x. ok (bits x 6 1))

-- `get_minimum_packet_size` of the counts and the response flag, a `uint32_t`
unfoldable pub minimum_size : ℕ → ℕ → ℕ → ℕ
minimum_size questions answers response =
    let required = (dnshdr_size + questions * dns_query_size) % 2 ^ 32 in
    if not (response == 0)
    then (required + answers * dns_resource_record_size) % 2 ^ 32
    else required

-- `get_minimum_packet_size`
unfoldable pub get_minimum_packet_size : Buffer → Result ℕ
unfolding minimum_size field16
get_minimum_packet_size b = and_then (qcount b) λ questions.
    and_then (ancount b)
      λ answers. and_then (qr b) λ response. ok (minimum_size questions answers response)

unfoldable pub handles_header : Packet → Buffer → Result Bool
unfolding field16 get_minimum_packet_size
handles_header packet b = and_then (qcount b) λ questions. and_then (ancount b) λ answers.
    and_then (unused b) λ zeros. and_then (rcode b) λ code.
      if not (zeros == 0) || ltb 5 code || ltb 5 questions || ltb 10 answers
      then ok osi_packet_not_supported
      else and_then (get_minimum_packet_size b) λ required.
        ok (if ltb packet.size required then osi_packet_not_supported else osi_packet_supported)

unfoldable pub handles_data : Packet → Option Buffer → Option Session → Result Bool
unfolding handles_header
handles_data packet none session = ok osi_packet_not_supported
handles_data packet (some b) none = ok osi_packet_not_supported
handles_data packet (some b) (some s) =
    if ltb packet.size dnshdr_size then ok osi_packet_not_supported else handles_header packet b

-- `dns_dissector_handles`
unfoldable pub handles : Option Packet → Result Bool
unfolding handles_data
handles none = ok osi_packet_not_supported
handles (some packet) = handles_data packet packet.payload packet.session
