-- ===== src/Inaddr/Storage.antt =====
-- src/utils/inaddr.c: the functions on `struct sockaddr_storage`, which is a buffer here. The family
-- stands at byte 0; `struct sockaddr_in` has its port at byte 2 and its address at byte 4,
-- `struct sockaddr_in6` its port at byte 2 and its address at byte 8. `SIN6_LEN` is not defined on
-- the target.
use open_sniffer.Base.{ℕ, ◌||◌, Option, none, some, Bytes, ◌==◌, if◌then◌else◌}
use open_sniffer.Base.Words.{ntohs}
use open_sniffer.Machine.{Result, ok, and_then, Buffer, le16, bytes_at, store, bytes16}
use open_sniffer.Io.{zeros}

-- `AF_UNSPEC`, `AF_INET` and `AF_INET6`
abbrev pub af_unspec : ℕ
af_unspec = 0

abbrev pub af_inet : ℕ
af_inet = 2

abbrev pub af_inet6 : ℕ
af_inet6 = 10

-- The sizes of the three structures.
abbrev pub sockaddr_in_size : ℕ
sockaddr_in_size = 16

abbrev pub sockaddr_in6_size : ℕ
sockaddr_in6_size = 28

abbrev pub sockaddr_storage_size : ℕ
sockaddr_storage_size = 128

-- `sa->ss_family`
unfoldable pub ss_family : Buffer → Result ℕ
ss_family sa = le16 sa 0

-- `dst->ss_family = family` behind the store of an address at byte `i`, and the result 1.
unfoldable pub set_address : Buffer → ℕ → Bytes → ℕ → Result (ℕ × Buffer)
set_address dst i address family = and_then (store dst i address) λ with_address.
    and_then (store with_address 0 (bytes16 family)) λ with_family. ok (1, with_family)

-- `j_inet_pton`: `inet_pton` gives the bytes that it stores, or none where its result is not positive.
unfoldable pub j_inet_pton : (ℕ → Bytes → Option Bytes) → Bytes → Buffer → Result (ℕ × Buffer)
unfolding set_address
j_inet_pton inet_pton src dst = and_then (store dst 0 (zeros sockaddr_storage_size)) λ cleared.
    elim (inet_pton af_inet src) [
      | some address ↦ set_address cleared 4 address af_inet
      | none ↦ elim (inet_pton af_inet6 src) [
        | some address ↦ set_address cleared 8 address af_inet6
        | none ↦ ok (0, cleared)
      ]
    ]

-- `j_inet_ntop`: `inet_ntop` gives the text for an array of `size` bytes, or NULL.
unfoldable pub j_inet_ntop : (ℕ → Bytes → ℕ → Option Bytes) → Buffer → ℕ → Result (Option Bytes)
unfolding ss_family
j_inet_ntop inet_ntop src size = and_then (ss_family src) λ family.
    if family == af_unspec || family == af_inet
    then (and_then (bytes_at src 4 4) λ address. ok (inet_ntop af_inet address size))
    else if family == af_inet6
    then (and_then (bytes_at src 8 16) λ address. ok (inet_ntop af_inet6 address size))
    else ok none

-- `j_inet_getport`
unfoldable pub j_inet_getport : Buffer → Result ℕ
unfolding ss_family
j_inet_getport sa = and_then (ss_family sa) λ family.
    if family == af_inet
    then (and_then (le16 sa 2) λ port. ok (ntohs port))
    else if family == af_inet6
    then (and_then (le16 sa 2) λ port. ok (ntohs port))
    else ok 0

-- `j_inet_setport`
unfoldable pub j_inet_setport : Buffer → ℕ → Result (ℕ × Buffer)
unfolding ss_family
j_inet_setport sa port = and_then (ss_family sa) λ family.
    if family == af_inet
    then (and_then (store sa 2 (bytes16 (ntohs port))) λ changed. ok (1, changed))
    else if family == af_inet6
    then (and_then (store sa 2 (bytes16 (ntohs port))) λ changed. ok (1, changed))
    else ok (0, sa)

-- `j_inet_addrlen`
unfoldable pub j_inet_addrlen : Buffer → Result ℕ
unfolding ss_family
j_inet_addrlen sa = and_then (ss_family sa) λ family. ok (
    if family == af_inet
    then sockaddr_in_size
    else if family == af_inet6
    then sockaddr_in6_size
    else sockaddr_storage_size)
