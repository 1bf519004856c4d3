-- ===== src/Tests/Addresses.antt =====
-- The port of an address, and an address as text.
use open_sniffer.Base.{
  ℕ, zero, suc, ◌≡◌, ◌⊎◌, inl, refl, Option, none, some, [], ◌∷◌, Bytes, length, ◌==◌, ==_iff,
  if◌then◌else◌, arith,
}
use open_sniffer.Machine.{Buffer, ok}
use open_sniffer.Inaddr.Storage.{
  j_inet_pton, j_inet_ntop, j_inet_getport, j_inet_setport, j_inet_addrlen,
}
use open_sniffer.Inaddr.Texts.{IsInetPton, j_inet_ntop-j_inet_pton}
use open_sniffer.Inaddr.Ports.{sockaddr, IsInternet, j_inet_getport-j_inet_setport}

abbrev loopback : Bytes
loopback = 127 ∷ 0 ∷ 0 ∷ 1 ∷ []

-- Port 8080 in a `struct sockaddr_in`.
j_inet_getport-j_inet_setport_example :
    (IsInternet 1 2 0
      × (j_inet_setport (sockaddr 1 2 0 0 0 loopback) 8080
          ≡ ok (1, sockaddr 1 2 0 0x1f 0x90 loopback))
      × (j_inet_getport (sockaddr 1 2 0 0x1f 0x90 loopback) ≡ ok 8080))
    ⊎ ((IsInternet 1 2 0 → ⊥)
        × (j_inet_setport (sockaddr 1 2 0 0 0 loopback) 8080 ≡ ok (0, sockaddr 1 2 0 0 0 loopback))
        × (j_inet_getport (sockaddr 1 2 0 0 0 loopback) ≡ ok 0))
j_inet_getport-j_inet_setport_example =
    j_inet_getport-j_inet_setport 1 2 0 0 0 8080 loopback (omega arith)

-- A stand-in for `inet_pton`: the bytes of an address are its text.
abbrev verbatim : ℕ → Bytes → Option Bytes
verbatim af src =
    if af == 2
    then if length src == 4 then some src else none
    else if length src == 16
    then some src
    else none

verbatim-IsInetPton : IsInetPton verbatim
verbatim-IsInetPton = record {
  four = λ src address e. ground (arith, ==_iff (length src) 4);
  sixteen = λ src address e. ground (arith, ==_iff (length src) 16);
}

abbrev printed : ℕ → Bytes → ℕ → Option Bytes
printed af address size = some address

-- A whole structure that holds ones.
abbrev ones : ℕ → Bytes
ones zero = []
ones (suc n) = 1 ∷ ones n

j_inet_ntop-j_inet_pton_example :
    (sa : Buffer) × (j_inet_pton verbatim loopback (record { addr = 1; bytes = ones 128 })
      ≡ ok (1, sa))
    × (j_inet_ntop printed sa 16 ≡ ok (some loopback))
    × (j_inet_getport sa ≡ ok 0)
    × (j_inet_addrlen sa ≡ ok 16)
j_inet_ntop-j_inet_pton_example =
    j_inet_ntop-j_inet_pton verbatim printed loopback (record { addr = 1; bytes = ones 128 }) 2
      loopback 16 verbatim-IsInetPton refl (inl (refl, refl))
