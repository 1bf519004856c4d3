-- ===== src/Inaddr/Texts.antt =====
-- src/utils/inaddr.c: an address given as text, and its text.
use open_sniffer.Base.{
  ℕ, zero, suc, if◌then◌else◌, ◌==◌, ◌≡◌, refl, sym, ap, ◌∙◌, subst, ◌⊎◌, inl, inr, false, Option,
  none, some, [], ◌∷◌, ◌++◌, Bytes, length, length-append, take, drop, take-append, ltb, arith,
}
use open_sniffer.Machine.{ok, Buffer, le16, byte_at, bytes_at, store}
use open_sniffer.Machine.Reads.{bytes_at-ok}
use open_sniffer.Io.{zeros}
use open_sniffer.Inaddr.Storage.{
  af_inet, af_inet6, ss_family, set_address, j_inet_pton, j_inet_ntop, j_inet_getport,
  j_inet_addrlen, sockaddr_in_size, sockaddr_in6_size, sockaddr_storage_size,
}

-- `inet_pton` as it is documented: an address has four bytes for IPv4 and sixteen for IPv6.
pub record IsInetPton (inet_pton : ℕ → Bytes → Option Bytes) : Type 0 where
  pub four : (src address : Bytes) → inet_pton af_inet src ≡ some address → length address ≡ 4
  pub sixteen : (src address : Bytes) → inet_pton af_inet6 src ≡ some address → length address ≡ 16

-- `af` is the first of the two families by which `inet_pton` reads the text, as `address`.
abbrev pub IsRead : (ℕ → Bytes → Option Bytes) → Bytes → ℕ → Bytes → Type 0
IsRead inet_pton src af address =
    ((af ≡ af_inet) × (inet_pton af_inet src ≡ some address))
    ⊎ ((af ≡ af_inet6) × (inet_pton af_inet src ≡ none) × (inet_pton af_inet6 src ≡ some address))

-- A structure with the family and the port in `head`, behind them `address`, and zeros.
abbrev holding : ℕ → Bytes → Bytes → ℕ → Buffer
holding addr head address left = record { addr = addr; bytes = head ++ (address ++ zeros left) }

drop-all : (xs : Bytes) (n : ℕ) → n ≡ length xs → drop n xs ≡ []
drop-all [] zero h = refl
drop-all [] (suc n) h = refl
drop-all (x ∷ xs) zero h = absurd (omega arith)
drop-all (x ∷ xs) (suc n) h = drop-all xs n (omega arith)

four_or_more : (n : ℕ) → ltb (suc (suc (suc (suc n)))) 2 ≡ false
four_or_more n = ground arith

store-zeros :
    (dst : Buffer)
    → length dst.bytes ≡ sockaddr_storage_size
    → store dst 0 (zeros sockaddr_storage_size) ≡ ok (holding dst.addr [] [] 128)
unfolding store
store-zeros dst h = rw h (
    ap (λ t. ok (record { addr = dst.addr; bytes = zeros sockaddr_storage_size ++ t }))
      (drop-all dst.bytes 128 (sym h)))

set_address-inet :
    (addr : ℕ) (address : Bytes)
    → length address ≡ 4
    → set_address (holding addr [] [] 128) 4 address af_inet
      ≡ ok (1, holding addr (2 ∷ 0 ∷ 0 ∷ 0 ∷ []) address 120)
unfolding set_address store
set_address-inet addr address h = rw (h, four_or_more (length (address ++ zeros 120))) refl

set_address-inet6 :
    (addr : ℕ) (address : Bytes)
    → length address ≡ 16
    → set_address (holding addr [] [] 128) 8 address af_inet6
      ≡ ok (1, holding addr (10 ∷ 0 ∷ 0 ∷ 0 ∷ 0 ∷ 0 ∷ 0 ∷ 0 ∷ []) address 104)
unfolding set_address store
set_address-inet6 addr address h =
    rw (h, four_or_more (suc (suc (suc (suc (length (address ++ zeros 104))))))) refl

bytes_at-inet :
    (addr : ℕ) (address : Bytes)
    → length address ≡ 4
    → bytes_at (holding addr (2 ∷ 0 ∷ 0 ∷ 0 ∷ []) address 120) 4 4 ≡ ok address
bytes_at-inet addr address h =
    bytes_at-ok (holding addr (2 ∷ 0 ∷ 0 ∷ 0 ∷ []) address 120) 4 4
      (omega (arith, length-append address (zeros 120)))
    ∙ ap ok
        (subst (λ n. take n (address ++ zeros 120) ≡ address) h (take-append address (zeros 120)))

bytes_at-inet6 :
    (addr : ℕ) (address : Bytes)
    → length address ≡ 16
    → bytes_at (holding addr (10 ∷ 0 ∷ 0 ∷ 0 ∷ 0 ∷ 0 ∷ 0 ∷ 0 ∷ []) address 104) 8 16 ≡ ok address
bytes_at-inet6 addr address h =
    bytes_at-ok (holding addr (10 ∷ 0 ∷ 0 ∷ 0 ∷ 0 ∷ 0 ∷ 0 ∷ 0 ∷ []) address 104) 8 16
      (omega (arith, length-append address (zeros 104)))
    ∙ ap ok
        (subst (λ n. take n (address ++ zeros 104) ≡ address) h (take-append address (zeros 104)))

-- The size of the structure for a family of the internet.
abbrev pub size_of : ℕ → ℕ
size_of af = if af == af_inet then sockaddr_in_size else sockaddr_in6_size

-- A text that `inet_pton` reads is accepted by `j_inet_pton` for a whole `struct sockaddr_storage`,
-- whatever that holds: IPv4 is tried before IPv6. Of the structure that it leaves, `j_inet_ntop` gives
-- the text that `inet_ntop` has for the address in that family, the port is 0, and
-- `j_inet_addrlen` is the size of the family's structure.
pub j_inet_ntop-j_inet_pton :
    (inet_pton : ℕ → Bytes → Option Bytes) (inet_ntop : ℕ → Bytes → ℕ → Option Bytes) (src : Bytes)
    (dst : Buffer) (af : ℕ) (address : Bytes) (size : ℕ)
    → IsInetPton inet_pton
    → length dst.bytes ≡ sockaddr_storage_size
    → IsRead inet_pton src af address
    → (sa : Buffer) × (j_inet_pton inet_pton src dst ≡ ok (1, sa))
      × (j_inet_ntop inet_ntop sa size ≡ ok (inet_ntop af address size))
      × (j_inet_getport sa ≡ ok 0)
      × (j_inet_addrlen sa ≡ ok (size_of af))
unfolding j_inet_pton j_inet_ntop j_inet_getport j_inet_addrlen ss_family le16 byte_at
j_inet_ntop-j_inet_pton inet_pton inet_ntop src dst af address size p whole (inl (e, read)) =
    let four = p.four src address read in
    (
      holding dst.addr (2 ∷ 0 ∷ 0 ∷ 0 ∷ []) address 120,
      rw (store-zeros dst whole, read) (set_address-inet dst.addr address four),
      rw (bytes_at-inet dst.addr address four, e) refl,
      refl,
      rw e refl,
    )
j_inet_ntop-j_inet_pton inet_pton inet_ntop src dst af address size p whole
      (inr (e, refused, read)) =
    let sixteen = p.sixteen src address read in
    (
      holding dst.addr (10 ∷ 0 ∷ 0 ∷ 0 ∷ 0 ∷ 0 ∷ 0 ∷ 0 ∷ []) address 104,
      rw (store-zeros dst whole, refused, read) (set_address-inet6 dst.addr address sixteen),
      rw (bytes_at-inet6 dst.addr address sixteen, e) refl,
      refl,
      rw e refl,
    )
