-- ===== src/Inaddr/Ports.antt =====
-- src/utils/inaddr.c: the port of a `struct sockaddr_storage`.
use open_sniffer.Base.{
  ℕ, ◌+◌, ◌*◌, ◌/◌, ◌%◌, ◌^◌, ◌≡◌, ◌<◌, ◌⊎◌, inl, inr, false, refl, ap, [], ◌∷◌, Bytes, length,
  Bool-cases, ◌==◌, ltb, ==_iff, arith,
}
use open_sniffer.Base.Words.{ntohs}
use open_sniffer.Machine.{ok, Buffer, le16, byte_at, store}
use open_sniffer.Inaddr.Storage.{af_inet, af_inet6, ss_family, j_inet_getport, j_inet_setport}

module _ (addr f0 f1 : ℕ) where
  -- A structure with the family in the bytes `f0` and `f1`, the port in `p0` and `p1`.
  abbrev pub sockaddr : ℕ → ℕ → Bytes → Buffer
  sockaddr p0 p1 rest = record { addr = addr; bytes = f0 ∷ f1 ∷ p0 ∷ p1 ∷ rest }

  -- The family is one of the internet.
  abbrev pub IsInternet : Type 0
  IsInternet = (f0 + 2 ^ 8 * f1 ≡ af_inet) ⊎ (f0 + 2 ^ 8 * f1 ≡ af_inet6)

  store-port :
      (p0 p1 x y : ℕ) (rest : Bytes)
      → store (sockaddr p0 p1 rest) 2 (x ∷ y ∷ []) ≡ ok (sockaddr x y rest)
  unfolding store
  store-port p0 p1 x y rest =
      let inside : ltb (length (sockaddr p0 p1 rest).bytes) 4 ≡ false = ground arith in
      rw inside refl

  low_byte : (port : ℕ) → port < 2 ^ 16 → ntohs port % 256 ≡ port / 256
  low_byte port h = omega arith

  high_byte : (port : ℕ) → port < 2 ^ 16 → ntohs port / 256 % 256 ≡ port % 256
  high_byte port h = omega arith

  read_back : (port : ℕ) → port < 2 ^ 16 → ntohs (port / 256 + 2 ^ 8 * (port % 256)) ≡ port
  read_back port h = omega arith

  no_internet :
      (f0 + 2 ^ 8 * f1 == af_inet) ≡ false → (f0 + 2 ^ 8 * f1 == af_inet6) ≡ false → IsInternet → ⊥
  no_internet e f (inl g) = ground arith
  no_internet e f (inr g) = ground arith

  -- For a port below 2 ^ 16: with a family of the internet, it is stored with its high byte first,
  -- nothing else changes, and it is read again; with another family, nothing is stored, and 0 is
  -- read.
  pub j_inet_getport-j_inet_setport :
      (p0 p1 port : ℕ) (rest : Bytes)
      → port < 2 ^ 16
      → (IsInternet
          × (j_inet_setport (sockaddr p0 p1 rest) port
              ≡ ok (1, sockaddr (port / 256) (port % 256) rest))
          × (j_inet_getport (sockaddr (port / 256) (port % 256) rest) ≡ ok port))
        ⊎ ((IsInternet → ⊥)
            × (j_inet_setport (sockaddr p0 p1 rest) port ≡ ok (0, sockaddr p0 p1 rest))
            × (j_inet_getport (sockaddr p0 p1 rest) ≡ ok 0))
  unfolding j_inet_setport j_inet_getport ss_family le16 byte_at
  j_inet_getport-j_inet_setport p0 p1 port rest h = elim (Bool-cases (f0 + 2 ^ 8 * f1 == af_inet)) [
    | inl e ↦ inl (
      inl ((==_iff (f0 + 2 ^ 8 * f1) af_inet).0 e),
      rw (e, low_byte port h, high_byte port h, store-port p0 p1 (port / 256) (port % 256) rest)
          refl,
      rw e (ap ok (read_back port h)),
    )
    | inr e ↦ elim (Bool-cases (f0 + 2 ^ 8 * f1 == af_inet6)) [
      | inl f ↦ inl (
        inr ((==_iff (f0 + 2 ^ 8 * f1) af_inet6).0 f),
        rw
            (
              e,
              f,
              low_byte port h,
              high_byte port h,
              store-port p0 p1 (port / 256) (port % 256) rest,
            )
            refl,
        rw (e, f) (ap ok (read_back port h)),
      )
      | inr f ↦ inr (no_internet e f, rw (e, f) refl, rw (e, f) refl)
    ]
  ]
