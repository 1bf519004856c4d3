-- ===== src/Inaddr/Safety.antt =====
-- src/utils/inaddr.c: the reads of `stringify_hw_addr` and the length of its text.
use open_sniffer.Base.{ℕ, ◌+◌, ◌≡◌, ◌<◌, length, arith, refl}
use open_sniffer.Machine.{Fault, Buffer, byte_at}
use open_sniffer.Machine.Rules.{Gives, Gives-and_then, Gives-weaken, Safe, Reach, byte_at-Safe}
use open_sniffer.Inaddr.{stringify_hw_addr}

module _ (F : Fault → Type 0) (b : Buffer) where
  -- `ETH_STRING_LEN` bytes, which fit the static array with a final 0.
  pub stringify_hw_addr-Gives :
      (i n : ℕ) → Reach F b n → i + 5 < n → Gives F (λ t. length t ≡ 17) (stringify_hw_addr b i)
  unfolding stringify_hw_addr
  stringify_hw_addr-Gives i n r h =
      Gives-and_then F _ _ _ (byte_at b i) (byte_at-Safe F b i n r (omega arith)) λ _ _.
        Gives-and_then F _ _ _ (byte_at b (i + 1)) (byte_at-Safe F b (i + 1) n r (omega arith))
          λ _ _.
            Gives-and_then F _ _ _ (byte_at b (i + 2)) (byte_at-Safe F b (i + 2) n r (omega arith))
              λ _ _.
                Gives-and_then F _ _ _ (byte_at b (i + 3))
                  (byte_at-Safe F b (i + 3) n r (omega arith))
                  λ _ _.
                    Gives-and_then F _ _ _ (byte_at b (i + 4))
                      (byte_at-Safe F b (i + 4) n r (omega arith))
                      λ _ _.
                        Gives-and_then F _ _ _ (byte_at b (i + 5)) (byte_at-Safe F b (i + 5) n r h)
                          λ _ _. refl

  pub stringify_hw_addr-Safe : (i n : ℕ) → Reach F b n → i + 5 < n → Safe F (stringify_hw_addr b i)
  stringify_hw_addr-Safe i n r h = Gives-weaken F _ _ (stringify_hw_addr-Gives i n r h)
