-- ===== src/Tests/Dns.antt =====
-- A name in a DNS packet.
use open_sniffer.Base.{ℕ, ◌≡◌, ◌↔◌, refl, Option, none, some, [], ◌∷◌, Bytes, codes, arith}
use open_sniffer.Machine.{ok, byte_at}
use open_sniffer.Dissectors.Dns.Expand.{Args, expand_step, dn_expand}
use open_sniffer.Dissectors.Dns.Expand.Round.{IsReady, IsExpansion, StepOk, expand_step-Gives}
use open_sniffer.Dissectors.Dns.Expand.Names.{Expands}
use open_sniffer.Dissectors.Dns.Expand.Exact.{dn_expand-Expands}
use open_sniffer.Dissectors.Dns.Expand.Encode.{dn_expand-encode}
use open_sniffer.Dissectors.Dns.Expand.Safety.{dn_expand-IsExpansion}
use open_sniffer.Machine.Rules.{Gives}

-- "ab" and "c", then "d" and a pointer to offset 3.
abbrev names : Args
names = record {
  buffer = record { addr = 1; bytes = 2 ∷ 97 ∷ 98 ∷ 1 ∷ 99 ∷ 0 ∷ 1 ∷ 100 ∷ 0xc0 ∷ 3 ∷ [] };
  base = 0;
  end = 10;
  src = 6;
  space = 64;
}

names-IsReady : IsReady names
names-IsReady = record {
  base_le_end = omega arith;
  src_lt_end = omega arith;
  end_in = omega arith;
  has_space = omega arith;
}

-- The pointer is followed, and the length is that of the name where it stands.
dn_expand-names : dn_expand names ≡ ok (some (4, codes "d.c"))
unfolding dn_expand byte_at
dn_expand-names = refl

-- A pointer to itself is given up.
dn_expand-loop :
    dn_expand
      (record names { buffer = record { addr = 1; bytes = 0xc0 ∷ 0 ∷ [] }; end = 2; src = 0 })
    ≡ ok none
unfolding dn_expand byte_at
dn_expand-loop = refl

dn_expand-IsExpansion_example :
    (r : Option (ℕ × Bytes)) × (dn_expand names ≡ ok r) × IsExpansion names r
dn_expand-IsExpansion_example = dn_expand-IsExpansion names names-IsReady

dn_expand-Expands_example :
    (dn_expand names ≡ ok (some (4, codes "d.c"))) ↔ Expands names 4 (codes "d.c")
dn_expand-Expands_example = dn_expand-Expands names 4 (codes "d.c") names-IsReady

-- The first name of the packet.
abbrev first_name : Args
first_name = record names { src = 0 }

dn_expand-encode_example : dn_expand first_name ≡ ok (some (6, codes "ab.c"))
dn_expand-encode_example =
    dn_expand-encode first_name [] (codes "ab" ∷ codes "c" ∷ []) (1 ∷ 100 ∷ 0xc0 ∷ 3 ∷ []) refl refl
      (omega arith) (omega arith) ((omega arith, omega arith), ((omega arith, omega arith), tt))
      (omega arith) (omega arith)

-- The pointer behind "d" is followed.
expand_step-Gives_example : Gives (λ _. ⊥) (StepOk names) (expand_step names 8 (codes "d") none)
expand_step-Gives_example =
    expand_step-Gives (λ _. ⊥) names names-IsReady 8 (codes "d") none
      (record { p_lt_end = omega arith; dest_lt_dend = omega arith; len_ok = omega arith })
