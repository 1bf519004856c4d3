-- ===== src/Machine/Rules.antt =====
-- Rules for what a computation ends in.
use mathlib.Core.List.{append-nil, append_assoc}
use open_sniffer.Base.{
  ℕ, ◌+◌, ◌≡◌, refl, sym, ◌∙◌, ◌≤◌, ◌<◌, ◌⊎◌, inl, inr, String, List, [], ◌∷◌, ◌++◌, Bool, true,
  false, arith, length, drop, if◌then◌else◌, length-take, length-drop,
}
use native.Mathlib.Decide.{dec_lt}
use open_sniffer.Machine.{
  Fault, out_of_bounds, Result, ok, fault, Arg, Print, World, M, and_then, ◌>>=◌, ◌>>◌, ret, lift,
  printf, Buffer, byte_at, le16, le32, bytes_at,
}
use open_sniffer.Machine.Reads.{byte_at-ok, byte_at-fault}

-- The postcondition holds of the result and the last world, or the fault is one of `F`.
abbrev pub Ends :
    {A : Type 0} → (Fault → Type 0) → (A → World → Type 0) → Result (A × World) → Type 0
Ends F Q (ok (a, w)) = Q a w
Ends F Q (fault f) = F f

-- A pure computation whose faults are among `F`, and whose result satisfies `P`.
abbrev pub Gives : {A : Type 0} → (Fault → Type 0) → (A → Type 0) → Result A → Type 0
Gives F P (ok a) = P a
Gives F P (fault f) = F f

-- From world `w` to world `v` no block is taken or given back, and the output only grows.
pub record OnlyPrints (w v : World) : Type 0 where
  pub same_live : v.live ≡ w.live
  pub printed : List Print
  pub output_grows : v.output ≡ w.output ++ printed

-- From world `w` to world `v` no block is taken or given back, and what is printed has the property.
pub record Prints (P : List Print → Type 0) (w v : World) : Type 0 where
  pub same_live : v.live ≡ w.live
  pub printed : List Print
  pub output_is : v.output ≡ w.output ++ printed
  pub as_specified : P printed

-- A computation that changes nothing but the output, on which it appends.
pub record IsQuiet (F : Fault → Type 0) {A : Type 0} (m : M A) : Type 0 where
  pub ends : (w : World) → Ends F (λ _ v. OnlyPrints w v) (m w)

pub OnlyPrints-trans : {u v w : World} → OnlyPrints u v → OnlyPrints v w → OnlyPrints u w
OnlyPrints-trans {u} a b = record {
  same_live = b.same_live ∙ a.same_live;
  printed = a.printed ++ b.printed;
  output_grows = rw (b.output_grows, a.output_grows) (append_assoc u.output a.printed b.printed);
}

pub OnlyPrints-refl : (w : World) → OnlyPrints w w
OnlyPrints-refl w = record {
  same_live = refl;
  printed = [];
  output_grows = sym (append-nil w.output);
}

module _ {A B : Type 0} (F : Fault → Type 0) where
  pub Ends-and_then :
      (P : A → World → Type 0) (Q : B → World → Type 0) (f : A → M B) (r : Result (A × World))
      → Ends F P r
      → ((a : A) (v : World) → P a v → Ends F Q (f a v))
      → Ends F Q (and_then r (λ (a, v). f a v))
  Ends-and_then P Q f (ok (a, v)) h k = k a v h
  Ends-and_then P Q f (fault e) h k = h

  pub Ends-bind :
      (P : A → World → Type 0) (Q : B → World → Type 0) (m : M A) (f : A → M B) (w : World)
      → Ends F P (m w)
      → ((a : A) (v : World) → P a v → Ends F Q (f a v))
      → Ends F Q ((m >>= f) w)
  unfolding ◌>>=◌
  Ends-bind P Q m f w h k = Ends-and_then P Q f (m w) h k

  pub Gives-and_then :
      (P : A → Type 0) (Q : B → Type 0) (f : A → Result B) (r : Result A)
      → Gives F P r
      → ((a : A) → P a → Gives F Q (f a))
      → Gives F Q (and_then r f)
  Gives-and_then P Q f (ok a) h k = k a h
  Gives-and_then P Q f (fault e) h k = h

module _ {A : Type 0} (F : Fault → Type 0) where
  pub Ends-lift :
      (P : A → Type 0) (Q : A → World → Type 0) (r : Result A) (w : World)
      → Gives F P r
      → ((a : A) → P a → Q a w)
      → Ends F Q (lift r w)
  unfolding lift
  Ends-lift P Q (ok a) w h k = k a h
  Ends-lift P Q (fault e) w h k = h

  pub Ends-mono :
      (P Q : A → World → Type 0) (r : Result (A × World))
      → Ends F P r
      → ((a : A) (v : World) → P a v → Q a v)
      → Ends F Q r
  Ends-mono P Q (ok (a, v)) h k = k a v h
  Ends-mono P Q (fault e) h k = h

  -- The result itself is remembered.
  pub Ends-eq :
      (P : A → World → Type 0) (r : Result (A × World))
      → Ends F P r
      → Ends F (λ a v. P a v × (r ≡ ok (a, v))) r
  Ends-eq P (ok (a, v)) h = (h, refl)
  Ends-eq P (fault e) h = h

  pub Gives-eq : (P : A → Type 0) (r : Result A) → Gives F P r → Gives F (λ a. P a × (r ≡ ok a)) r
  Gives-eq P (ok a) h = (h, refl)
  Gives-eq P (fault e) h = h

-- The rules by which a computation is seen to be quiet.
module _ {F : Fault → Type 0} where
  pub IsQuiet-bind :
      {A B : Type 0} {m : M A} {f : A → M B}
      → IsQuiet F m
      → ((a : A) → IsQuiet F (f a))
      → IsQuiet F (m >>= f)
  IsQuiet-bind {m = m} {f = f} h k = record {
    ends = λ w.
        Ends-bind F (λ _ v. OnlyPrints w v) (λ _ v. OnlyPrints w v) m f w (h.ends w)
          (λ a v o.
            Ends-mono F (λ _ u. OnlyPrints v u) (λ _ u. OnlyPrints w u) (f a v) ((k a).ends v)
              (λ _ u q. OnlyPrints-trans o q));
  }

  pub IsQuiet-then :
      {B : Type 0} {m : M (Unit {0})} {n : M B} → IsQuiet F m → IsQuiet F n → IsQuiet F (m >> n)
  unfolding ◌>>◌
  IsQuiet-then h k = IsQuiet-bind h (λ _. k)

  pub IsQuiet-ret : {A : Type 0} (a : A) → IsQuiet F (ret a)
  unfolding ret
  IsQuiet-ret a = record { ends = OnlyPrints-refl }

  pub IsQuiet-lift : {A : Type 0} (r : Result A) → Gives F (λ _. Unit {0}) r → IsQuiet F (lift r)
  IsQuiet-lift r h = record {
    ends = λ w. Ends-lift F (λ _. Unit) (λ _ v. OnlyPrints w v) r w h (λ _ _. OnlyPrints-refl w);
  }

  pub IsQuiet-printf : (f : String) (args : List Arg) → IsQuiet F (printf f args)
  unfolding printf
  IsQuiet-printf f args = record {
    ends = λ w. record {
      same_live = refl;
      printed = record { format = f; args = args } ∷ [];
      output_grows = refl;
    };
  }

  pub IsQuiet-if :
      {A : Type 0} (b : Bool) {m n : M A}
      → IsQuiet F m
      → IsQuiet F n
      → IsQuiet F (if b then m else n)
  IsQuiet-if true h k = h
  IsQuiet-if false h k = k

-- A read below offset `n` either lies inside the buffer, or its fault is among `F`.
abbrev pub Reach : (Fault → Type 0) → Buffer → ℕ → Type 0
Reach F b n = F out_of_bounds ⊎ (n ≤ length b.bytes)

-- Whatever the result, the computation has no fault outside `F`.
abbrev pub Safe : {A : Type 0} → (Fault → Type 0) → Result A → Type 0
Safe F = Gives F (λ _. Unit {0})

pub Gives-mono :
    {A : Type 0} (F : Fault → Type 0) (P Q : A → Type 0) (r : Result A)
    → Gives F P r
    → ((a : A) → P a → Q a)
    → Gives F Q r
Gives-mono F P Q (ok a) h k = k a h
Gives-mono F P Q (fault e) h k = h

pub Gives-weaken :
    {A : Type 0} (F : Fault → Type 0) (P : A → Type 0) (r : Result A) → Gives F P r → Safe F r
Gives-weaken F P (ok a) h = tt
Gives-weaken F P (fault e) h = h

module _ (F : Fault → Type 0) (b : Buffer) where
  pub byte_at-Safe : (i n : ℕ) → Reach F b n → i < n → Safe F (byte_at b i)
  byte_at-Safe i n (inl f) h = elim (dec_lt i (length b.bytes)) [
    | yes p ↦ rw (byte_at-ok b i p).1 tt
    | no p ↦ rw (byte_at-fault b i (omega arith)) f
  ]
  byte_at-Safe i n (inr g) h = rw (byte_at-ok b i (omega arith)).1 tt

  pub le16-Safe : (i n : ℕ) → Reach F b n → i + 1 < n → Safe F (le16 b i)
  unfolding le16
  le16-Safe i n r h =
      Gives-and_then F _ _ _ (byte_at b i) (byte_at-Safe i n r (omega arith))
        (λ x _. Gives-and_then F _ _ _ (byte_at b (i + 1)) (byte_at-Safe (i + 1) n r h) (λ y _. tt))

  pub le32-Safe : (i n : ℕ) → Reach F b n → i + 3 < n → Safe F (le32 b i)
  unfolding le32
  le32-Safe i n r h = Gives-and_then F _ _ _ (le16 b i) (le16-Safe i n r (omega arith)) (λ x _.
      Gives-and_then F _ _ _ (le16 b (i + 2)) (le16-Safe (i + 2) n r (omega arith)) (λ y _. tt))

  -- What is copied has the length that was asked for.
  pub bytes_at-Gives : (i n : ℕ) → Reach F b (i + n) → Gives F (λ x. length x ≡ n) (bytes_at b i n)
  unfolding bytes_at
  bytes_at-Gives i n r = ground (arith, r, length-take n (drop i b.bytes), length-drop i b.bytes)
