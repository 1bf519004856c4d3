-- ===== src/LinkedList/Search.antt =====
-- What a search through the nodes of a list comes to.
use open_sniffer.Base.{
  ℕ, ◌+◌, ◌≡◌, refl, ap, Bool, true, false, Option, none, some, List, [], ◌∷◌, ◌++◌, All,
}
use open_sniffer.Machine.{Fault, Result, ok, fault}
use open_sniffer.Machine.Rules.{Gives, Safe}
use open_sniffer.LinkedList.{find_from}

-- A result of a search: the element found has `T` and those before it have `Q`; if nothing is found,
-- all have `Q`.
abbrev pub IsFirst : {A : Type 0} → (A → Type 0) → (A → Type 0) → List A → Option A → Type 0
IsFirst T Q xs none = All Q xs
IsFirst {A} T Q xs (some x) =
    (before : List A) × (after : List A) × (xs ≡ before ++ x ∷ after) × All Q before × T x

IsFirst-later :
    {A : Type 0} (T Q : A → Type 0) (y : A) (xs : List A) (r : Option A)
    → Q y
    → IsFirst T Q xs r
    → IsFirst T Q (y ∷ xs) r
IsFirst-later T Q y xs none q h = (q, h)
IsFirst-later T Q y xs (some x) q (before, after, e, k, t) =
    (y ∷ before, after, ap (◌∷◌ y) e, (q, k), t)

module _ {N : Type 0} (F : Fault → Type 0) (T Q S : N → Type 0) (p : ℕ → N → Result Bool)
    (hit : (i : ℕ) (n : N) → p i n ≡ ok true → T n)
    (miss : (i : ℕ) (n : N) → p i n ≡ ok false → Q n)
    (safe : (i : ℕ) (n : N) → S n → Safe F (p i n)) where
  pub find_from-IsFirst :
      (i : ℕ) (ns : List N) → All S ns → Gives F (IsFirst T Q ns) (find_from i ns p)
  find_from-IsFirst i [] a = tt
  find_from-IsFirst i (n ∷ ns) a =
      asked (find_from-IsFirst (i + 1) ns a.1) (p i n) refl (safe i n a.0)
    where
      later :
          (r : Result (Option N))
          → (i : ℕ) → p i n ≡ ok false
          → Gives F (IsFirst T Q ns) r
          → Gives F (IsFirst T Q (n ∷ ns)) r
      later (ok r) i e g = IsFirst-later T Q n ns r (miss i n e) g
      later (fault f) i e g = g

      asked :
          Gives F (IsFirst T Q ns) (find_from (i + 1) ns p)
          → (r : Result Bool) → p i n ≡ r
          → Safe F r
          → Gives F (IsFirst T Q (n ∷ ns)) (find_from i (n ∷ ns) p)
      asked rest (fault f) e h = rw e h
      asked rest (ok true) e h = rw e ([], ns, refl, tt, hit i n e)
      asked rest (ok false) e h = rw e (later (find_from (i + 1) ns p) i e rest)
