-- ===== src/Tests/Chain.antt =====
-- A list library that keeps the laws: plain lists.
use open_sniffer.Base.{
  ◌≤◌, if◌then◌else◌, ◌==◌, ==_iff, arith, ℕ, ◌+◌, ◌≡◌, refl, sym, ap, ◌∙◌, codes, Bool, true,
  false, Option, none, some, List, [], ◌∷◌, ◌++◌, map, Bytes,
}
use open_sniffer.Machine.{Result, ok, fault, and_then, run, M, ◌>>=◌, ◌>>◌, ret, World}
use open_sniffer.LinkedList.{LinkedList, find_from, for_each}
use open_sniffer.Dissectors.Http.{Parsed}

and_then-cong :
    (r : Result (Unit {0} × World)) (f g : World → Result (Unit {0} × World))
    → ((w : World) → f w ≡ g w)
    → and_then
        (and_then r (λ (_, v). ok (false, v)))
        (λ (stop, v). (elim stop as (λ _. M (Unit {0})) [ true ↦ ret tt | false ↦ f ]) v)
      ≡ and_then r (λ (_, v). g v)
and_then-cong (ok (_, v)) f g h = h v
and_then-cong (fault e) f g h = refl

module _ {A : Type 0} where
  -- The elements with their positions, from `i` on.
  abbrev pub positions : ℕ → List A → List (ℕ × A)
  positions i [] = []
  positions i (x ∷ xs) = (i, x) ∷ positions (i + 1) xs

  -- Without the element at position `k`.
  abbrev pub without : ℕ → ℕ → List A → List A
  without i k [] = []
  without i k (x ∷ xs) = if i == k then xs else x ∷ without (i + 1) k xs

  abbrev pub unlink : List A → Option (ℕ × A) → List A
  unlink xs none = xs
  unlink xs (some (k, x)) = without 0 k xs

  map-positions : (i : ℕ) (xs : List A) → map (λ n. n.1) (positions i xs) ≡ xs
  map-positions i [] = refl
  map-positions i (x ∷ xs) = ap (◌∷◌ x) (map-positions (i + 1) xs)

  position-le :
      (i k : ℕ) (a : A) (xs : List A) (before after : List (ℕ × A))
      → positions i xs ≡ before ++ (k, a) ∷ after
      → i ≤ k
  position-le i k a [] [] after e = cc
  position-le i k a [] (b ∷ before) after e = cc
  position-le i k a (x ∷ xs) [] after e = let h : i ≡ k = cc in omega arith
  position-le i k a (x ∷ xs) (b ∷ before) after e =
      let h : positions (i + 1) xs ≡ before ++ (k, a) ∷ after = cc in
      omega (arith, position-le (i + 1) k a xs before after h)

  without-positions :
      (i k : ℕ) (a : A) (xs : List A) (before after : List (ℕ × A))
      → positions i xs ≡ before ++ (k, a) ∷ after
      → without i k xs ≡ map (λ n. n.1) before ++ map (λ n. n.1) after
  without-positions i k a [] [] after e = cc
  without-positions i k a [] (b ∷ before) after e = cc
  without-positions i k a (x ∷ xs) [] after e =
      let h : i ≡ k = cc in
      let t : positions (i + 1) xs ≡ after = cc in
      rw ((==_iff i k).1 h) (sym (map-positions (i + 1) xs) ∙ ap (map (λ n. n.1)) t)
  without-positions i k a (x ∷ xs) (b ∷ before) after e =
      let t : positions (i + 1) xs ≡ before ++ (k, a) ∷ after = cc in
      let h : x ≡ b.1 = cc in
      let later : (i == k) ≡ false = ground (arith, position-le (i + 1) k a xs before after t) in
      rw (later, h) (ap (◌∷◌ b.1) (without-positions (i + 1) k a xs before after t))

  pub unlink_lem :
      (xs : List A) (before after : List (ℕ × A)) (n : ℕ × A)
      → positions 0 xs ≡ before ++ n ∷ after
      → map (λ n. n.1) (positions 0 (unlink xs (some n)))
        ≡ map (λ n. n.1) before ++ map (λ n. n.1) after
  unlink_lem xs before after (k, a) e =
      map-positions 0 (without 0 k xs) ∙ without-positions 0 k a xs before after e

  pub append-positions :
      (xs : List A) (a : A)
      → map (λ n. n.1) (positions 0 (xs ++ a ∷ [])) ≡ map (λ n. n.1) (positions 0 xs) ++ a ∷ []
  append-positions xs a =
      map-positions 0 (xs ++ a ∷ []) ∙ ap (λ t. t ++ a ∷ []) (sym (map-positions 0 xs))

  abbrev pub visit : ℕ → List A → (ℕ → A → M Bool) → M (Unit {0})
  visit i [] f = ret tt
  visit i (x ∷ xs) f =
      let rest = visit (i + 1) xs f in f i x >>= λ stop. elim stop [ true ↦ ret tt | false ↦ rest ]

  visit-for_each_at :
      (i : ℕ) (xs : List A) (act : A → M (Unit {0})) (w : World)
      → visit i xs (λ _ n. act n >> ret false) w ≡ for_each xs act w
  unfolding run
  visit-for_each_at i [] act w = refl
  visit-for_each_at i (x ∷ xs) act w =
      and_then-cong (act x w) (visit (i + 1) xs (λ _ n. act n >> ret false)) (for_each xs act)
        (visit-for_each_at (i + 1) xs act)

  pub visit-for_each :
      (i : ℕ) (xs : List A) (act : A → M (Unit {0}))
      → visit i xs (λ _ n. act n >> ret false) ≡ for_each xs act
  visit-for_each i xs act = λ t w. visit-for_each_at i xs act w t

-- A list whose nodes are its elements with their positions.
abbrev pub chain : (A : Type 0) → LinkedList A
chain A = record {
  Chain = List A;
  Node = ℕ × A;
  element = λ n. n.1;
  nodes = positions 0;
  zeroed = [];
  create_static = [];
  clear = λ _. [];
  push_back = λ xs a. xs ++ a ∷ [];
  find_node_if = λ xs p. find_from 0 (positions 0 xs) p;
  iterate_over_nodes = λ xs f. visit 0 (positions 0 xs) f;
  remove_node = unlink;
  nodes-zeroed = refl;
  nodes-create_static = refl;
  nodes-clear = λ _. refl;
  elements-push_back = append-positions;
  find_node_if_lem = λ _ _. refl;
  elements-remove_node = unlink_lem;
  iterate_over_nodes_lem = λ xs act. visit-for_each 0 (positions 0 xs) act;
}

-- A world in which two blocks are in use.
abbrev pub two_blocks : World
two_blocks = record { output = []; live = 2 ∷ 1 ∷ []; next = 3 }

-- A text for every IPv6 address, and a parser that finds nothing and no error.
abbrev pub ip6_text : Bytes → Bytes
ip6_text bytes = codes "::1"

abbrev pub silent : Bytes → Parsed
silent bytes = record { http_errno = 0; events = [] }
