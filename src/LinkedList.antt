-- ===== src/LinkedList.antt =====
-- The list library of the program (a git submodule that is not part of the repository): its
-- operations are parameters, with what the program relies on as laws.
pub mod Search
use open_sniffer.Base.{ℕ, ◌+◌, ◌≡◌, Bool, true, false, List, [], ◌∷◌, ◌++◌, map, Option, none, some}
use open_sniffer.Machine.{Result, ok, M, and_then, ◌>>◌, ret}

-- The first node at which the predicate is true, with the index that the predicate is given.
abbrev pub find_from : {N : Type 0} → ℕ → List N → (ℕ → N → Result Bool) → Result (Option N)
find_from i [] p = ok none
find_from i (n ∷ ns) p =
    let rest = find_from (i + 1) ns p in
    and_then (p i n) (λ hit. elim hit [ true ↦ ok (some n) | false ↦ rest ])

-- The action at each node in order.
abbrev pub for_each : {N : Type 0} → List N → (N → M (Unit {0})) → M (Unit {0})
for_each [] act = ret tt
for_each (n ∷ ns) act = act n >> for_each ns act

-- `list_t` and `node_t` over elements of type `A`.
pub record LinkedList (A : Type 0) : Type 1 where
  pub Chain : Type 0
  pub Node : Type 0
  pub element : Node → A
  -- The nodes from the head on.
  pub nodes : Chain → List Node
  -- A `list_t` whose bytes are all zero.
  pub zeroed : Chain
  pub create_static : Chain
  pub clear : Chain → Chain
  pub push_back : Chain → A → Chain
  pub find_node_if : Chain → (ℕ → Node → Result Bool) → Result (Option Node)
  pub iterate_over_nodes : Chain → (ℕ → Node → M Bool) → M (Unit {0})
  pub remove_node : Chain → Option Node → Chain
  pub nodes-zeroed : nodes zeroed ≡ []
  pub nodes-create_static : nodes create_static ≡ []
  pub nodes-clear : (c : Chain) → nodes (clear c) ≡ []
  pub elements-push_back :
      (c : Chain) (a : A) → map element (nodes (push_back c a)) ≡ map element (nodes c) ++ a ∷ []
  pub find_node_if_lem :
      (c : Chain) (p : ℕ → Node → Result Bool) → find_node_if c p ≡ find_from 0 (nodes c) p
  -- A node of the list is unlinked, and the others keep their order.
  pub elements-remove_node :
      (c : Chain) (before after : List Node) (n : Node)
      → nodes c ≡ before ++ n ∷ after
      → map element (nodes (remove_node c (some n))) ≡ map element before ++ map element after
  -- An iterator that returns 0 is called at every node, in order.
  pub iterate_over_nodes_lem :
      (c : Chain) (act : Node → M (Unit {0}))
      → iterate_over_nodes c (λ _ n. act n >> ret false) ≡ for_each (nodes c) act
