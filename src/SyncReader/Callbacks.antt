-- ===== src/SyncReader/Callbacks.antt =====
-- src/sync_reader.c: the callbacks of a reader as they are added and removed.
use open_sniffer.Base.{
  ℕ, ◌≡◌, ◌≢◌, refl, sym, ap, ◌∙◌, subst, ◌⊎◌, inl, inr, Option, none, some, List, [], ◌∷◌, ◌++◌,
  map, All, All-of_map, All-of_All, ==_iff, ◌==◌, if◌then◌else◌, arith,
}
use open_sniffer.Machine.{Result, ok, fault, World, run}
use open_sniffer.Machine.Rules.{Gives}
use open_sniffer.LinkedList.{LinkedList}
use open_sniffer.LinkedList.Search.{IsFirst, find_from-IsFirst}
use open_sniffer.SyncReader.{
  Reader, pointer_comparator, add_packet_callback, remove_packet_callback,
}
use mathlib.Core.List.{map-append}

-- The number is among those of the list.
abbrev pub Occurs : ℕ → List ℕ → Type 0
Occurs a [] = ⊥
Occurs a (b ∷ bs) = (b ≡ a) ⊎ Occurs a bs

-- The list without the first occurrence of the number.
abbrev pub remove_first : ℕ → List ℕ → List ℕ
remove_first a [] = []
remove_first a (b ∷ bs) = if b == a then bs else b ∷ remove_first a bs

not-Occurs : (a : ℕ) (bs : List ℕ) → All (λ b. b ≢ a) bs → Occurs a bs → ⊥
not-Occurs a [] h o = o
not-Occurs a (b ∷ bs) h (inl e) = h.0 e
not-Occurs a (b ∷ bs) h (inr o) = not-Occurs a bs h.1 o

remove_first-append :
    (a : ℕ) (before after : List ℕ)
    → All (λ b. b ≢ a) before
    → remove_first a (before ++ a ∷ after) ≡ before ++ after
remove_first-append a [] after h = ground arith
remove_first-append a (b ∷ before) after h = ground (arith, remove_first-append a before after h.1)

Occurs-last : (a : ℕ) (bs : List ℕ) → Occurs a (bs ++ a ∷ [])
Occurs-last a [] = inl refl
Occurs-last a (b ∷ bs) = inr (Occurs-last a bs)

remove_first-last : (a : ℕ) (bs : List ℕ) → All (λ b. b ≢ a) bs → remove_first a (bs ++ a ∷ []) ≡ bs
remove_first-last a [] h = ground arith
remove_first-last a (b ∷ bs) h = ground (arith, remove_first-last a bs h.1)

module _ (L : LinkedList ℕ) where
  open L use {
    Node, element, nodes, elements-push_back, find_node_if, find_node_if_lem, remove_node,
    elements-remove_node,
  }

  -- The callbacks in the order in which they are called.
  abbrev pub callbacks : Reader L → List ℕ
  callbacks reader = map element (nodes reader.callback_list)

  -- The reader is the other one but for its callbacks.
  pub record IsSameBut (reader other : Reader L) : Type 0 where
    pub same_fd : other.fd ≡ reader.fd
    pub same_interceptors : other.interceptor_list ≡ reader.interceptor_list

  -- Removing a callback that is registered succeeds, changes nothing but the list of callbacks, and
  -- takes its first occurrence off that list, whose order stays.
  pub remove_packet_callback-remove_first :
      (reader : Reader L) (callback : ℕ) (w : World)
      → Occurs callback (callbacks reader)
      → (other : Reader L) × (remove_packet_callback L reader callback w ≡ ok (other, w))
        × (callbacks other ≡ remove_first callback (callbacks reader))
        × IsSameBut reader other
  unfolding remove_packet_callback run
  remove_packet_callback-remove_first reader callback w occurs =
      asked (find_node_if reader.callback_list (pointer_comparator L callback)) refl (
        rw (find_node_if_lem reader.callback_list (pointer_comparator L callback)) (
          find_from-IsFirst (λ _. ⊥) (λ n. element n ≡ callback) (λ n. element n ≢ callback)
            (λ _. Unit {0}) (pointer_comparator L callback)
            (λ i n e. ground (arith, ==_iff callback (element n)))
            (λ i n e h. ground (arith, ==_iff callback (element n))) (λ i n _. tt) 0
            (nodes reader.callback_list)
            (All-of_All (λ _. Unit {0}) (λ _. tt) (nodes reader.callback_list))))
    where
      asked :
          (r : Result (Option Node))
          → find_node_if reader.callback_list (pointer_comparator L callback) ≡ r
          → Gives
              (λ _. ⊥)
              (IsFirst
                (λ n. element n ≡ callback)
                (λ n. element n ≢ callback)
                (nodes reader.callback_list))
              r
          → (other : Reader L) × (remove_packet_callback L reader callback w ≡ ok (other, w))
            × (callbacks other ≡ remove_first callback (callbacks reader))
            × IsSameBut reader other
      asked (fault f) e g = absurd g
      asked (ok none) e g = absurd (
          not-Occurs callback (callbacks reader)
            (All-of_map (λ b. b ≢ callback) element (nodes reader.callback_list) g) occurs)
      asked (ok (some n)) e (before, after, split, others, here) =
          let others' = All-of_map (λ b. b ≢ callback) element before others in
          (
            record reader { callback_list = remove_node reader.callback_list (some n) },
            rw e,
            elements-remove_node reader.callback_list before after n split
                ∙ sym
                    (remove_first-append callback (map element before) (map element after) others')
                ∙ ap (λ t. remove_first callback (map element before ++ t ∷ map element after))
                    (sym here)
                ∙ ap (remove_first callback)
                    (sym (ap (map element) split ∙ map-append element before (n ∷ after))),
            record { same_fd = refl; same_interceptors = refl },
          )

  -- A callback that is not registered is registered last when it is added, and removing it then gives the
  -- callbacks of before; nothing else of the reader changes.
  pub remove_packet_callback-add_packet_callback :
      (reader : Reader L) (callback : ℕ) (w : World)
      → All (λ b. b ≢ callback) (callbacks reader)
      → (callbacks (add_packet_callback L reader callback) ≡ callbacks reader ++ callback ∷ [])
        × (other : Reader L) × (remove_packet_callback L
              (add_packet_callback L reader callback)
              callback
              w
            ≡ ok (other, w))
        × (callbacks other ≡ callbacks reader)
        × IsSameBut reader other
  unfolding add_packet_callback
  remove_packet_callback-add_packet_callback reader callback w fresh =
      let added = elements-push_back reader.callback_list callback in
      let (other, done, left, same) =
        remove_packet_callback-remove_first (add_packet_callback L reader callback) callback w
          (subst (Occurs callback) (sym added) (Occurs-last callback (callbacks reader))) in
      (
        added,
        other,
        done,
        left
            ∙ ap (remove_first callback) added
            ∙ remove_first-last callback (callbacks reader) fresh,
        record { same_fd = same.same_fd; same_interceptors = same.same_interceptors },
      )
