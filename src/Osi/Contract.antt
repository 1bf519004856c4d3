-- ===== src/Osi/Contract.antt =====
-- The contract between the stack of src/osi.c and a dissector: packets own the blocks of their
-- session, their payload and themselves; a dump only prints; a decapsulation hands over the blocks
-- that it allocates.
use mathlib.Core.List.{append_assoc}
use open_sniffer.Base.{
  ℕ, ◌+◌, ◌^◌, ◌≡◌, refl, ap, sym, ◌∙◌, ◌≤◌, ◌<◌, Option, none, some, List, [], ◌∷◌, ◌++◌, length,
  subst, arith, ==_iff,
}
use open_sniffer.Machine.{
  Fault, Result, ok, fault, World, M, ◌>>=◌, ret, lift, run, malloc, remove_block, free, Buffer,
  bytes_at,
}
use open_sniffer.Machine.Rules.{Ends, Safe, Reach, IsQuiet, Ends-bind, Ends-lift, bytes_at-Gives}
use open_sniffer.Osi.Packet.{
  Session, Packet, session_addr, payload_addr, create_session, destroy_packet, build,
}
use open_sniffer.Osi.Dissector.{Dissector}

-- The payload's array holds at least `size` bytes, and `size` is a `size_t`.
abbrev pub Holds : Option Buffer → ℕ → Type 0
Holds none size = Unit
Holds (some b) size = size ≤ length b.bytes

pub record IsValid (p : Packet) : Type 0 where
  pub holds : Holds p.payload p.size
  pub size_lt : p.size < 2 ^ 64

pub holds_at : (p : Packet) (b : Buffer) → p.payload ≡ some b → IsValid p → p.size ≤ length b.bytes
holds_at p b e v = subst (λ o. Holds o p.size) e v.holds

-- A pointer is NULL or points to a valid packet.
abbrev pub IsValidPtr : Option Packet → Type 0
IsValidPtr none = Unit
IsValidPtr (some p) = IsValid p

abbrev pub owned : Option ℕ → List ℕ
owned none = []
owned (some a) = a ∷ []

-- The blocks of a packet, in the order in which `osi_destroy_packet` frees them.
abbrev pub blocks : Option Packet → List ℕ
blocks none = []
blocks (some p) = owned (session_addr p.session) ++ (owned (payload_addr p.payload) ++ p.addr ∷ [])

-- What `decapsulate` leaves, started in world `w`: a valid packet or NULL, the blocks of the
-- packet on top of those of `w`, and the same output.
pub record HandsOver (w : World) (q : Option Packet) (v : World) : Type 0 where
  pub valid : IsValidPtr q
  pub live_grows : v.live ≡ blocks q ++ w.live
  pub same_output : v.output ≡ w.output

-- On valid packets the operations have no fault outside `F`, `dump` only prints, and `decapsulate`
-- hands over what it allocates.
pub record IsLawful (F : Fault → Type 0) (d : Dissector) : Type 0 where
  pub handles_safe : (p : Option Packet) → IsValidPtr p → Safe F (d.operations.handles p)
  pub dump_quiet : (p : Option Packet) → IsValidPtr p → IsQuiet F (d.operations.dump p)
  pub decapsulate_hands_over :
      (p : Option Packet) (w : World)
      → IsValidPtr p
      → Ends F (HandsOver w) (d.operations.decapsulate p w)

pub remove_block_lem : (a : ℕ) (l : List ℕ) → remove_block a (a ∷ l) ≡ some l
unfolding remove_block
remove_block_lem a l = ground (arith, ==_iff a a)

pub free-owned :
    (a : Option ℕ) (w : World) (l : List ℕ)
    → w.live ≡ owned a ++ l
    → free a w ≡ ok (tt, record w { live = l })
unfolding free
free-owned none w l e = ground arith
free-owned (some a) w l e = rw (e, remove_block_lem a l)

-- `osi_destroy_packet` gives back exactly the blocks of the packet.
pub destroy_packet-blocks :
    (q : Option Packet) (w : World) (l : List ℕ)
    → w.live ≡ blocks q ++ l
    → destroy_packet q w ≡ ok (tt, record w { live = l })
unfolding destroy_packet run
destroy_packet-blocks none w l e = ground arith
destroy_packet-blocks (some p) w l e =
    let s = owned (session_addr p.session) in
    let b = owned (payload_addr p.payload) in
    rw
      (free-owned (session_addr p.session) w (b ++ (p.addr ∷ l)) (
        e
        ∙ append_assoc s (b ++ p.addr ∷ []) l
        ∙ ap (λ t. s ++ t) (append_assoc b (p.addr ∷ []) l)))
      (rw
        (free-owned (payload_addr p.payload) (record w { live = b ++ p.addr ∷ l }) (p.addr ∷ l)
          refl)
        (free-owned (some p.addr) (record w { live = p.addr ∷ l }) l refl))

-- A session, or none, is made from the blocks that it takes.
pub record MakesSession (F : Fault → Type 0) (m : M (Option Session)) : Type 0 where
  pub makes :
      (w : World)
      → Ends F (λ s v. (v.live ≡ owned (session_addr s) ++ w.live) × (v.output ≡ w.output)) (m w)

pub no_session-MakesSession : (F : Fault → Type 0) → MakesSession F (ret none)
unfolding ret
no_session-MakesSession F = record { makes = λ w. (refl, refl) }

pub create_session-MakesSession :
    (F : Fault → Type 0) (id src_port dest_port : ℕ)
    → MakesSession F (create_session id src_port dest_port)
unfolding create_session run malloc
create_session-MakesSession F id src_port dest_port = record { makes = λ w. (refl, refl) }

pub lift-MakesSession :
    {A : Type 0} (F : Fault → Type 0) (r : Result A) (f : A → M (Option Session))
    → Safe F r
    → ((a : A) → MakesSession F (f a))
    → MakesSession F (lift r >>= f)
unfolding run
lift-MakesSession F (ok a) f h k = k a
lift-MakesSession F (fault e) f h k = record { makes = λ w. h }

module _ (F : Fault → Type 0) where
  -- The common end of the decapsulations.
  pub build-HandsOver :
      (size : ℕ) (hint : Result ℕ) (session : M (Option Session)) (b : Buffer) (offset : ℕ)
      (w : World)
      → size < 2 ^ 64
      → Safe F hint
      → MakesSession F session
      → Reach F b (offset + size)
      → Ends F (HandsOver w) (build size hint session b offset w)
  unfolding build run malloc
  build-HandsOver size (fault e) session b offset w lt h s r = h
  build-HandsOver size (ok protocol) session b offset w lt h s r =
      Ends-bind F _ (HandsOver w) session _ taken (s.makes taken) (λ made v m.
        Ends-bind F (λ bytes u. (length bytes ≡ size) × (u ≡ v)) (HandsOver w)
          (lift (bytes_at b offset size)) _ v
          (Ends-lift F (λ x. length x ≡ size) _ (bytes_at b offset size) v
            (bytes_at-Gives F b offset size r) (λ x e. (e, refl)))
          (λ bytes u k. record {
            valid = record { holds = omega (arith, k.0); size_lt = lt };
            live_grows =
                ap World.live k.1
                ∙ m.0
                ∙ sym
                    (append_assoc (owned (session_addr made)) ((w.next + 1) ∷ w.next ∷ []) w.live);
            same_output = ap World.output k.1 ∙ m.1;
          }))
    where
      taken : World
      taken = record w { live = (w.next + 1) ∷ w.next ∷ w.live; next = w.next + 1 + 1 }
