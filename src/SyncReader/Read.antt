-- ===== src/SyncReader/Read.antt =====
-- src/sync_reader.c and `xrecvfrom` of src/io.c: what a read of a datagram does.
use Prim.Native.Nat.{min}
use mathlib.Core.List.{append-nil, append_assoc}
use open_sniffer.Base.{
  sym, ◌∙◌, All-map, ℕ, zero, suc, ◌+◌, ◌-◌, ◌^◌, ◌≡◌, refl, ap, ◌<◌, none, some, List, [], ◌∷◌,
  ◌++◌, map, All, Bytes, length, length-append, length-take, take, take-append, arith,
}
use open_sniffer.Machine.{Buffer, Print, Fault, ok, World, M, run, malloc}
use open_sniffer.Machine.Rules.{Prints, Ends-mono, Ends, Ends-bind}
use open_sniffer.LinkedList.{LinkedList, for_each}
use open_sniffer.Osi.Packet.{Packet}
use open_sniffer.Osi.Contract.{IsValid, free-owned}
use open_sniffer.Io.{zeros, datagram, xrecvfrom}
use open_sniffer.SyncReader.Callbacks.{callbacks}
use open_sniffer.SyncReader.{Reader, notify_packet, read}

length-zeros : (n : ℕ) → length (zeros n) ≡ n
length-zeros zero = refl
length-zeros (suc n) = ap suc (length-zeros n)

-- A received datagram fills the buffer from its start, cut to `len` bytes; the buffer keeps its
-- length and the result is the number of bytes received.
pub xrecvfrom-datagram :
    (d : Bytes) (len : ℕ)
    → (bytes : Bytes) × (xrecvfrom (datagram d) len ≡ ok (bytes, min len (length d)))
      × (length bytes ≡ len)
      × (take (min len (length d)) bytes ≡ take len d)
unfolding xrecvfrom
xrecvfrom-datagram d len =
    let copied = take len d in
    let n = length-take len d in
    (
      copied ++ zeros (len - length copied),
      rw n,
      omega (
        arith,
        length-append copied (zeros (len - length copied)),
        length-zeros (len - length copied),
        n,
      ),
      rw (← n) (take-append copied (zeros (len - length copied))),
    )

All-imp :
    {A : Type 0} (P Q : A → Type 0) (xs : List A) → ((a : A) → P a → Q a) → All P xs → All Q xs
All-imp P Q [] k h = tt
All-imp P Q (x ∷ xs) k h = (k x h.0, All-imp P Q xs k h.1)

-- What one call for each of the elements prints, in order.
abbrev pub Sequence : (ℕ → List Print → Type 0) → List ℕ → List Print → Type 0
Sequence P [] out = out ≡ []
Sequence P (a ∷ more) out =
    (here : List Print) × (rest : List Print) × (out ≡ here ++ rest)
    × P a here
    × Sequence P more rest

-- The packet that a read makes of a datagram: its payload is the datagram, cut to `len` bytes.
pub record IsPacketOf (len : ℕ) (d : Bytes) (packet : Packet) : Type 0 where
  pub size_is : packet.size ≡ min len (length d)
  pub no_protocol : packet.protocol ≡ 0
  pub no_session : packet.session ≡ none
  pub block : Buffer
  pub payload_is : packet.payload ≡ some block
  pub bytes_are : take packet.size block.bytes ≡ take len d

module _ {N : Type 0} (F : Fault → Type 0) (element : N → ℕ) (P : ℕ → List Print → Type 0)
    (act : ℕ → M (Unit {0})) where
  for_each-Prints :
      (ns : List N) (w : World)
      → All (λ n. (v : World) → Ends F (λ _ u. Prints (P (element n)) v u) (act (element n) v)) ns
      → Ends F
          (λ _ u. Prints (Sequence P (map element ns)) w u)
          (for_each ns (λ n. act (element n)) w)
  unfolding run
  for_each-Prints [] w h = record {
    same_live = refl;
    printed = [];
    output_is = sym (append-nil w.output);
    as_specified = refl;
  }
  for_each-Prints (n ∷ ns) w h =
      Ends-bind F (λ _ v. Prints (P (element n)) w v)
        (λ _ u. Prints (Sequence P (map element (n ∷ ns))) w u) (act (element n)) _ w (h.0 w)
        (λ _ v here.
          Ends-mono F _ _ (for_each ns (λ m. act (element m)) v) (for_each-Prints ns v h.1)
            (λ _ u rest. record {
              same_live = rest.same_live ∙ here.same_live;
              printed = here.printed ++ rest.printed;
              output_is =
                  rest.output_is
                  ∙ ap (λ t. t ++ rest.printed) here.output_is
                  ∙ append_assoc w.output here.printed rest.printed;
              as_specified =
                  (here.printed, rest.printed, refl, here.as_specified, rest.as_specified);
            }))

module _ (L : LinkedList ℕ) (F : Fault → Type 0) (code : ℕ → Reader L → Packet → M (Unit {0}))
    (reader : Reader L) (P : ℕ → Packet → List Print → Type 0) where
  open L use {Node, element, nodes, iterate_over_nodes_lem}

  -- Every registered callback, given a valid packet, prints what `P` says and does nothing else.
  abbrev pub CallbacksPrint : Type 0
  CallbacksPrint =
      All
        (λ pointer.
          (packet : Packet)
          → IsValid packet
          → (v : World)
          → Ends F (λ _ u. Prints (P pointer packet) v u) (code pointer reader packet v))
        (callbacks L reader)

  module _ (print : CallbacksPrint) where
    notify_packet-Prints :
        (packet : Packet) (w : World)
        → IsValid packet
        → Ends F
            (λ _ u. Prints (Sequence (λ pointer. P pointer packet) (callbacks L reader)) w u)
            (notify_packet L code reader packet w)
    unfolding notify_packet
    notify_packet-Prints packet w valid =
        rw (iterate_over_nodes_lem reader.callback_list (λ n. code (element n) reader packet)) (
          for_each-Prints F element (λ pointer. P pointer packet) (λ a. code a reader packet)
            (nodes reader.callback_list) w
            (All-imp _ _ (nodes reader.callback_list) (λ n k. k packet valid)
              (All-map _ element (nodes reader.callback_list) print)))

    -- Where every callback only prints what `P` says of a valid packet, or has a fault of `F`, a read of
    -- a datagram calls every callback once, in the order of their registration, on one packet with
    -- the datagram cut to `len` bytes; it returns the packet's size and gives back the buffer. `len`
    -- is a `size_t`.
    pub read-Prints :
        (d : Bytes) (len : ℕ) (w : World)
        → len < 2 ^ 64
        → Ends F
            (λ size v.
              (size ≡ min len (length d))
              × Prints
                  (λ out.
                    (packet : Packet) × IsPacketOf len d packet
                    × Sequence (λ pointer. P pointer packet) (callbacks L reader) out)
                  w
                  v)
            (read L code (datagram d) reader len w)
    unfolding read run malloc
    read-Prints d len w lt =
        let (bytes, received, whole, same) = xrecvfrom-datagram d len in
        let valid : IsValid (packet bytes) = record {
          holds = omega arith;
          size_lt = omega arith;
        } in
        rw received (
          Ends-bind F
            (λ _ v.
              Prints (Sequence (λ pointer. P pointer (packet bytes)) (callbacks L reader)) taken v)
            _ (notify_packet L code reader (packet bytes)) _ taken
            (notify_packet-Prints (packet bytes) taken valid)
            (λ _ v o. rw (free-owned (some w.next) v w.live o.same_live) (
              refl,
              record {
                same_live = refl;
                printed = o.printed;
                output_is = o.output_is;
                as_specified = (
                  packet bytes,
                  record {
                    size_is = refl;
                    no_protocol = refl;
                    no_session = refl;
                    block = record { addr = w.next; bytes = bytes };
                    payload_is = refl;
                    bytes_are = same;
                  },
                  o.as_specified,
                );
              },
            )))
      where
        taken : World
        taken = record w { live = w.next ∷ w.live; next = w.next + 1 }

        packet : Bytes → Packet
        packet bytes = record {
          addr = 0;
          payload = some (record { addr = w.next; bytes = bytes });
          size = min len (length d);
          protocol = 0;
          session = none;
        }
