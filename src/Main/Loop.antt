-- ===== src/Main/Loop.antt =====
-- src/main.c: the loop over the packets and the signal that ends it.
use mathlib.Core.List.{append-nil, append_assoc}
use open_sniffer.Base.{
  ℕ, ◌≡◌, refl, sym, ap, ◌∙◌, subst, ◌⊎◌, inl, inr, Bool, true, false, List, [], ◌∷◌, ◌++◌, Bytes,
  All, arith, ◌==◌, ==_iff, Bool-cases,
}
use open_sniffer.Machine.{Fault, exit_failure, Arg, Print, World, ret, run, malloc}
use open_sniffer.Machine.Rules.{Ends, Prints, Ends-bind, Ends-mono}
use open_sniffer.LinkedList.{LinkedList}
use open_sniffer.Osi.Packet.{Packet}
use open_sniffer.Osi.Dissector.{Dissector}
use open_sniffer.Osi.Contract.{IsValid}
use open_sniffer.Osi.Stack.{Stack}
use open_sniffer.Osi.Select.{registered, IsLawfulStack}
use open_sniffer.Osi.Walk.{IsFramed, dump_packet-IsFramed}
use open_sniffer.Io.{Received, datagram, failed, xrecvfrom}
use open_sniffer.SyncReader.{Reader, read}
use open_sniffer.SyncReader.Callbacks.{Occurs, callbacks}
use open_sniffer.SyncReader.Read.{Sequence, IsPacketOf, read-Prints}
use open_sniffer.Main.{packet_size, sigint, sighandler, deliver, Round, on_new_packet, call, loop}

-- In some round the handler is called with SIGINT.
abbrev pub IsInterrupted : List Round → Type 0
IsInterrupted [] = ⊥
IsInterrupted (r ∷ rounds) = Occurs sigint r.signals ⊎ IsInterrupted rounds

deliver-stopped : (signals : List ℕ) → deliver false signals ≡ false
unfolding deliver
deliver-stopped [] = refl
deliver-stopped (s ∷ signals) = elim (Bool-cases (s == sigint)) [
  | inl e ↦ rw e (deliver-stopped signals)
  | inr e ↦ rw e (deliver-stopped signals)
]

-- If SIGINT is among the signals with which the handler is called, `started` is cleared after them,
-- whatever other signals come before and after it.
pub deliver-sigint :
    (signals : List ℕ) (started : Bool) → Occurs sigint signals → deliver started signals ≡ false
unfolding deliver
deliver-sigint [] started h = absurd h
deliver-sigint (s ∷ signals) started (inl e) = rw ((==_iff s sigint).1 e) (deliver-stopped signals)
deliver-sigint (s ∷ signals) started (inr h) = deliver-sigint signals (sighandler started s) h

-- What the program prints of one datagram.
pub record IsShown (ds : List Dissector) (now : Arg) (d : Bytes) (out : List Print) : Type 0 where
  pub packet : Packet
  pub of_datagram : IsPacketOf packet_size d packet
  pub framed : IsFramed ds now packet out

-- What the loop prints: until SIGINT arrives, every round receives a datagram and shows it, in order.
abbrev pub Dumps : List Dissector → Bool → List Round → List Print → Type 0
Dumps ds false rounds out = out ≡ []
Dumps ds true [] out = ⊥
Dumps ds true (r ∷ rounds) out =
    (d : Bytes) × (shown : List Print) × (rest : List Print) × (r.received ≡ datagram d)
    × IsShown ds r.now d shown
    × Dumps ds (deliver true r.signals) rounds rest
    × (out ≡ shown ++ rest)

module _ (D : LinkedList Dissector) (C : LinkedList ℕ) (F : Fault → Type 0) (exits : F exit_failure)
    (stack : Stack D) (lawful : IsLawfulStack D F stack) where
  -- What a callback prints: it is `on_new_packet`, and dumps the packet.
  abbrev Dumped : Arg → ℕ → Packet → List Print → Type 0
  Dumped now pointer packet out = IsFramed (registered D stack) now packet out

  call-Prints :
      (now : Arg) (reader : Reader C) (packet : Packet)
      → IsValid packet
      → (w : World)
      → Ends F
          (λ _ v. Prints (IsFramed (registered D stack) now packet) w v)
          (call D C stack now on_new_packet reader packet w)
  unfolding call
  call-Prints now reader packet valid w = dump_packet-IsFramed D F stack lawful now packet w valid

  -- The callback list of `main`.
  abbrev pub IsListening : Reader C → Type 0
  IsListening reader = callbacks C reader ≡ on_new_packet ∷ []

  -- What one round prints.
  abbrev ShowsOne : Arg → Received → List Print → Type 0
  ShowsOne now received out =
      (d : Bytes) × (received ≡ datagram d) × IsShown (registered D stack) now d out

  one_callback :
      (now : Arg) (d : Bytes) (packet : Packet) (out : List Print)
      → IsPacketOf packet_size d packet
      → Sequence (λ pointer. Dumped now pointer packet) (on_new_packet ∷ []) out
      → ShowsOne now (datagram d) out
  one_callback now d packet out is (here, rest, e, framed, nothing) = (
    d,
    refl,
    record {
      packet = packet;
      of_datagram = is;
      framed =
          subst (IsFramed (registered D stack) now packet)
            (sym (e ∙ ap (λ t. here ++ t) nothing ∙ append-nil here)) framed;
    },
  )

  round-Prints :
      (now : Arg) (received : Received) (reader : Reader C) (w : World)
      → IsListening reader
      → Ends F
          (λ _ v. Prints (ShowsOne now received) w v)
          (read C (call D C stack now) received reader packet_size w)
  round-Prints now failed reader w h = unfold read xrecvfrom run malloc in exits
  round-Prints now (datagram d) reader w h =
      Ends-mono F _ _ (read C (call D C stack now) (datagram d) reader packet_size w)
        (read-Prints C F (call D C stack now) reader (Dumped now)
          (subst
            (All (λ pointer.
              (packet : Packet)
              → IsValid packet
              → (v : World)
              → Ends F (λ _ u. Prints (Dumped now pointer packet) v u)
                  (call D C stack now pointer reader packet v)))
            (sym h) (call-Prints now reader, tt))
          d packet_size w (omega arith))
        (λ _ v o. record {
          same_live = o.1.same_live;
          printed = o.1.printed;
          output_is = o.1.output_is;
          as_specified =
              let (packet, is, calls) = o.1.as_specified in
              one_callback now d packet o.1.printed is (
                subst (λ t. Sequence (λ pointer. Dumped now pointer packet) t o.1.printed) h calls);
        })

  -- If `on_new_packet` is the only callback of the reader and SIGINT arrives in some round, the loop
  -- of a stack whose dissectors are lawful for the faults `F`, with `exit` among them, ends with a
  -- fault of `F` or regularly; regularly, every block is given back, and the output is that of the
  -- rounds up to the one in which SIGINT arrives: each received a datagram, which is dumped once,
  -- by the specification, in the order of arrival.
  pub loop-Ends :
      (reader : Reader C) (rounds : List Round) (w : World)
      → IsListening reader
      → IsInterrupted rounds
      → Ends F
          (λ _ v. Prints (Dumps (registered D stack) true rounds) w v)
          (loop D C stack reader true rounds w)
  unfolding loop
  loop-Ends reader [] w h i = absurd i
  loop-Ends reader (r ∷ rounds) w h i =
      Ends-bind F (λ _ v. Prints (ShowsOne r.now r.received) w v) _
        (read C (call D C stack r.now) r.received reader packet_size) _ w
        (round-Prints r.now r.received reader w h)
        (λ _ v o.
          Ends-mono F _ _ (loop D C stack reader (deliver true r.signals) rounds v)
            (next v (λ s. loop-Ends reader rounds v h s) i) (λ _ u q. joined v o u q))
    where
      joined :
          (v : World)
          → Prints (ShowsOne r.now r.received) w v
          → (u : World) → Prints (Dumps (registered D stack) (deliver true r.signals) rounds) v u
          → Prints (Dumps (registered D stack) true (r ∷ rounds)) w u
      joined v o u q = record {
        same_live = q.same_live ∙ o.same_live;
        printed = o.printed ++ q.printed;
        output_is =
            q.output_is
            ∙ ap (λ t. t ++ q.printed) o.output_is
            ∙ append_assoc w.output o.printed q.printed;
        as_specified =
            let (d, received, shown) = o.as_specified in
            (d, o.printed, q.printed, received, shown, q.as_specified, refl);
      }

      stopped :
          (v : World)
          → deliver true r.signals ≡ false
          → Ends F
              (λ _ u. Prints (Dumps (registered D stack) (deliver true r.signals) rounds) v u)
              (loop D C stack reader (deliver true r.signals) rounds v)
      stopped v e = rw e (
          unfold ret in
          record {
            same_live = refl;
            printed = [];
            output_is = sym (append-nil v.output);
            as_specified = refl;
          })

      next :
          (v : World)
          → (IsInterrupted rounds
              → Ends F
                  (λ _ u. Prints (Dumps (registered D stack) true rounds) v u)
                  (loop D C stack reader true rounds v))
          → IsInterrupted (r ∷ rounds)
          → Ends F
              (λ _ u. Prints (Dumps (registered D stack) (deliver true r.signals) rounds) v u)
              (loop D C stack reader (deliver true r.signals) rounds v)
      next v ih (inl s) = stopped v (deliver-sigint r.signals true s)
      next v ih (inr s) = elim (Bool-cases (deliver true r.signals)) [
        | inl e ↦ rw e (ih s)
        | inr e ↦ stopped v e
      ]
