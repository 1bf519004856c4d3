-- ===== src/Main/Sniffed.antt =====
-- src/main.c: a run of the program on frames whose dumps are known.
use mathlib.Core.List.{append_assoc}
use open_sniffer.Base.{
  ℕ, ◌+◌, ◌-◌, ◌≡◌, ◌≤◌, refl, sym, ap, subst, inl, ◌∙◌, true, false, some, none, List, [], ◌∷◌,
  ◌++◌, Bytes, length,
}
use open_sniffer.Machine.{run, ok, Arg, Print, World}
use open_sniffer.LinkedList.{LinkedList}
use open_sniffer.Osi.Dissector.{Dissector}
use open_sniffer.Osi.Stack.{Stack, stack_clear, dump_packet}
use open_sniffer.Dissectors.Http.{Parsed}
use open_sniffer.Io.{Reply, returned, make_raw_socket, xclose, checked, zeros, datagram}
use open_sniffer.SyncReader.{Reader, read}
use open_sniffer.SyncReader.Callbacks.{Occurs, callbacks, remove_packet_callback-remove_first}
use open_sniffer.SyncReader.Alone.{read-alone}
use open_sniffer.Main.{packet_size, deliver, Round, on_new_packet, call, loop, main_stack, main}
use open_sniffer.Main.Ends.{main_reader, main_reader-IsListening, IsFinished, cleared-IsFinished}

module _ (D : LinkedList Dissector) (stack : Stack D) where
  -- Received at the start of a buffer, whatever stands behind it, the frame is dumped with these lines,
  -- and every block is given back.
  abbrev pub IsDumped : Bytes → Arg → List Print → Type 0
  IsDumped d now lines =
      (slack : Bytes) (block : ℕ) (w : World)
      → (n : ℕ) × (dump_packet D now stack
            (record {
              addr = 0;
              payload = some (record { addr = block; bytes = d ++ slack });
              size = length d;
              protocol = 0;
              session = none;
            })
            w
          ≡ ok (tt, record w { next = n; output = w.output ++ lines }))

  -- The rounds receive frames that fit the buffer, up to the one after which SIGINT has arrived, and
  -- these are their lines in order.
  pub data Shows : List Round → List Print → Type 0 where
    last :
        {r : Round} {rounds : List Round} (d : Bytes) {lines : List Print}
        → r.received ≡ datagram d
        → length d ≤ packet_size
        → IsDumped d r.now lines
        → deliver true r.signals ≡ false
        → Shows (r ∷ rounds) lines
    next :
        {r : Round} {rounds : List Round} (d : Bytes) {lines rest : List Print}
        → r.received ≡ datagram d
        → length d ≤ packet_size
        → IsDumped d r.now lines
        → deliver true r.signals ≡ true
        → Shows rounds rest
        → Shows (r ∷ rounds) (lines ++ rest)

  module _ (C : LinkedList ℕ) (reader : Reader C)
      (alone : callbacks C reader ≡ on_new_packet ∷ []) where
    round-shows :
        (r : Round) (d : Bytes) (lines : List Print) (w : World)
        → r.received ≡ datagram d
        → length d ≤ packet_size
        → IsDumped d r.now lines
        → (n : ℕ) × (read C (call D C stack r.now) r.received reader packet_size w
            ≡ ok (length d, record w { next = n; output = w.output ++ lines }))
    unfolding call
    round-shows r d lines w e fits dumped =
        let (n, shown) =
          dumped (zeros (packet_size - length d)) w.next
            (record w { live = w.next ∷ w.live; next = w.next + 1 }) in
        (
          n,
          rw e (
              read-alone C (call D C stack r.now) reader on_new_packet alone d packet_size w _ fits
                shown refl),
        )

    pub loop-Shows :
        (rounds : List Round) (out : List Print) (w : World)
        → Shows rounds out
        → (n : ℕ) × (loop D C stack reader true rounds w
            ≡ ok (tt, record w { next = n; output = w.output ++ out }))
    unfolding loop run
    loop-Shows [] out w h = elim h [ ]
    loop-Shows (r ∷ rounds) out w (last d e fits dumped stops) =
        let (n, done) = round-shows r d out w e fits dumped in (n, rw (done, stops) refl)
    loop-Shows (r ∷ rounds) out w (next d {lines} {rest} e fits dumped goes more) =
        let (n, done) = round-shows r d lines w e fits dumped in
        let (m, rest_done) =
          loop-Shows rounds rest (record w { next = n; output = w.output ++ lines }) more in
        (
          m,
          rw (done, goes)
              (rest_done
                ∙ ap (λ calls. ok (tt, record w { next = m; output = calls }))
                    (append_assoc w.output lines rest)),
        )

module _ (C : LinkedList ℕ) (D : LinkedList Dissector) (inet_ntop6 : Bytes → Bytes)
    (parse : Bytes → Parsed) where
  -- Where the socket is made and closed, and the rounds up to SIGINT receive frames that fit the
  -- buffer and that the stack of `main` dumps with known lines, `main` ends and returns 0: it prints
  -- the lines of these frames in order and nothing else, gives every block back, and leaves no
  -- dissector and no callback.
  pub main-Shows :
      (fd value : ℕ) (close : ℕ → Reply) (rounds : List Round) (out : List Print) (w : World)
      → close fd ≡ returned value
      → Shows D (main_stack D inet_ntop6 parse) rounds out
      → (result : ℕ × Stack D × Reader C) × (n : ℕ) × (main D C inet_ntop6 parse
            (returned fd)
            close
            rounds
            w
          ≡ ok (result, record w { next = n; output = w.output ++ out }))
        × IsFinished C D (returned fd) result
  unfolding main make_raw_socket xclose checked run
  main-Shows fd value close rounds out w closes shows =
      let reader = main_reader C D fd in
      let listening = main_reader-IsListening C D fd in
      let (n, looped) =
        loop-Shows D (main_stack D inet_ntop6 parse) C reader listening rounds out w shows in
      let (other, done, left, same) =
        remove_packet_callback-remove_first C reader on_new_packet
          (record w { next = n; output = w.output ++ out })
          (subst (Occurs on_new_packet) (sym listening) (inl refl)) in
      (
        (0, stack_clear D (main_stack D inet_ntop6 parse), other),
        n,
        rw (looped, done, closes) refl,
        cleared-IsFinished C D inet_ntop6 parse (returned fd) fd other refl left same,
      )
