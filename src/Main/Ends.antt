-- ===== src/Main/Ends.antt =====
-- src/main.c: `main` as a whole, from the set-up of the stack to its return.
use open_sniffer.Base.{
  ℕ, ◌≡◌, refl, sym, ap, subst, ◌∙◌, ◌⊎◌, inl, inr, true, List, [], ◌∷◌, ◌++◌, map, Bytes,
}
use open_sniffer.Machine.{Fault, out_of_bounds, exit_failure, World, ◌>>=◌, lift, ret, run}
use open_sniffer.Machine.Rules.{Ends, Ends-bind, Ends-lift, Gives, Prints}
use open_sniffer.LinkedList.{LinkedList}
use open_sniffer.Io.{Reply, returned, refused, make_raw_socket, xclose, checked}
use open_sniffer.Osi.Dissector.{Dissector}
use open_sniffer.Osi.Stack.{Stack, stack_clear}
use open_sniffer.Osi.Select.{registered}
use open_sniffer.SyncReader.{Reader, create, add_packet_callback, remove_packet_callback}
use open_sniffer.SyncReader.Callbacks.{
  Occurs, remove_first, callbacks, IsSameBut, remove_packet_callback-remove_first,
}
use open_sniffer.Dissectors.Http.{Parsed}
use open_sniffer.Main.{Round, on_new_packet, dissectors, main_stack, loop, main}
use open_sniffer.Main.Registered.{registered-main_stack, main_stack-IsLawful}
use open_sniffer.Main.Loop.{IsInterrupted, Dumps, loop-Ends}

-- What may end `main` before its last statement.
abbrev pub Stops : Fault → Type 0
Stops f = (f ≡ out_of_bounds) ⊎ (f ≡ exit_failure)

make_raw_socket-Gives :
    (socket : Reply) → Gives Stops (λ fd. socket ≡ returned fd) (make_raw_socket socket)
unfolding make_raw_socket checked
make_raw_socket-Gives (returned fd) = refl
make_raw_socket-Gives refused = inr refl

xclose-Gives :
    (close : ℕ → Reply) (fd : ℕ)
    → Gives Stops (λ value. close fd ≡ returned value) (xclose close fd)
unfolding xclose make_raw_socket
xclose-Gives close fd = make_raw_socket-Gives (close fd)

module _ (C : LinkedList ℕ) (D : LinkedList Dissector) where
  -- The reader that `main` sets up.
  abbrev pub main_reader : ℕ → Reader C
  main_reader raw_socket = add_packet_callback C (create C raw_socket) on_new_packet

  pub main_reader-IsListening :
      (raw_socket : ℕ) → callbacks C (main_reader raw_socket) ≡ on_new_packet ∷ []
  unfolding create add_packet_callback
  main_reader-IsListening raw_socket =
      C.elements-push_back C.create_static on_new_packet
      ∙ ap (λ t. map C.element t ++ on_new_packet ∷ []) C.nodes-create_static

  -- What `main` returns, and what it leaves: the exit status, the stack and the reader.
  pub record IsFinished (socket : Reply) (result : ℕ × Stack D × Reader C) : Type 0 where
    pub exit_status : result.0 ≡ 0
    pub no_dissectors : registered D result.1 ≡ []
    pub no_callbacks : callbacks C result.2 ≡ []
    pub fd_is : socket ≡ returned result.2.fd

  module _ (inet_ntop6 : Bytes → Bytes) (parse : Bytes → Parsed) where
    -- The clean-up behind the loop leaves what it should.
    pub cleared-IsFinished :
        (socket : Reply) (fd : ℕ) (other : Reader C)
        → socket ≡ returned fd
        → callbacks C other ≡ remove_first on_new_packet (callbacks C (main_reader fd))
        → IsSameBut C (main_reader fd) other
        → IsFinished socket (0, stack_clear D (main_stack D inet_ntop6 parse), other)
    unfolding create add_packet_callback stack_clear
    cleared-IsFinished socket fd other e left same = record {
      exit_status = refl;
      no_dissectors = ap (map D.element) (D.nodes-clear (main_stack D inet_ntop6 parse).dissectors);
      no_callbacks = left ∙ ap (remove_first on_new_packet) (main_reader-IsListening fd);
      fd_is = e ∙ ap returned (sym same.same_fd);
    }

    -- If SIGINT arrives in some round, `main` ends, whatever datagrams arrive and whatever the
    -- system calls meet: at an access outside an array, at the `exit` of a system call that is
    -- refused, or regularly. Regularly it returns 0, with no dissector and no callback left, every
    -- block given back, and the output of the rounds up to SIGINT by the specification.
    pub main-Ends :
        (socket : Reply) (close : ℕ → Reply) (rounds : List Round) (w : World)
        → IsInterrupted rounds
        → Ends Stops
            (λ result v.
              IsFinished socket result
              × Prints (Dumps (dissectors inet_ntop6 parse) true rounds) w v)
            (main D C inet_ntop6 parse socket close rounds w)
    unfolding main stack_clear run
    main-Ends socket close rounds w h =
        Ends-bind Stops (λ fd v. (socket ≡ returned fd) × (v ≡ w)) _ (lift (make_raw_socket socket))
          _ w
          (Ends-lift Stops _ _ (make_raw_socket socket) w (make_raw_socket-Gives socket)
            (λ fd e. (e, refl)))
          (λ fd v k. rw k.1 (
            Ends-bind Stops (λ _ u. Prints (Dumps (dissectors inet_ntop6 parse) true rounds) w u) _
              (loop D C (main_stack D inet_ntop6 parse) (main_reader fd) true rounds) _ w
              (subst
                (λ ds.
                  Ends Stops (λ _ u. Prints (Dumps ds true rounds) w u)
                    (loop D C (main_stack D inet_ntop6 parse) (main_reader fd) true rounds w))
                (registered-main_stack D inet_ntop6 parse)
                (loop-Ends D C Stops (inr refl) (main_stack D inet_ntop6 parse)
                  (main_stack-IsLawful D inet_ntop6 parse Stops (inl refl)) (main_reader fd) rounds
                  w (main_reader-IsListening fd) h))
              (λ _ u o. finish fd u k.0 o)))
      where
        finish :
            (fd : ℕ) (u : World)
            → socket ≡ returned fd
            → Prints (Dumps (dissectors inet_ntop6 parse) true rounds) w u
            → Ends Stops
                (λ result v.
                  IsFinished socket result
                  × Prints (Dumps (dissectors inet_ntop6 parse) true rounds) w v)
                ((remove_packet_callback C (main_reader fd) on_new_packet >>= λ reader'.
                    lift (xclose close fd) >>= λ value.
                    ret (0, stack_clear D (main_stack D inet_ntop6 parse), reader'))
                  u)
        finish fd u e o =
            let (other, done, left, same) =
              remove_packet_callback-remove_first C (main_reader fd) on_new_packet u
                (subst (Occurs on_new_packet) (sym (main_reader-IsListening fd)) (inl refl)) in
            rw done (
              Ends-bind Stops (λ _ v. v ≡ u) _ (lift (xclose close fd)) _ u
                (Ends-lift Stops _ _ (xclose close fd) u (xclose-Gives close fd) (λ _ _. refl))
                (λ _ v k. rw k (cleared-IsFinished socket fd other e left same, o)))
