-- ===== src/Main.antt =====
-- src/main.c: the registration of the dissectors, and the loop that reads packets until SIGINT.
-- Each round of the loop is given what `recvfrom` meets and the signals with which the handler is
-- called before the test of the next round.
pub mod Registered
pub mod Loop
pub mod Ends
pub mod Sniffed
pub mod Datagram
pub mod Carried
pub mod OverUdp
pub mod OverTcp
pub mod Web
pub mod Ping
pub mod Short
pub mod Cut
pub mod Resolver
pub mod Query
pub mod Answer
pub mod Lease
use open_sniffer.Base.{ℕ, Bool, true, false, List, [], ◌∷◌, Bytes, ◌==◌, if◌then◌else◌}
use open_sniffer.Machine.{null_pointer, out_of_fuel, fault, Arg, M, ◌>>=◌, ◌>>◌, ret, lift}
use open_sniffer.Io.{Reply, make_raw_socket, xclose}
use open_sniffer.LinkedList.{LinkedList}
use open_sniffer.Osi.Packet.{Packet}
use open_sniffer.Osi.Dissector.{Dissector}
use open_sniffer.Osi.Stack.{Stack, stack_new, stack_clear, register_dissector, dump_packet}
use open_sniffer.Io.{Received}
use open_sniffer.SyncReader.{Reader, create, add_packet_callback, remove_packet_callback, read}
use open_sniffer.Dissectors.Ethernet
use open_sniffer.Dissectors.Ip
use open_sniffer.Dissectors.Arp
use open_sniffer.Dissectors.Udp
use open_sniffer.Dissectors.Dhcp
use open_sniffer.Dissectors.Dns.Dump as Dns
use open_sniffer.Dissectors.Icmp
use open_sniffer.Dissectors.Tcp
use open_sniffer.Dissectors.Http
use open_sniffer.Dissectors.Http.{Parsed}

abbrev pub packet_size : ℕ
packet_size = 1024

-- `SIGINT`
abbrev pub sigint : ℕ
sigint = 2

-- The dissectors in the order in which `main` registers them.
abbrev pub dissectors : (Bytes → Bytes) → (Bytes → Parsed) → List Dissector
dissectors inet_ntop6 parse =
    Ethernet.dissector
    ∷ Ip.dissector
    ∷ Arp.dissector
    ∷ Udp.dissector
    ∷ Dhcp.dissector
    ∷ Dns.dissector inet_ntop6
    ∷ Icmp.dissector
    ∷ Tcp.dissector
    ∷ Http.dissector parse
    ∷ []

-- `sighandler`: the new value of `started`
unfoldable pub sighandler : Bool → ℕ → Bool
sighandler started sig = if sig == sigint then false else started

-- The calls of the handler in turn.
unfoldable pub deliver : Bool → List ℕ → Bool
unfolding sighandler
deliver started [] = started
deliver started (sig ∷ signals) = deliver (sighandler started sig) signals

-- What happens in one round of the loop: `signals` are those with which the handler is called.
pub record Round : Type 0 where
  pub received : Received
  pub signals : List ℕ
  pub now : Arg

-- The address of `on_new_packet`.
abbrev pub on_new_packet : ℕ
on_new_packet = 1

module _ (D : LinkedList Dissector) where
  unfoldable pub register_all : Stack D → List Dissector → Stack D
  unfolding register_dissector
  register_all stack [] = stack
  register_all stack (d ∷ ds) = register_all (register_dissector D stack d) ds

  -- The stack as `main` sets it up.
  unfoldable pub main_stack : (Bytes → Bytes) → (Bytes → Parsed) → Stack D
  unfolding register_all stack_new
  main_stack inet_ntop6 parse = register_all (stack_new D) (dissectors inet_ntop6 parse)

  module _ (C : LinkedList ℕ) where
    -- A call through a function pointer: `on_new_packet` dumps the packet.
    unfoldable pub call : Stack D → Arg → ℕ → Reader C → Packet → M (Unit {0})
    unfolding dump_packet
    call stack now pointer reader packet =
        if pointer == on_new_packet then dump_packet D now stack packet else λ _. fault null_pointer

    -- `for (started = 1; started;)`. Without a further round the loop is not over.
    unfoldable pub loop : Stack D → Reader C → Bool → List Round → M (Unit {0})
    unfolding deliver
    loop stack reader false rounds = ret tt
    loop stack reader true [] = λ _. fault out_of_fuel
    loop stack reader true (r ∷ rounds) = do
      size ← read C (call stack r.now) r.received reader packet_size
      loop stack reader (deliver true r.signals) rounds

    -- `main`, from the set-up of the stack on: `socket` is what the system call meets, and `close`
    -- what closing a file descriptor does. The result is that of `main`, with the stack and the
    -- reader as they then are.
    unfoldable pub main :
        (Bytes → Bytes)
        → (Bytes → Parsed)
        → Reply
        → (ℕ → Reply)
        → List Round
        → M (ℕ × Stack D × Reader C)
    main inet_ntop6 parse socket close rounds = do
      let stack = main_stack inet_ntop6 parse
      raw_socket ← lift (make_raw_socket socket)
      let reader = add_packet_callback C (create C raw_socket) on_new_packet
      loop stack reader true rounds
      let cleared = stack_clear D stack
      reader' ← remove_packet_callback C reader on_new_packet
      value ← lift (xclose close raw_socket)
      ret (0, cleared, reader')
