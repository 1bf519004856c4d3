-- ===== src/Tests/Stack.antt =====
-- A UDP datagram in an Ethernet frame, given to the stack and to the loop of `main`.
use mathlib.Core.List.{append-nil}
use open_sniffer.Base.{
  ℕ, ◌≡◌, refl, sym, inl, inr, true, none, some, List, [], ◌∷◌, Bytes, codes, arith,
}
use open_sniffer.Machine.{Result, ok, World, Arg, text, out_of_bounds}
use open_sniffer.Machine.Rules.{Ends, Gives, Prints}
use open_sniffer.LinkedList.Search.{IsFirst}
use open_sniffer.Osi.Packet.{Packet, destroy_packet}
use open_sniffer.Osi.Dissector.{Dissector}
use open_sniffer.Osi.Contract.{IsValid, destroy_packet-blocks}
use open_sniffer.Osi.Stack.{find_by_packet, dump_packet, dump_packet_recursive}
use open_sniffer.Osi.Trace.{Applies, IsPassed, Trace}
use open_sniffer.Osi.Select.{registered, find_by_packet-IsFirst}
use open_sniffer.Osi.Walk.{IsFramed, dump_packet-IsFramed, dump_packet_recursive-Prints}
use open_sniffer.Io.{datagram, returned}
use open_sniffer.SyncReader.{Reader, read, add_packet_callback, remove_packet_callback}
use open_sniffer.SyncReader.Callbacks.{
  callbacks, IsSameBut, remove_packet_callback-remove_first,
  remove_packet_callback-add_packet_callback,
}
use open_sniffer.SyncReader.Read.{Sequence, IsPacketOf, read-Prints}
use open_sniffer.Main.{Round, dissectors, main_stack, loop, main, on_new_packet}
use open_sniffer.Main.Registered.{main_stack-IsLawful, main_dump-IsFramed}
use open_sniffer.Main.Loop.{Dumps, loop-Ends}
use open_sniffer.Main.Ends.{Stops, IsFinished, main-Ends}
use open_sniffer.Tests.Chain.{chain, two_blocks, ip6_text, silent}

-- Ethernet, IP, UDP and two bytes of content.
abbrev pub frame : Bytes
frame =
    2 ∷ 0 ∷ 0 ∷ 0 ∷ 0 ∷ 1 ∷ 2 ∷ 0 ∷ 0 ∷ 0 ∷ 0 ∷ 2 ∷ 8 ∷ 0 ∷ 0x45 ∷ 0 ∷ 0 ∷ 30 ∷ 0 ∷ 1 ∷ 0 ∷ 0 ∷ 64
    ∷ 17 ∷ 0x12 ∷ 0x34 ∷ 10 ∷ 0 ∷ 0 ∷ 1 ∷ 10 ∷ 0 ∷ 0 ∷ 2 ∷ 0x30 ∷ 0x39 ∷ 0 ∷ 7 ∷ 0 ∷ 10 ∷ 0 ∷ 0
    ∷ 104 ∷ 105 ∷ []

abbrev pub received : Packet
received = record {
  addr = 0;
  payload = some (record { addr = 2; bytes = frame });
  size = 44;
  protocol = 0;
  session = none;
}

received-IsValid : IsValid received
received-IsValid = record { holds = omega arith; size_lt = omega arith }

abbrev pub noon : Arg
noon = text (codes "12:00")

-- The first round has a frame and another signal, the second a frame and SIGINT.
abbrev pub two_rounds : List Round
two_rounds =
    record { received = datagram frame; signals = 1 ∷ []; now = noon }
    ∷ record { received = datagram frame; signals = 1 ∷ 2 ∷ []; now = noon }
    ∷ []

-- The reader of `main`, written out.
abbrev listening : Reader (chain ℕ)
listening = record { fd = 3; callback_list = on_new_packet ∷ []; interceptor_list = [] }

-- The dissectors of the stack of `main`.
abbrev main_dissectors : List Dissector
main_dissectors = registered (chain Dissector) (main_stack (chain Dissector) ip6_text silent)

main-Ends_example :
    Ends Stops
      (λ result v.
        IsFinished (chain ℕ) (chain Dissector) (returned 3) result
        × Prints (Dumps (dissectors ip6_text silent) true two_rounds) two_blocks v)
      (main
        (chain Dissector)
        (chain ℕ)
        ip6_text
        silent
        (returned 3)
        (λ fd. returned 0)
        two_rounds
        two_blocks)
main-Ends_example =
    main-Ends (chain ℕ) (chain Dissector) ip6_text silent (returned 3) (λ fd. returned 0) two_rounds
      two_blocks (inr (inl (inr (inl refl))))

main_dump-IsFramed_example :
    Ends
      (λ f. f ≡ out_of_bounds)
      (λ _ v. Prints (IsFramed (dissectors ip6_text silent) noon received) two_blocks v)
      (dump_packet
        (chain Dissector)
        noon
        (main_stack (chain Dissector) ip6_text silent)
        received
        two_blocks)
main_dump-IsFramed_example =
    main_dump-IsFramed (chain Dissector) ip6_text silent noon received two_blocks received-IsValid

dump_packet-IsFramed_example :
    Ends Stops
      (λ _ v. Prints (IsFramed main_dissectors noon received) two_blocks v)
      (dump_packet
        (chain Dissector)
        noon
        (main_stack (chain Dissector) ip6_text silent)
        received
        two_blocks)
dump_packet-IsFramed_example =
    dump_packet-IsFramed (chain Dissector) Stops (main_stack (chain Dissector) ip6_text silent)
      (main_stack-IsLawful (chain Dissector) ip6_text silent Stops (inl refl)) noon received
      two_blocks received-IsValid

-- Six calls from layer 3 on.
dump_packet_recursive-Prints_example :
    Ends Stops
      (λ _ v. Prints (Trace main_dissectors (some received) 3) two_blocks v)
      (dump_packet_recursive
        (chain Dissector)
        6
        (main_stack (chain Dissector) ip6_text silent)
        (some received)
        3
        two_blocks)
dump_packet_recursive-Prints_example =
    dump_packet_recursive-Prints (chain Dissector) Stops
      (main_stack (chain Dissector) ip6_text silent)
      (main_stack-IsLawful (chain Dissector) ip6_text silent Stops (inl refl)) 6 (some received) 3
      two_blocks (omega arith) (omega arith) received-IsValid

loop-Ends_example :
    Ends Stops
      (λ _ v. Prints (Dumps main_dissectors true two_rounds) two_blocks v)
      (loop
        (chain Dissector)
        (chain ℕ)
        (main_stack (chain Dissector) ip6_text silent)
        listening
        true
        two_rounds
        two_blocks)
loop-Ends_example =
    loop-Ends (chain Dissector) (chain ℕ) Stops (inr refl)
      (main_stack (chain Dissector) ip6_text silent)
      (main_stack-IsLawful (chain Dissector) ip6_text silent Stops (inl refl)) listening two_rounds
      two_blocks refl (inr (inl (inr (inl refl))))

abbrev shown : Packet
shown = record {
  addr = 5;
  payload = some (record { addr = 4; bytes = frame });
  size = 44;
  protocol = 0;
  session = some (record { addr = 3; id = 0; src_port = 1; dest_port = 2 });
}

destroy_packet-blocks_example :
    destroy_packet (some shown) (record two_blocks { live = 3 ∷ 4 ∷ 5 ∷ 2 ∷ 1 ∷ [] })
    ≡ ok (tt, two_blocks)
destroy_packet-blocks_example =
    destroy_packet-blocks (some shown) (record two_blocks { live = 3 ∷ 4 ∷ 5 ∷ 2 ∷ 1 ∷ [] })
      (2 ∷ 1 ∷ []) refl

-- A callback that prints nothing.
abbrev idle : ℕ → Reader (chain ℕ) → Packet → World → Result (Unit {0} × World)
idle pointer reader packet w = ok (tt, w)

idle-Prints :
    (pointer : ℕ) (reader : Reader (chain ℕ)) (packet : Packet) (w : World)
    → Ends Stops (λ _ v. Prints (λ out. out ≡ []) w v) (idle pointer reader packet w)
idle-Prints pointer reader packet w = record {
  same_live = refl;
  printed = [];
  output_is = sym (append-nil w.output);
  as_specified = refl;
}

read-Prints_example :
    Ends Stops
      (λ size v.
        (size ≡ 44)
        × Prints
            (λ out.
              (packet : Packet) × IsPacketOf 1024 frame packet
              × Sequence (λ pointer here. here ≡ []) (on_new_packet ∷ []) out)
            two_blocks
            v)
      (read (chain ℕ) idle (datagram frame) listening 1024 two_blocks)
read-Prints_example =
    read-Prints (chain ℕ) Stops idle listening (λ pointer packet here. here ≡ [])
      ((λ packet _. idle-Prints on_new_packet listening packet), tt) frame 1024 two_blocks
      (omega arith)

find_by_packet-IsFirst_example :
    Gives Stops
      (IsFirst
        (Applies (some received) 1)
        (IsPassed (some received) 1)
        (registered (chain Dissector) (main_stack (chain Dissector) ip6_text silent)))
      (find_by_packet
        (chain Dissector)
        (main_stack (chain Dissector) ip6_text silent)
        (some received)
        1)
find_by_packet-IsFirst_example =
    find_by_packet-IsFirst (chain Dissector) Stops (main_stack (chain Dissector) ip6_text silent)
      (some received) 1 (main_stack-IsLawful (chain Dissector) ip6_text silent Stops (inl refl))
      received-IsValid

-- The callback 5 is registered twice.
abbrev crowded : Reader (chain ℕ)
crowded = record { fd = 3; callback_list = 4 ∷ 5 ∷ 6 ∷ 5 ∷ []; interceptor_list = [] }

remove_packet_callback-remove_first_example :
    (other : Reader (chain ℕ)) × (remove_packet_callback (chain ℕ) crowded 5 two_blocks
      ≡ ok (other, two_blocks))
    × (callbacks (chain ℕ) other ≡ 4 ∷ 6 ∷ 5 ∷ [])
    × IsSameBut (chain ℕ) crowded other
remove_packet_callback-remove_first_example =
    remove_packet_callback-remove_first (chain ℕ) crowded 5 two_blocks (inr (inl refl))

remove_packet_callback-add_packet_callback_example :
    (callbacks (chain ℕ) (add_packet_callback (chain ℕ) crowded 7) ≡ 4 ∷ 5 ∷ 6 ∷ 5 ∷ 7 ∷ [])
    × (other : Reader (chain ℕ)) × (remove_packet_callback
          (chain ℕ)
          (add_packet_callback (chain ℕ) crowded 7)
          7
          two_blocks
        ≡ ok (other, two_blocks))
    × (callbacks (chain ℕ) other ≡ 4 ∷ 5 ∷ 6 ∷ 5 ∷ [])
    × IsSameBut (chain ℕ) crowded other
remove_packet_callback-add_packet_callback_example =
    remove_packet_callback-add_packet_callback (chain ℕ) crowded 7 two_blocks
      (omega arith, (omega arith, (omega arith, (omega arith, tt))))
