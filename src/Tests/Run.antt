-- ===== src/Tests/Run.antt =====
-- A run of the program on two frames.
use open_sniffer.Base.{ℕ, ◌≡◌, refl, ◌+◌, inl, List, [], ◌∷◌, ◌++◌, Bytes, codes, arith}
use open_sniffer.Machine.{ok, Print}
use open_sniffer.Io.{datagram, returned}
use open_sniffer.Osi.Dissector.{Dissector}
use open_sniffer.Osi.Stack.{Stack}
use open_sniffer.SyncReader.{Reader}
use open_sniffer.Dissectors.Table.{find_value}
use open_sniffer.Dissectors.Icmp.Fields as IcmpFields
use open_sniffer.Dissectors.Dns.Query.{query_lines}
use open_sniffer.Main.{Round, deliver, main, main_stack}
use open_sniffer.Main.Datagram.{frame_bytes, shown}
use open_sniffer.Main.OverUdp as OverUdp
use open_sniffer.Main.Query.{dump_packet-query}
use open_sniffer.Main.Ping.{dump_packet-message}
use open_sniffer.Main.Ends.{IsFinished}
use open_sniffer.Main.Sniffed.{IsDumped, Shows, last, next, main-Shows}
use open_sniffer.Tests.Chain.{chain, two_blocks, ip6_text, silent}
use open_sniffer.Tests.Stack.{noon}
use open_sniffer.Tests.Frames.{
  headers, headers-AreBytes, udp_header, udp_header-ArePorts, asked, asked-IsQuery,
}

abbrev query_frame : Bytes
query_frame = frame_bytes headers 17 (OverUdp.udp_bytes udp_header asked)

abbrev query_calls : List Print
query_calls = shown headers 17 (OverUdp.udp_bytes udp_header asked) noon (
    OverUdp.udp_lines udp_header asked
    ++ query_lines 0x12 0x34 1 0 0 0 0 0 0 0 (codes "ab" ∷ codes "c" ∷ []) 0 1 0 1 [])

query_frame-IsDumped :
    IsDumped
      (chain Dissector)
      (main_stack (chain Dissector) ip6_text silent)
      query_frame
      noon
      query_calls
query_frame-IsDumped slack block w = (
  w.next + 1 + 1 + 1 + 1 + 1 + 1 + 1,
  dump_packet-query (chain Dissector) ip6_text silent 0x12 0x34 1 0 0 0 0 0 0 0
      (codes "ab" ∷ codes "c" ∷ []) 0 1 0 1 [] headers udp_header slack block noon w
      headers-AreBytes udp_header-ArePorts (omega arith) asked-IsQuery
      (inl (omega arith, omega arith)),
)

abbrev echo : Bytes
echo = 8 ∷ 0 ∷ 0x12 ∷ 0x34 ∷ 0 ∷ 1 ∷ 0 ∷ 1 ∷ codes "abcdefghij"

abbrev echo_calls : List Print
echo_calls =
    shown headers 1 echo noon
      (IcmpFields.icmp_lines 8 0 0x12 0x34 0 1 0 1 (codes "abcdefghij") "ICMP_ECHO")

echo-IsDumped :
    IsDumped
      (chain Dissector)
      (main_stack (chain Dissector) ip6_text silent)
      (frame_bytes headers 1 echo)
      noon
      echo_calls
unfolding find_value
echo-IsDumped slack block w = (
  w.next + 1 + 1 + 1 + 1 + 1 + 1,
  dump_packet-message (chain Dissector) ip6_text silent 8 0 0x12 0x34 0 1 0 1 97 98 99 100 101 102
      103 104 (codes "ij") headers slack block noon w "ICMP_ECHO" headers-AreBytes refl
      (omega arith, (omega arith, tt)) (omega arith) (inl (omega arith, omega arith)),
)

-- Another signal arrives after the query, and SIGINT after the echo request.
abbrev rounds : List Round
rounds =
    record { received = datagram query_frame; signals = 1 ∷ []; now = noon }
    ∷ record { received = datagram (frame_bytes headers 1 echo); signals = 2 ∷ []; now = noon }
    ∷ []

rounds-Shows :
    Shows
      (chain Dissector)
      (main_stack (chain Dissector) ip6_text silent)
      rounds
      (query_calls ++ echo_calls)
unfolding deliver
rounds-Shows =
    next query_frame refl (omega arith) query_frame-IsDumped refl
      (last (frame_bytes headers 1 echo) refl (omega arith) echo-IsDumped refl)

main-Shows_example :
    (result : ℕ × Stack (chain Dissector) × Reader (chain ℕ)) × (n : ℕ) × (main
        (chain Dissector)
        (chain ℕ)
        ip6_text
        silent
        (returned 3)
        (λ _. returned 0)
        rounds
        two_blocks
      ≡ ok (
        result,
        record two_blocks { next = n; output = two_blocks.output ++ query_calls ++ echo_calls },
      ))
    × IsFinished (chain ℕ) (chain Dissector) (returned 3) result
main-Shows_example =
    main-Shows (chain ℕ) (chain Dissector) ip6_text silent 3 0 (λ _. returned 0) rounds
      (query_calls ++ echo_calls) two_blocks refl rounds-Shows
