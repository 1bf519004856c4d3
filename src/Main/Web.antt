-- ===== src/Main/Web.antt =====
-- src/main.c, src/osi.c and src/dissectors: what TCP carries, given to the HTTP dissector.
use mathlib.Core.List.{append-nil}
use open_sniffer.Base.{
  ℕ, ◌+◌, ◌^◌, ◌≡◌, ◌≢◌, ◌<◌, ◌⊎◌, refl, ◌∙◌, inl, inr, true, false, if◌then◌else◌, ◌==◌, ==_iff,
  some, none, List, [], ◌∷◌, ◌++◌, Bytes, All, length, arith,
}
use open_sniffer.Machine.{run, ok, Arg, Print, World}
use open_sniffer.LinkedList.{LinkedList}
use open_sniffer.Osi.Packet.{Packet}
use open_sniffer.Osi.Dissector.{Dissector}
use open_sniffer.Osi.Stack.{dump_packet_by_layer, dump_packet}
use open_sniffer.Osi.Search.{first_of}
use open_sniffer.Osi.Steps.{layer_found, layer_none}
use open_sniffer.Dissectors.Wire.{IsByte, be16, line}
use open_sniffer.Dissectors.Dhcp
use open_sniffer.Dissectors.Dhcp.Fields as DhcpFields
use open_sniffer.Dissectors.Dns.Header
use open_sniffer.Dissectors.Dns.Accepts.{refuses-dns_message}
use open_sniffer.Dissectors.Http
use open_sniffer.Dissectors.Http.{Parsed}
use open_sniffer.Dissectors.Http.Fields.{all_shown, dump-payload}
use open_sniffer.Main.{dissectors, main_stack}
use open_sniffer.Main.Datagram.{Headers, AreBytes, frame, shown}
use open_sniffer.Main.Carried.{first_of-dissectors, dump_packet-frame}
use open_sniffer.Main.OverTcp.{
  TcpHeader, AreTcpBytes, tcp_bytes, tcp_lines, ports, inner, three_more, tcp_walk,
}

-- What is printed of a payload that reaches the HTTP dissector.
abbrev http_lines : Parsed → List Print
http_lines parsed =
    if parsed.http_errno == 0
    then line Http.http_output_header []
      ∷ (all_shown parsed.events ++ line Http.http_output_footer [] ∷ [])
    else []

module _ (D : LinkedList Dissector) (inet_ntop6 : Bytes → Bytes) (parse : Bytes → Parsed) where
  -- On layer 7 HTTP is asked last.
  http_first :
      (p : Packet)
      → Dhcp.handles (some p) ≡ ok false
      → Header.handles (some p) ≡ ok false
      → Http.handles parse (some p) ≡ ok true
      → first_of (some p) 7 (dissectors inet_ntop6 parse) ≡ ok (some (Http.dissector parse))
  http_first p e k l = rw (e, k, l) refl

  none_first :
      (p : Packet)
      → Dhcp.handles (some p) ≡ ok false
      → Header.handles (some p) ≡ ok false
      → Http.handles parse (some p) ≡ ok false
      → first_of (some p) 7 (dissectors inet_ntop6 parse) ≡ ok none
  none_first p e k l = rw (e, k, l) refl

  module _ (x0 x1 x2 x3 x4 x5 x6 x7 x8 x9 x10 x11 : ℕ) (rest : Bytes) where
    abbrev web_bytes : Bytes
    web_bytes = x0 ∷ x1 ∷ x2 ∷ x3 ∷ x4 ∷ x5 ∷ x6 ∷ x7 ∷ x8 ∷ x9 ∷ x10 ∷ x11 ∷ rest

    -- The content begins neither like a DHCP message nor, with at most five questions, like one of DNS.
    pub record IsLeftToHttp : Type 0 where
      pub no_dhcp : ((x0 ≢ 1) × (x0 ≢ 2)) ⊎ (20 < x1)
      pub are_bytes : All IsByte (x4 ∷ x5 ∷ [])
      pub no_dns : 5 < be16 x4 x5

    web_layer :
        (t : TcpHeader) (v w : World)
        → IsLeftToHttp
        → dump_packet_by_layer D (main_stack D inet_ntop6 parse) (some (inner t web_bytes v)) 7 w
          ≡ ok (none, record w { output = w.output ++ http_lines (parse web_bytes) })
    unfolding Http.decapsulate run
    web_layer t v w left =
        let p = inner t web_bytes v in
        let session = ports t web_bytes v in
        let no_dhcp =
          DhcpFields.refuses-payload 0 x0 x1 x2 x3 x4 x5 x6 x7 _ v.next (some session)
            left.no_dhcp in
        let no_dns =
          refuses-dns_message x0 x1 x2 x3 x4 x5 x6 x7 x8 x9 x10 x11 rest v.next 0 session
            left.are_bytes left.no_dns in
        elim (dump-payload web_bytes v.next session parse w) [
          | inl (e, handled, dumped) ↦ rw ((==_iff (parse web_bytes).http_errno 0).1 e) (
              layer_found D (main_stack D inet_ntop6 parse) (some p) 7 (Http.dissector parse) none w
                w _
                (first_of-dissectors D inet_ntop6 parse (some p) 7
                  ∙ http_first p no_dhcp no_dns handled)
                refl dumped)
          | inr (e, refused, _) ↦
              let failed : ((parse web_bytes).http_errno == 0) ≡ false = ground arith in
              rw (failed, append-nil w.output)
                (layer_none D (main_stack D inet_ntop6 parse) (some p) 7 w (
                  first_of-dissectors D inet_ntop6 parse (some p) 7
                  ∙ none_first p no_dhcp no_dns refused))
        ]

    -- The dump of an Ethernet frame with an IPv4 header of twenty bytes, a TCP header of twenty
    -- bytes and a content of at least twelve that begins neither like a DHCP message (its first byte
    -- is neither 1 nor 2, or its second is above 20) nor like one of DNS (the big-endian number of
    -- its bytes 4 and 5 is above 5, and the two are bytes), by the stack that `main` sets up, ends.
    -- It prints the header of the dump, the lines of Ethernet, IP and TCP, then, if the parser finds
    -- no error in the content, the header of HTTP, a line for each part that the parser reports and
    -- the footer of HTTP, and last the footer, and nothing else. It takes seven blocks and gives all
    -- of them back. The fields that are printed as numbers or as IPv4 addresses consist of bytes,
    -- and the length fits a `size_t`.
    pub dump_packet-http :
        (h : Headers) (t : TcpHeader) (slack : Bytes) (block : ℕ) (now : Arg) (w : World)
        → AreBytes h
        → AreTcpBytes t
        → length web_bytes + 54 < 2 ^ 64
        → IsLeftToHttp
        → dump_packet D now
            (main_stack D inet_ntop6 parse)
            (frame h 6 (tcp_bytes t web_bytes) slack block)
            w
          ≡ ok (
            tt,
            record w {
              next = w.next + 1 + 1 + 1 + 1 + 1 + 1 + 1;
              output =
                  w.output
                  ++ shown h 6
                      (tcp_bytes t web_bytes)
                      now
                      (tcp_lines t web_bytes ++ http_lines (parse web_bytes));
            },
          )
    dump_packet-http h t slack block now w k l fits left =
        dump_packet-frame D inet_ntop6 parse h k 6 (tcp_bytes t web_bytes) (omega arith) three_more
          (tcp_lines t web_bytes ++ http_lines (parse web_bytes))
          (tcp_walk D inet_ntop6 parse t l web_bytes (omega arith) (omega arith)
            (http_lines (parse web_bytes)) (λ v u. web_layer t v u left))
          slack block now w
