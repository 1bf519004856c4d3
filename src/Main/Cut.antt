-- ===== src/Main/Cut.antt =====
-- src/main.c, src/osi.c and src/dissectors: a TCP segment that ends before its header's length.
use open_sniffer.Base.{ℕ, ◌+◌, ◌≡◌, ◌≤◌, refl, ◌∙◌, some, none, Bytes, length, arith}
use open_sniffer.Machine.{fault, out_of_bounds, Arg, World}
use open_sniffer.LinkedList.{LinkedList}
use open_sniffer.Osi.Dissector.{Dissector}
use open_sniffer.Osi.Stack.{Stack, dump_packet}
use open_sniffer.Osi.Search.{first_of}
use open_sniffer.Osi.Steps.{search_fault}
use open_sniffer.Dissectors.Wire.{packet_of}
use open_sniffer.Dissectors.Http.{Parsed}
use open_sniffer.Dissectors.Udp
use open_sniffer.Dissectors.Icmp
use open_sniffer.Dissectors.Tcp
use open_sniffer.Dissectors.Tcp.Fields as TcpFields
use open_sniffer.Main.{dissectors, main_stack}
use open_sniffer.Main.Datagram.{Headers, AreBytes, frame}
use open_sniffer.Main.Carried.{first_of-dissectors, frame_fault}

module _ (D : LinkedList Dissector) (inet_ntop6 : Bytes → Bytes) (parse : Bytes → Parsed) where
  abbrev stack : Stack D
  stack = main_stack D inet_ntop6 parse

  -- UDP and ICMP leave it to TCP.
  asked_fault :
      (block : ℕ) (bytes : Bytes)
      → Tcp.handles (some (packet_of block 6 none bytes)) ≡ fault out_of_bounds
      → first_of (some (packet_of block 6 none bytes)) 3 (dissectors inet_ntop6 parse)
        ≡ fault out_of_bounds
  unfolding Udp.handles Icmp.handles
  asked_fault block bytes e = rw e refl

  -- The dump of an Ethernet frame with an IPv4 header of twenty bytes, whose checksum and addresses
  -- consist of bytes, and of eight to twelve bytes for TCP, by the stack that `main` sets up, stops at
  -- an access outside an array: the length of the header of TCP is read behind the end.
  pub dump_packet-cut_segment :
      (h : Headers) (content slack : Bytes) (block : ℕ) (now : Arg) (w : World)
      → AreBytes h
      → 8 ≤ length content
      → length content ≤ 12
      → dump_packet D now (main_stack D inet_ntop6 parse) (frame h 6 content slack block) w
        ≡ fault out_of_bounds
  dump_packet-cut_segment h content slack block now w k long short =
      frame_fault D inet_ntop6 parse h k 6 content (omega arith) out_of_bounds
        (λ b v. search_fault D stack out_of_bounds (some (packet_of b 6 none content)) 3 v (
          first_of-dissectors D inet_ntop6 parse (some (packet_of b 6 none content)) 3
          ∙ asked_fault b content (
              TcpFields.handles-short (packet_of b 6 none content)
                (record { addr = b + 1; bytes = content }) refl refl refl long short)))
        slack block now w
