-- ===== src/Main/OverTcp.antt =====
-- src/main.c, src/osi.c and src/dissectors: the content of a TCP segment.
use mathlib.Core.List.{append_assoc}
use open_sniffer.Base.{
  ℕ, ◌+◌, ◌^◌, ◌≡◌, ◌<◌, refl, ap, ◌∙◌, true, none, some, List, [], ◌∷◌, ◌++◌, Bytes, All, length,
  drop, arith,
}
use open_sniffer.Machine.{ok, Print, World}
use open_sniffer.LinkedList.{LinkedList}
use open_sniffer.Osi.Packet.{Packet, Session}
use open_sniffer.Osi.Dissector.{Dissector}
use open_sniffer.Osi.Stack.{Stack, dump_packet_by_layer}
use open_sniffer.Osi.Search.{first_of}
use open_sniffer.Osi.Steps.{layer_found, walk_some}
use open_sniffer.Dissectors.Wire.{IsByte, packet_of}
use open_sniffer.Dissectors.Http.{Parsed}
use open_sniffer.Dissectors.Udp
use open_sniffer.Dissectors.Icmp
use open_sniffer.Dissectors.Tcp
use open_sniffer.Dissectors.Tcp.Fields as TcpFields
use open_sniffer.Dissectors.Tcp.Payload as TcpPayload
use open_sniffer.Main.{dissectors, main_stack}
use open_sniffer.Main.Carried.{first_of-dissectors, application_walk, Walks}

-- The header of TCP without options but for its length: the ports, the two numbers, the flags, the
-- window, the checksum and the urgent pointer.
pub record TcpHeader : Type 0 where
  pub s1 : ℕ
  pub s2 : ℕ
  pub d1 : ℕ
  pub d2 : ℕ
  pub q1 : ℕ
  pub q2 : ℕ
  pub q3 : ℕ
  pub q4 : ℕ
  pub a1 : ℕ
  pub a2 : ℕ
  pub a3 : ℕ
  pub a4 : ℕ
  pub f : ℕ
  pub w1 : ℕ
  pub w2 : ℕ
  pub c1 : ℕ
  pub c2 : ℕ
  pub u1 : ℕ
  pub u2 : ℕ

-- The fields that are printed as numbers consist of bytes.
abbrev pub AreTcpBytes : TcpHeader → Type 0
AreTcpBytes t = All IsByte (t.s1 ∷ t.s2 ∷ t.d1 ∷ t.d2 ∷ t.q1 ∷ t.q2 ∷ t.a1 ∷ t.a2 ∷ 0x50 ∷ [])

module _ (t : TcpHeader) (content : Bytes) where
  abbrev tcp_rest : Bytes
  tcp_rest = t.c1 ∷ t.c2 ∷ t.u1 ∷ t.u2 ∷ content

  abbrev pub tcp_bytes : Bytes
  tcp_bytes =
      TcpPayload.bytes t.s1 t.s2 t.d1 t.d2 t.q1 t.q2 t.q3 t.q4 t.a1 t.a2 t.a3 t.a4 0x50
        (t.f ∷ t.w1 ∷ t.w2 ∷ tcp_rest)

  abbrev pub tcp_lines : List Print
  tcp_lines =
      TcpFields.tcp_lines t.s1 t.s2 t.d1 t.d2 t.q1 t.q2 t.q3 t.q4 t.a1 t.a2 t.a3 t.a4 0x50 t.f t.w1
        t.w2 tcp_rest

  abbrev pub ports : World → Session
  ports v =
      TcpPayload.content_session t.s1 t.s2 t.d1 t.d2 t.q1 t.q2 t.q3 t.q4 t.a1 t.a2 t.a3 t.a4 0x50
        (t.f ∷ t.w1 ∷ t.w2 ∷ tcp_rest) v

  -- The packet that TCP hands on.
  abbrev pub inner : World → Packet
  inner v =
      TcpPayload.content_packet t.s1 t.s2 t.d1 t.d2 t.q1 t.q2 t.q3 t.q4 t.a1 t.a2 t.a3 t.a4 0x50
        (t.f ∷ t.w1 ∷ t.w2 ∷ tcp_rest) v content

  abbrev carrier : ℕ → Packet
  carrier block = packet_of block 6 none tcp_bytes

  module _ (some_content : 0 < length content) where
    supported : (block : ℕ) → Tcp.handles (some (carrier block)) ≡ ok true
    supported block =
        (TcpPayload.handles-segment t.s1 t.s2 t.d1 t.d2 t.q1 t.q2 t.q3 t.q4 t.a1 t.a2 t.a3 t.a4 0x50
            (t.f ∷ t.w1 ∷ t.w2 ∷ tcp_rest) block none (omega arith)).1
          (omega arith)

    -- Without options the content begins behind twenty bytes.
    decapsulate-carrier :
        (block : ℕ) (w : World)
        → length content + 20 < 2 ^ 64
        → Tcp.decapsulate (some (carrier block)) w
          ≡ ok (
            some (inner w),
            record w {
              live = (w.next + 1 + 1) ∷ (w.next + 1) ∷ w.next ∷ w.live;
              next = w.next + 1 + 1 + 1;
            },
          )
    decapsulate-carrier block w fits =
        let (rest, decapsulated, split) =
          TcpPayload.decapsulate-segment t.s1 t.s2 t.d1 t.d2 t.q1 t.q2 t.q3 t.q4 t.a1 t.a2 t.a3 t.a4
            0x50 (t.f ∷ t.w1 ∷ t.w2 ∷ tcp_rest) block none w (omega arith) (omega arith)
            (supported block) in
        let same : rest ≡ content = ap (drop 20) split in rw decapsulated (rw same refl)

-- The blocks that TCP takes.
abbrev pub three_more : ℕ → ℕ
three_more n = n + 1 + 1 + 1

module _ (D : LinkedList Dissector) (inet_ntop6 : Bytes → Bytes) (parse : Bytes → Parsed) where
  abbrev stack : Stack D
  stack = main_stack D inet_ntop6 parse

  -- UDP and ICMP leave it to TCP.
  tcp_first :
      (block : ℕ) (bytes : Bytes)
      → Tcp.handles (some (packet_of block 6 none bytes)) ≡ ok true
      → first_of (some (packet_of block 6 none bytes)) 3 (dissectors inet_ntop6 parse)
        ≡ ok (some Tcp.dissector)
  unfolding Udp.handles Icmp.handles
  tcp_first block bytes e = rw e refl

  module _ (t : TcpHeader) (k : AreTcpBytes t) (content : Bytes) (some_content : 0 < length content)
      (fits : length content + 20 < 2 ^ 64) where
    tcp_layer :
        (block : ℕ) (v : World)
        → dump_packet_by_layer D stack (some (carrier t content block)) 3 v
          ≡ ok (
            some (inner t content v),
            record v {
              live = (v.next + 1 + 1) ∷ (v.next + 1) ∷ v.next ∷ v.live;
              next = three_more v.next;
              output = v.output ++ tcp_lines t content;
            },
          )
    tcp_layer block v =
        let p = carrier t content block in
        layer_found D stack (some p) 3 Tcp.dissector _ v _ _
          (first_of-dissectors D inet_ntop6 parse (some p) 3
            ∙ tcp_first block (tcp_bytes t content) (supported t content some_content block))
          (decapsulate-carrier t content some_content block v fits)
          (TcpFields.dump-segment t.s1 t.s2 t.d1 t.d2 t.q1 t.q2 t.q3 t.q4 t.a1 t.a2 t.a3 t.a4 0x50
            t.f t.w1 t.w2 _ block none _ k (supported t content some_content block))

    -- The walk over a TCP segment, from what happens to its content on layer 7.
    pub tcp_walk :
        (out : List Print)
        → ((v w : World)
            → dump_packet_by_layer D stack (some (inner t content v)) 7 w
              ≡ ok (none, record w { output = w.output ++ out }))
        → Walks D inet_ntop6 parse 6 (tcp_bytes t content) three_more (tcp_lines t content ++ out)
    tcp_walk out shows block v =
        walk_some D stack 6 (some (carrier t content block)) 3 (inner t content v) v _ _ v.live
          (omega arith) (tcp_layer block v)
          (application_walk D inet_ntop6 parse (inner t content v) _ _ (shows v _)) refl
        ∙ ap (λ calls. ok (tt, record v { next = three_more v.next; output = calls }))
            (append_assoc v.output (tcp_lines t content) out)
