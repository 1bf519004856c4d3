-- ===== src/SyncReader/Alone.antt =====
-- src/sync_reader.c: a read of a reader with one callback, as an equation.
use open_sniffer.Base.{
  ℕ, ◌+◌, ◌-◌, ◌≡◌, ◌≤◌, refl, ap, some, none, List, [], ◌∷◌, ◌++◌, map, Bytes, length, take-length,
}
use open_sniffer.Machine.{run, ok, M, ◌>>◌, World, malloc}
use open_sniffer.LinkedList.{LinkedList, for_each}
use open_sniffer.Osi.Packet.{Packet}
use open_sniffer.Osi.Contract.{free-owned}
use open_sniffer.Io.{zeros, datagram, xrecvfrom}
use open_sniffer.SyncReader.{Reader, notify_packet, read}
use open_sniffer.SyncReader.Callbacks.{callbacks}

for_each-map :
    {N : Type 0} (element : N → ℕ) (ns : List N) (act : ℕ → M (Unit {0}))
    → for_each ns (λ n. act (element n)) ≡ for_each (map element ns) act
for_each-map element [] act = refl
for_each-map element (n ∷ ns) act = ap (λ m. act (element n) >> m) (for_each-map element ns act)

-- The packet that a read makes of a datagram that fits.
abbrev pub packet_read : World → Bytes → ℕ → Packet
packet_read w d len = record {
  addr = 0;
  payload = some (record { addr = w.next; bytes = d ++ zeros (len - length d) });
  size = length d;
  protocol = 0;
  session = none;
}

module _ (C : LinkedList ℕ) (code : ℕ → Reader C → Packet → M (Unit {0})) (reader : Reader C)
    (pointer : ℕ) (alone : callbacks C reader ≡ pointer ∷ []) where
  open C use {element, nodes, iterate_over_nodes_lem}

  notify_packet-alone :
      (packet : Packet) (w v : World)
      → code pointer reader packet w ≡ ok (tt, v)
      → notify_packet C code reader packet w ≡ ok (tt, v)
  unfolding notify_packet run
  notify_packet-alone packet w v e =
      rw
        (
          iterate_over_nodes_lem reader.callback_list (λ n. code (element n) reader packet),
          for_each-map element (nodes reader.callback_list) (λ a. code a reader packet),
          alone,
          e,
        )
        refl

  -- A read of a datagram that fits calls the one callback on the packet, and frees the buffer.
  pub read-alone :
      (d : Bytes) (len : ℕ) (w v : World)
      → length d ≤ len
      → code pointer reader
          (packet_read w d len)
          (record w { live = w.next ∷ w.live; next = w.next + 1 })
        ≡ ok (tt, v)
      → v.live ≡ w.next ∷ w.live
      → read C code (datagram d) reader len w ≡ ok (length d, record v { live = w.live })
  unfolding read xrecvfrom malloc run
  read-alone d len w v fits e owned =
      rw
        (
          take-length len d fits,
          notify_packet-alone (packet_read w d len) _ v e,
          free-owned (some w.next) v w.live owned,
        )
        refl
