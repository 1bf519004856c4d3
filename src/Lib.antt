-- ===== src/Lib.antt =====
-- open-sniffer: a sniffer that reads Ethernet frames from a raw socket and prints what its
-- dissectors find in them.
--
-- The program. `main` (src/main.c) registers nine dissectors with a stack (src/osi.c) and reads
-- frames with a reader (src/sync_reader.c) until SIGINT arrives. The reader hands each frame to its
-- callbacks; the callback of `main` has the stack dump it. The stack asks the dissectors of a layer
-- in turn which of them handles the packet, has that one decapsulate the packet and then dump it,
-- goes on with the packet that was handed over, and destroys it after its inner layers.
--
-- Files and the code they model:
--   Base            shared names; Tests: Boolean tests; Lists: lists over native numbers;
--                   Words: machine words; Text: characters and numbers as text
--   Machine         the monad of the program: faults, output, heap blocks, buffers; Reads: reads of
--                   a buffer; Rules: what a computation ends in
--   Io              src/io.c and `fail` of src/app.c
--   LinkedList      the list library, a record of operations and laws; Search: a search through it
--   Osi             src/osi.c and includes/osi.h: Packet, Dissector and Stack hold the definitions;
--                   Contract: what a dissector owes the stack; Trace: the specification of a dump;
--                   Select: the search for a dissector; Layer: a layer; Walk: the walk over the
--                   layers; Search: the search and a layer by the list of the registered dissectors;
--                   Reference: the dump beside a reference that has a list of
--                   dissectors and a list of layers; Steps: the walk as equations
--   Inaddr          `stringify_hw_addr` of src/utils/inaddr.c, and `inet_ntoa`; Storage: the rest of
--                   that file; Ports and Texts: ports and texts of addresses; Safety: bounds;
--                   Dotted: dotted quads
--   Dissectors      src/dissectors/<name>/<name>.c and includes/dissectors/<name>/<name>.h, a
--                   module each; in each, Lawful is about the contract and Fields, where there is
--                   one, about spelled-out packets, as Payload of Tcp and Accepts, Asked, Query
--                   and Response of Dns are. Lookup of Icmp is about its table. Guard, Wire and
--                   Table: what they have in common. Dns has its tables in Types, `dn_expand` in
--                   Expand, the header in Header, the output in Questions and Dump; below Expand,
--                   Names says which names there are, Ends, Round, Steps and Shape are about a
--                   round of the loop, and Safety, Complete, Exact and Encode about all of it
--   SyncReader      src/sync_reader.c and includes/sync_reader.h; Read: a read; Callbacks: the
--                   callbacks as they are added and removed; Alone: a read with one callback
--   Main            src/main.c; Registered: the stack of `main`; Loop: its loop; Ends: all of it;
--                   Sniffed: a run on frames whose dumps are known; Datagram and Carried: an Ethernet
--                   frame with a datagram of IPv4, through the stack of `main`; OverUdp and OverTcp:
--                   what UDP and TCP carry in it; Resolver, Query and Answer: DNS; Lease, Web and
--                   Ping: DHCP, HTTP and ICMP; Short and Cut: what ends too early
--   Tests           a list library that keeps the laws, and concrete packets
--
-- Correspondence. Functions, fields and macros keep their names, less the prefix of their module
-- (`osi_dump_packet` is Osi.Stack.dump_packet, `udp_dissector_dump` is Dissectors.Udp.dump). A
-- function of the program is a computation from a World to a Result: `printf` appends a call with
-- its format and arguments, `malloc` takes a fresh block and `free` gives one back. A read outside a
-- buffer, a dereference of NULL, a `free` of what is not a live block, a loop without rounds left and
-- `exit(EXIT_FAILURE)` are faults, after which nothing runs. A payload is a buffer: its block and its
-- bytes, of which there may be more than the packet's size says. `handles` only reads, so it is a
-- Result with no World. `dump_header` and `strip_header` are the statements of `dump` and
-- `decapsulate` behind their guard, and `handles_data` those of `handles` on the payload.
--
-- The target is little-endian with 64-bit pointers; `size_t` arithmetic wraps at 2 ^ 64. `malloc` is
-- taken to succeed. The static buffers that `stringify_hw_addr`, `inet_ntoa` and others return are
-- values, printed before the next call writes them.
--
-- Parameters: the list library (its laws are fields of LinkedList), `inet_ntop` of an IPv6 address,
-- the HTTP parser, which is a vendored copy of another project (what it makes of the bytes: an error
-- number and the events for the callbacks), the current time, what `socket`, `close` and `sendto`
-- meet, and for each round of the loop what `recvfrom` meets and the signals with which the handler
-- is called before the next test of `started`.
--
-- Rounds. `osi_dump_packet_recursive` gets 8 rounds, one for each layer from 2 to 7 and the call that
-- returns, with one to spare. The loop of `dn_expand` raises its counter by two and gets one round
-- more than the packet has bytes; the counter, an `int` in C, is a natural number without a bound,
-- which is the same for packets below 2^31 bytes (`main` reads at most 1024). The loop of `main` takes a round from a list; a list that ends
-- before SIGINT arrives is a fault.
--
-- Not modelled: the installation of the signal handler and the text of `get_current_time`. The
-- function `j_inet_ntop` is modelled with the rest of its file; where the DNS dissector calls it on the
-- structure that it has filled in, the text is the parameter for `inet_ntop` of an IPv6 address.
pub mod Base
pub mod Machine
pub mod LinkedList
pub mod Io
pub mod Osi
pub mod Inaddr
pub mod Dissectors
pub mod SyncReader
pub mod Main
mod Tests
