-- ===== src/Lib.antt =====
-- rust-nethuns: a model of the packet input and output library for netmap ports.
--
-- The program gives a client sockets over network interfaces. A socket keeps one ring of packet
-- slots per direction (NethunsRing, over the circular queue) and a free ring of spare packet
-- buffers. The kernel shares with it the rings of a netmap port, whose slots name packet buffers
-- by index. `recv` searches the port's reception rings from the current one on, moves the buffer
-- of the next packet into the head slot of the socket's ring and puts a buffer of the free ring
-- in its place; dropping the packet frees the slot, and a later `recv` with an empty free ring
-- takes the buffers of the free slots at the tail back. `send` copies a packet into the buffer of
-- the slot at the tail of the transmission ring; `flush` moves the buffers of the slots that wait
-- into the port's transmission rings, and takes buffers back when the packets have been sent.
-- `open` makes the rings, `bind` opens the port and deals out the extra buffers that netmap
-- grants, and dropping the socket links its buffers into the list that netmap keeps in the
-- buffers themselves. Sockets that need the promiscuous mode of an interface share it through a
-- count of its users. Another kind of socket writes packets to pcap files and reads them back
-- into the slots of a ring.
--
-- The files, and the code each is about (paths from the root of the repository):
--   * CircularQueue: src/misc/circular_queue.rs, one definition per method; `get_mut` is `set_at`,
--     together with what is stored through the reference. NextPow is `next_power_of_two` of the
--     standard library, Valid the invariant, Fifo the bounded list that the queue is to be, Refine
--     and Client the refinement, per operation and for sequences of calls.
--   * Ring: src/sockets/ring.rs. A slot holds the status that its atomic byte stands for; Status is
--     the byte. FreeSlots is `num_free_slots`, SendSlot is `nethuns_send_slot`.
--   * Types, Errors: src/types.rs and src/sockets/errors.rs, without texts.
--   * Pkthdr: src/sockets/api/netmap/pkthdr.rs, with `len` as `hdr_len`.
--   * Netmap: the shared memory of lib/netmap/src (rings, slots, buffers) and the socket's state
--     from src/sockets/base.rs and src/sockets/api/netmap/nethuns_socket.rs. Utility is
--     src/sockets/api/netmap/utility.rs, RingSearch its search; Reclaim is the macro that takes
--     buffers back; Recv is `recv` and `RecvPacket::drop`, Session sequences of both; FreeList is the
--     list of spare buffers in memory, in `bind` and in the socket's `drop`, and Close that `drop` as
--     a whole (`drop_socket`); Send is `send`,
--     `send_slot` and `get_packet_buffer_ref`; Flush is `flush`, with Links for the netmap slots that
--     point to slots of the socket, Push and Clean for its inner loops, Port for the loops over the rings and
--     Total for the whole; Transmit is about sequences of all three, and Duplex about them and the
--     reception together, with Sides for the two sides of a socket between calls; Bind is
--     src/sockets/api/netmap/bindable_socket.rs, with Modes for the directions of a socket and Pool
--     for the dealing out of the buffers; Startup is about `open` and `bind` together, Lifetime about
--     `bind` and `drop` with the promiscuous mode.
--   * Vlan: src/vlan.rs.
--   * Pcap: src/sockets/pcap.rs and src/sockets/pcap/constants.rs. File is a file with a cursor, Words
--     and Header the bytes of the headers, Reader the operations of
--     src/sockets/pcap/reader_builtin.rs (`open` is `open_pcap`, the drop of a packet `release`) but
--     for `store`, which is Store. Slots, Record, Replay, Opening and Roundtrip are about packets
--     written and read back, Store.Stored about what `store` writes, and Store.Capture about captures
--     that are read back. Parser is src/sockets/pcap/reader_pcap.rs, and Parser.Reading its `read`.
--   * Misc: src/misc.rs and src/global.rs. Mode is what the system calls do to the promiscuous mode of
--     an interface, Counted the count of its users, Users each of the two calls, Sharing sequences of
--     them.
--   * Programs: programs under examples, which call the sockets. Forward is forward.rs and ForwardMt
--     forward-mt.rs, Send is send.rs, Receive the receiving loops of meter.rs and filter.rs, Meter the
--     counters that the threads of send.rs and meter.rs share with the thread that prints them,
--     FilePcap is file-pcap.rs. Receptions and Receive.Steps describe the receiving loops a second
--     time, as step relations. The other files are about a program's loops (Loop, Batches, Rounds, Shared, Filtering, Counting, Capturing), its threads
--     (Turns, Fifo, Conserved) and the filling of its ring (Filled).
--   * Common: lists, Boolean tests, faults and machine words that all files share.
--   * Examples: concrete states, and the theorems at them.
--
-- How the code is modelled. A function that may panic, or read memory that it must not read,
-- returns an Option, whose `none` is that fault, but for the bytes of a packet buffer: its address is
-- computed from an index that nothing checks, and that such an index names a buffer is taken for granted
-- (`netmap_buf` is total); a Rust Result is a Result. State is passed on
-- explicitly. A pointer into a ring, a slot or a buffer is the index of what it points to; a
-- received packet refers to its ring slot by position, so that dropping it writes the slot of the
-- socket's ring. A `usize` is a number below 2 ^ 64 whose wrap-around is written out, as in a
-- release build; the machine is little-endian. One thread owns the socket, as its type demands,
-- so that the atomic loads and stores of the status are plain ones; where another thread drops its
-- packets (examples/forward-mt.rs), a turn of a thread is a whole call of the library. The calls that
-- set and clear the promiscuous mode come one after the other: src/misc.rs reads the flags before it
-- takes the lock, and calls of several threads that overlap are not modelled.
--
-- Loops run on fuel, and running out is a fault, so that a theorem that a function returns shows
-- that the fuel is enough: the search has one round for each reception ring of the port, taking
-- buffers back one for each slot between tail and head and one more, and the loops over the lists
-- of spare buffers one for each buffer and one more. In `flush` the first loop over a ring has
-- one round for each slot of the socket's ring and one more, the second one for each slot of the
-- netmap ring and one more. How often `read` of src/sockets/pcap/reader_pcap.rs fills the buffer
-- is up to the pcap_parser crate: its fuel is an argument. The loops of the programs run until a
-- signal stops them: the number of their rounds is an argument, and a loop that has not ended by then
-- says so in its result. So is the loop around `send` of examples/forward.rs, which goes on as long as
-- the kernel sends nothing.
--
-- What is a parameter: the next index of a netmap ring, the flag of a changed buffer and the two
-- synchronisation calls (NetmapApi; RxSyncLaws says that a synchronisation of the reception
-- leaves the port descriptor, the number of rings and the buffers in their slots as they are;
-- NextLaws that the next index goes round the ring; SyncsApart that each synchronisation leaves the
-- rings of the other direction; TxSyncLaws that a synchronisation of the
-- transmission moves only the tails of the rings, and not past their heads); the preparation and
-- the opening of a port, the decimal print of a queue number, and the index of an interface
-- (BindApi); what `nm_pkt_copy` of the netmap headers leaves in a buffer (CopyLaws says that the
-- packet is at its start and that its size does not change); the parsers of the etherparse crate
-- (Etherparse); whether the addresses of a packet can be parsed (`has_addrs`); the files that can
-- be opened, and how far a new one can grow (FileSystem); the system calls on interfaces
-- (IfCalls; ModeLaws says that reading flags changes nothing and that setting them sets them or
-- fails); the reader of the pcap_parser crate (PcapParser).
--
-- What is not modelled: the forwarding methods of src/sockets.rs and src/sockets/pcap.rs, which
-- borrow the inner socket and call it, the statistics and the fan-out that no framework supports,
-- the generated bindings of lib/netmap and its build script, the parsing of arguments, the signal
-- handlers and the printing of the programs under examples, their variants meter-mt.rs,
-- file-pcap-mt.rs, recv_test.rs and send_test.rs, and the texts of errors and messages.
pub mod Common
pub mod CircularQueue
pub mod Types
pub mod Errors
pub mod Pkthdr
pub mod Ring
pub mod Netmap
pub mod Vlan
pub mod Pcap
pub mod Misc
pub mod Programs
pub mod Examples
