-- ===== src/Lib.antt =====
-- Verification of tipy, a TCP/IP stack in user space: its TCP connection core with the two byte
-- buffers under it, the bytes of Ethernet, ARP, IP, ICMP, UDP and TCP, the Internet checksum, the
-- input of packets with the reassembly of fragments, the way of a datagram to the wire, the
-- resolution of addresses by ARP, the addresses, and the calls of applications on sockets.
--
-- The program. A TCP control block (tipy/protocols/tcp/tcpcb.py) keeps the variables of a
-- connection. One thread (tipy/components/tcp_events.py) takes events from a queue and calls the
-- handlers of the state machine (tipy/protocols/tcp/tcp_fsm.py), which change the block, start and
-- stop its timers (tipy/protocols/tcp/tcp_timer.py), compare sequence numbers
-- (tipy/protocols/tcp/tcp_seq.py), and move bytes through the receive and the send buffer
-- (tipy/lib/buffer.py). An application's calls (tcp_usrreq.py, udp_usrreq.py, raw_usrreq.py)
-- change the tables of sockets (tipy/components/sockets_table.py), fill the send buffer, and
-- schedule events.
--
-- Every protocol has a builder, a parser, `rx` and `tx`. A segment, datagram or message goes down
-- by `tx_ip`, which builds the IP header and finds the next hop; ip/tx.py keeps the datagram in
-- tipy/components/ip_cache.py until tipy/components/arp_cache.py knows the MAC address; `tx_ether`
-- hands the frame to the sending ring (tipy/components/tx_ring.py), which builds it into bytes. A
-- received frame goes up from `rx_ether` to `rx_arp` or `rx_ip`, which puts fragments together, in
-- sessions that timers free, and on to `rx_icmp`, `rx_udp` or `rx_tcp`, with the checksum of
-- tipy/lib/csum.py.
--
-- The files.
--   Common            shared names: native numbers, lists over them, Boolean tests, integers
--   Buffer/Slices     `enqueue` and `dequeue` over a ring with two offsets, as both classes do them
--   Buffer/Queue      the bounded queue of bytes, the specification of `RingBuffer`
--   Buffer/Ring       `RingBuffer`: init, free_space, ready, is_empty, enqueue, dequeue
--   Buffer/Recoverable  `RRingBuffer`: the same on the virtual offsets, free, roll_back_to_r and
--                     roll_back_to_w
--   Tcp/Seq           seq_lt, seq_leq, seq_gt, seq_geq, seq_diff
--   Tcp/Types         STATES, the fields of a segment, and `TCPCB` with its `__init__`
--   Tcp/Action        a handler as a function of the block with a result
--   Tcp/Timer         tcp_timer.py
--   Tcp/Output, Input, TxLoop   the helpers of tcp_fsm.py: `_h_rx_ack` is `h_rx_ack`, and so on
--   Tcp/Open, Receive, Transmit  the handlers of the states, `_rx_estab` as `rx_estab`; a branch of
--                     a handler may have a name of its own
--   Tcp/Machine       connect, tx, rx, rtx (`do_rtx`), the two tables, and runs of events
--   Tcp/Moves         the state diagram, and how every handler follows it
--   Wire/Struct       the formats of Python's struct module that tipy uses
--   Wire/Csum         csum.py; Wire/Csum/Rfc has RFC 1071's checksum, the specification
--   Packet/Tcp        tcp/builder.py; Packet/Tcp/Parse is tcp/parser.py, whose `segment_of` makes the
--                     `Segment` of Tcp/Types
--   Packet/Tcp/Rx     `rx_tcp`, to the event or the RST
--   Ip/Reass          what a fragment does to the resources of its datagram in `_ip_reass`
--   Ip/Cache          the sessions and timers round it: `_alloc_ip_reass_mem`, `_ip_reass_timer`,
--                     `_dealloc_ip_reass_mem`, `_reass_timer_exceeded`
--   Ip/Rx             IPParser (`ip_parser`) and `rx_ip`
--   Arp               arp_cache.py, the pending datagrams of ip_cache.py, `rx_arp`, `tx_arp`, and the
--                     end of `tx_ip` (`tx_ip_to`)
--   Packet/Frame      what `pack_into` does at the front of a frame
--   Packet/Udp        udp/builder.py, udp/parser.py and `rx_udp`
--   Packet/Icmp       icmp/builder.py, icmp/parser.py and `rx_icmp`
--   Packet/Arp        arp/builder.py, arp/parser.py, and `rx_arp` from the bytes on
--   Packet/Ip         `IPBuilder`; Packet/Ip/Options has its options and `IPOptBuilder`
--   Packet/Ether      ether/builder.py, ether/parser.py, `rx_ether`, and `_tx_loop` (`transmit`)
--   Packet/Tx         `tx_ip`, `tx_icmp`, `tx_udp`, `tx_raw`; Packet/Tx/Ping composes all parts
--   Address/Text, Inet, Ethernet  methods of `str`, tipy/lib/inet.py, tipy/lib/ethernet.py
--   Socket/Table      sockets_table.py, and what all sockets share (tipy/lib/socket.py, errno.py)
--   Socket/Tcp, Udp, Raw  tcp_usrreq.py, udp_usrreq.py and raw_usrreq.py, with RIPTable
--   Tests modules     runs on concrete blocks and buffers
--
-- Correspondence. The record `Tcpcb` has the fields of `TCPCB` by their names. Calls of the rest of
-- the stack (`tx_tcp`, `notify`, `schedule_event`, `remove_tcpcb`) are a list of effects in the
-- block, newest first. A timer task is named by its index in the list of tasks ever scheduled, and
-- `TimerTask.remove` marks it. The clock is a function of the number of its readings. A handler
-- that changes the segment returns the changed one. Numbers are natural; `& 0xFFFFFFFF` is the
-- remainder by 2 ^ 32; `rcv_wnd`, which may fall below 0, is an integer. Floats are a type `R` with
-- the operations used, of which only the theorem on the timeout assumes anything: that no float
-- is less than itself. An event of the model is one of the four types of `TCPEventType`, or the
-- setting of `close_requested` or `shutdown_requested` by another thread, which falls between two
-- events.
--
-- The options of a segment are read where `_rx_syn_sent` reads them, and an exception there is the
-- outcome `parse_error`. A header that reaches behind the frame is not in the model.
--
-- Bytes are numbers below 256, in the theorems that need it as a hypothesis. An exception of a
-- builder or parser is `none`; an exception in `_ip_reass` is a result beside the state that it
-- leaves. The host is little-endian where a theorem is about a segment or a frame. A fragment's
-- total length is not below its header's. What `int(text, 16)` gives is a parameter, of which one
-- theorem assumes that it reads hexadecimal digits. Sockets and blocks are named by numbers.
-- A call that waits ends where it waits, and what follows its waking is a function of its own;
-- between them anything may happen that a list of `Call` can say.
-- `udp_close` looks for a key with address objects in it, which equal no integer, so that nothing is
-- taken out (`remove_socket_of_objects`). `IPFragBuilder` reads a field that is never set, so that it
-- has no value.
--
-- Fuel. The fold of the checksum has as many rounds as its sum, and the loop over the options of a
-- segment as many as the data offset; both theorems on them hold for all values. The rounds of the
-- `while` loop of `_tx_loop` are counted by the bytes and views drained, plus one: a round takes one
-- of them or is the last. `looping` stands for a loop that goes on.
-- The rounds of `IPOptBuilder._parse` are the bytes and one more: a round moves forward or repeats.
--
-- Not modelled: locks, conditions and threads (a method or handler is one step), log messages, the
-- event queue, the heap of timers and its loop, the reading of the tap device, the aliasing of
-- `memoryview`s, `setsockopt`, what stands behind the exceptions of `IPFragBuilder` and of the ICMP
-- handlers, and the examples.
pub mod Common
pub mod Buffer
pub mod Tcp
pub mod Wire
pub mod Packet
pub mod Ip
pub mod Arp
pub mod Address
pub mod Socket
