-- ===== src/Lib.antt =====
-- An encrypting DPDK gateway, in C: packets of the LAN are encrypted and carried through a UDP
-- tunnel over the WAN; a control bridge shares the WAN wire with the key daemon; a byte cache
-- cuts TCP streams into chunks and keeps each of them once. This library models the parts of it
-- below and proves what they promise. Every definition stands for code of the repository; what
-- is not in the repository (DPDK, its hash table and its crypto devices, the C library) is an
-- argument or a record of operations and laws.
--
-- Prelude: names of the library, Boolean tests on numbers, list functions and their lemmas.
-- Mbuf: the interface of a packet buffer (bytes, headroom, adj, prepend, append, trim, load,
-- store), with Mbuf/Array, an implementation as three lists that shows the laws to be
-- consistent.
--
-- Tunnel (main (1).c: tunnel_encap, tunnel_decap, and the removal of the IV in
-- l2fwd_main_loop): headers as lists of bytes, calls as functions from a buffer to a status
-- with the buffer that is left. The checksum rte_ipv4_cksum is a parameter. Tunnel/Wire has the
-- wire format as one list, Tunnel/RoundTrip the theorems.
--
-- Bridge (ctrl_bridge (1).c): the static variables as a record, one function per function of
-- the file; what the devices answer is an argument. Bridge/RoundTrip connects both ends,
-- Bridge/Burst follows a whole burst.
--
-- Pool (MemPool.c, MemPool.h): the links of the units as two functions on addresses, the struct
-- as a record. Pool/Dll and Pool/Unlink are on doubly linked lists, Pool/Inv has the
-- well-formedness, Pool/Init and Pool/Ops the operations, Pool/Reach every history of calls.
--
-- Store (module2.c, module2.h): the index as a function on slots, the file as its bytes, the
-- hash table as an interface. Store/Inv says which list of chunks a store stands for,
-- Store/Find, Store/Insert and Store/Known have the operations, Store/Load the rebuild at a
-- start (its fuel is the length of the file plus one, and each round reads at least 41 bytes),
-- Store/Replay a restart after a rolled back insertion.
--
-- Chunker (module1.c, module1.h): a connection's state as a record, the outside parts as the
-- record Engine. Chunker/Inv has the invariant and the byte stream that a state stands for,
-- Chunker/Steps and Chunker/Room the steps of the inner loop, Chunker/Stream and Chunker/Input
-- the whole of module1_add_data, Chunker/Timer the other calls and every history of calls.
--
-- KeyRot (main (1).c: kr_install_cb, kr_retire_cb, and the key steps of the drain part of
-- l2fwd_main_loop): the shared variables and an lcore's devices as records, the session table
-- as an interface. KeyRot/Share follows a key from one lcore to the other.
--
-- Padding (main (1).c: l2fwd_simple_crypto_enqueue, l2fwd_simple_forward): the parameters and
-- the crypto operation as records. Padding/Enqueue has the padding of block ciphers,
-- Padding/RoundTrip its removal after decryption.
--
-- Queues (main (1).c: l2fwd_send_burst, l2fwd_send_packet, l2fwd_crypto_send_burst,
-- l2fwd_crypto_enqueue and the drain): a burst buffer and its counters as a record; what a
-- device takes of a burst is an argument. Queues/Account has the books.
--
-- Memory: a packet buffer that is addressed by bytes. Checksum (app_thread (1).c:
-- verify_tcp_checksum, calculate_tcp_checksum): sums over such a buffer; the folding loop is a
-- recursion on Acc and needs no fuel. Checksum/Fold has the loop, Checksum/Sums the sums after
-- a write, Checksum/RoundTrip the headers that verify.
--
-- Firewall (app_thread (1).c: in_fwlookup_search, get_pkt_sched, tcp_qos_queue): the rule table
-- as a list, both scans of it as loops. Firewall/Search says what a scan finds, Firewall/Queue
-- has what is made of it, and Firewall/Queue/Agree compares both. Sites (app_thread (1).c:
-- find_tunnel_ip, inner_ip_is_fragment, is_rtp_hdr).
--
-- Plc (app_thread (1).c: fillheaders_send, check_tcp_compressible, check_tcp_decompressable,
-- check_tcp_decompressable_ip): the byte that marks a compressed payload. Plc/Lengths has the
-- length fields, Plc/RoundTrip both ends.
--
-- Arp (app_thread (1).c: selipmac, SendArpRequestPkt, SendArpReplyPkt, arptipmatch,
-- ProcessArpPkt, arptimercheck): frames over Memory, calls of what is not in the repository as
-- events. Arp/Exchange has two nodes.
--
-- Capability (main (1).c: check_type to check_capabilities): the answers of a device against
-- the options. The loop over the sizes has 2 ^ 16 rounds as its fuel, one for each value of its
-- counter, so a loop that uses them up never ends. Capability/Sizes has the loop,
-- Capability/Accepts what an accepted device can do.
--
-- Receive (main (1).c: the receive and dequeue loops of l2fwd_main_loop): calls that hand
-- buffers and operations on as events; the tables of sessions and fragments are an argument.
-- Receive/Uses follows the operation of a packet, Receive/WireIn follows a packet of the peer,
-- Receive/Dequeue has the dequeue loop.
--
-- Keyd (keyd.c and key_sender_server.c): the rounds in which keys get their epochs, with what
-- TLS, the sockets and the clock answer as a record.
--
-- Transmit (app_thread (1).c: app_send_burst, app_send_packets, app_tx_thread): the table of a
-- configuration and what the port has taken; how many buffers the device takes in each call is
-- a list of numbers, and a loop that has used them up is waiting. Transmit/Order has the order
-- of the packets.
--
-- RxThread (app_thread (1).c: app_rx_thread): the counters of a port, events for what is done
-- with buffers, and the reassembly of DPDK as an interface. RxThread/Frag has both fragment
-- blocks, RxThread/Dispatch the treatment of a packet, with its proofs in Leads, Owner,
-- Verified and Reassembled, RxThread/Loop the retrieval of bursts, RxThread/Timer the timers
-- and the loop over the connections, which runs the timer of Chunker for each of them. Packets
-- reach Arp, Checksum and Sites, and leave through Sender.
--
-- Sender (app_thread (1).c: l2fwd_simple_forward, send_schedule_pkt, send_etherpkt,
-- send_l2_rohcpkt): the rings of the ports with their statistics; Sender/Rohc ties the queue of
-- a compressed packet to Firewall. Mixed (app_thread (1).c: app_mixed_thread): Mixed/Ring has
-- the frames from the ring, Mixed/Summed their checksums, Mixed/Deque the frames from the
-- scheduler, Mixed/Round a pass, which ends in the transmission of Transmit; Transmit/Ends has
-- the calls that a device needs.
--
-- CommandLine (main (1).c: the parsers of options, l2fwd_crypto_default_options,
-- l2fwd_crypto_parse_args): CommandLine/Long has the long options as a table in the order of
-- the comparisons, CommandLine/Args the loop over the options, CommandLine/Bytes the keys.
--
-- Ports (main (1).c: initialize_ports): the loop over the ports, with Ports/Pairs on the pairs
-- that it builds. Cryptodevs (main (1).c: initialize_cryptodevs): both loops, over the options
-- of CommandLine and the checks of Capability; Cryptodevs/Enabled says what the first loop
-- does, Cryptodevs/Pools has the second.
--
-- Worker (app_thread (1).c: app_worker_thread): passes over the connections, over an interface
-- of the scheduler; Worker/Accounted has the theorem. Firewall/Queue/Listed ties the list of
-- TCP queues of tcp_tc_init to tcp_qos_queue.
--
-- Not modelled: the variants main_tunnel.c, main_tunnel_integrated.c, main_transport.c and the
-- second copies of files; of the TCP proxy app_thread (1).c what only prints or sets up other
-- tables, and the TCP stack, which is not in the repository; of the key daemon and the key
-- senders what is set-up of TLS and sockets; main and the printing of the application; hardware
-- designs and scripts.
pub mod Prelude
pub mod Mbuf
pub mod Arp
pub mod Bridge
pub mod Capability
pub mod Checksum
pub mod Chunker
pub mod CommandLine
pub mod Cryptodevs
pub mod Firewall
pub mod KeyRot
pub mod Keyd
pub mod Memory
pub mod Mixed
pub mod Padding
pub mod Plc
pub mod Pool
pub mod Ports
pub mod Queues
pub mod Receive
pub mod RxThread
pub mod Sender
pub mod Sites
pub mod Store
pub mod Transmit
pub mod Tunnel
pub mod Worker
