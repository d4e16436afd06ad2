-- ===== src/Lib.antt =====
-- A model of wgx, a WireGuard implementation in C over libuv and libsodium, and what makes it
-- correct.
--
-- The program. A device (src/device.c) holds an identity, its peers and an index table. A packet
-- from the TUN device is routed to a peer by the longest prefix of its destination
-- (src/allowedips.c), padded, encrypted under the peer's current keypair and sent; where the peer
-- has no good keypair the packet waits in the peer's ring and a handshake starts. The handshake
-- (src/noise.c) is Noise_IKpsk2 in two messages, each with two MACs (the cookies of src/noise.c),
-- and ends in a keypair that is filed in the index table under the receiver index of its
-- messages. A message that comes in is dispatched by its type; a transport message is found by
-- its index, checked against the replay window of its keypair (src/replay.c), decrypted, checked
-- against the routes of its peer and written to the TUN device. Timers (src/timers.c) retransmit,
-- keep alive, rekey and zero the keys.
--
-- On a device without a TUN interface, a TCP stack in user space (src/tcpstack.c) ends the
-- connections that come out of the tunnel and opens those that the SOCKS5 server and the
-- forwarding rules ask for. It keeps a list, hash buckets and a flush chain of connections, each
-- of which has a ring of bytes to send, a queue of segments that came out of order, a timer that
-- sends again and one that delays acknowledgements. Packets go out through the device, and come
-- in from `handle_transport`.
--
-- The files.
--   Base       helpers: Boolean tests, lists over native numbers, bits, bytes.
--   Replay     src/replay.c: `Filter` is `replay_filter_t`. Spec is the abstract window, Ring the
--              blocks of bits, Refine and Once the proofs.
--   AllowedIps src/allowedips.c: `Trie` is a subtree of `allowedip_node_t`. Spec is the longest
--              match over a list of rules; Bits, Prefix, Lookup, Insert, Invariant and Routing the proofs.
--   Tai64n     src/tai64n.c: timestamps as bytes.
--   Crypto     src/crypto.c: the wrappers of libsodium, HMAC and the KDFs.
--   Noise      src/noise.c and the structs of src/wg.h and src/noise.h. Types has the structs; Index the
--              index table; Mix the running hash and key; Cookie the MACs; Initiation and
--              Response `noise_create_*` and `noise_consume_*`; Session `noise_begin_session` and
--              the rotation of keypairs; Pair two devices that shake hands; Fixture the data of tests.
--   Peer       `wg_peer_t` of src/wg.h.
--   Timers     src/timers.c: each operation that starts or stops a timer.
--   Device     src/device.c: Send has `device_send_to_peer` and what it calls, Queue the ring of
--              waiting packets, Nonce the counters, Flush and Drain the loops that send what waits,
--              Receive `handle_transport` in TUN mode, and Callbacks those of src/timers.c; Counters and
--              Receive/RoundTrip hold proofs.
--   Tcp        src/tcpstack.c: Seq compares sequence numbers; Types has `tcp_conn_t`; Sendbuf is the
--              ring to send from; Checksum and Segment `send_segment`, and Segment/Parse what
--              `tcpstack_input` and `parse_syn_options` read; Reassembly is `tcp_ooo_queue`; Conn what a
--              connection sends and its end; Retransmit its timer; Input the state machine of
--              `tcpstack_input`, with `tcp_ooo_drain`; Stack the lists, buckets, listeners and
--              `tcpstack_connect`, and the dispatch of `tcpstack_input`. Delivery and Sending relate a
--              connection to the streams of bytes that it receives and sends, over any run of events;
--              Fixture has the data of tests.
--
-- Conventions. A function of the source has its name here, less the prefix of its file. A struct
-- is a record, an array a list, a pointer an address in a heap, `NULL` is `none`. State is passed
-- in and returned with the status. Machine words are native numbers with the wrap-around written
-- out. Randomness, the clock, allocations and the socket are arguments. Loops are structural, or
-- on fuel that is the loop's own bound: 4096 and 65536 rounds of `pick_random_index`, at most 128
-- blocks cleared by `replay_commit`; the flush loop runs for as many rounds as it is given. The
-- loops of `tcp_flush_pending` and `retransmit_cb` send a byte at least in each round, so that
-- the length of the buffer is enough; `tcp_ooo_drain` takes out a segment in each, so that the
-- length of the queue is; 18 doublings reach the full ring from one byte, and two folds the
-- checksum of a packet. What a connection does to the world is its `log`: packets, calls of the
-- application, and what concerns the lists of the stack, which `perform` of Tcp/Stack carries
-- out. Positions in a stream of bytes are natural numbers, of which a sequence number is the rest
-- modulo 2 ^ 32; theorems on streams bound them by 2 ^ 30.
--
-- Parameters. libsodium and the BLAKE2s hash are the record `Primitives` of Crypto. What the
-- theorems ask of it stands in the records `AeadLaw`, `XAeadLaw` and `DhLaw`: decryption gives
-- back what was encrypted, a ciphertext is longer by its tag, and X25519 with honest keys agrees
-- from both sides and is not zero. Fixture has primitives that keep these laws. The callbacks of
-- an application of the TCP stack are the record `App`; theorems say what they ask of them, as
-- that they leave the receiving side alone. The answers of `malloc` and the number of
-- `generate_isn` are arguments.
--
-- Not modelled. Locks, since each function runs alone on what it locks; logging; the event loop,
-- sockets and buffer pools, which are libuv's; the zeroing of memory that is not read again; the
-- dispatch of handshake messages in src/device.c; src/tcp_worker.c, src/forward.c, src/socks5.c,
-- src/conf.c, src/uapi.c, src/blake2s.c, src/tun.c and src/main.c; the ports to other systems and
-- their copies of libraries.
pub mod Base
pub mod Replay
pub mod AllowedIps
pub mod Tai64n
pub mod Crypto
pub mod Noise
pub mod Peer
pub mod Timers
pub mod Device
pub mod Tcp
