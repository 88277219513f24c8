-- ===== src/Lib.antt =====
-- Cubesat Space Protocol: the network and transport library of libCSP/trunk.
--
-- The program. A node sends and receives packets that carry a 32-bit identifier (priority, source,
-- destination, ports, flags). Packets live in a pool of equal elements. An interface hands what it
-- receives to the router's input queues; the router task takes the most urgent packet, sends it on
-- or delivers it to a socket or a connection; applications open, use and close connections.
--
-- The files, each with the code that it models (paths from the repository's root):
--   Base       helpers: tests on numbers, lists by native numbers, bits, walking round an array
--   Header     libCSP/trunk/include/csp/csp.h: csp_id_t, its masks, flags and options
--   Error      libCSP/trunk/include/csp/csp_error.h
--   Endian     libCSP/trunk/src/csp_endian.c: the conversions of 16, 32 and 64 bits
--   Buffer     libCSP/trunk/src/csp_buffer.c: the packet pool
--   Crc32      libCSP/trunk/src/csp_crc32.c
--   Xtea       libCSP/trunk/src/crypto/csp_xtea.c
--   Sha1       libCSP/trunk/src/crypto/csp_sha1.c
--   Hmac       libCSP/trunk/src/crypto/csp_hmac.c
--   Port       libCSP/trunk/src/csp_port.c: binding sockets to ports
--   Queue      libCSP/trunk/src/arch/posix/pthread_queue.c; Queue/Fifo is what it promises
--   Conn       libCSP/trunk/src/csp_conn.h and csp_conn.c, with csp_rdp_close and csp_rdp_flush_all of
--              libCSP/trunk/src/transport/csp_rdp.c
--   Can        libCSP/trunk/src/interfaces/csp_if_can.c: packets cut into CAN frames and put together
--   Transport  libCSP/trunk/src/transport/csp_rdp.c: the reliable transport
--   Route      libCSP/trunk/src/csp_route.c: the routing table, the router's input queues, and in
--              Route/Dispatch the router's work on a packet, with libCSP/trunk/src/transport/csp_udp.c;
--              Route/Promisc is the promiscuous mode
--   Security   what csp_send_direct (libCSP/trunk/src/csp_io.c) adds to a packet, and
--              csp_route_security_check (libCSP/trunk/src/csp_route.c); Security/Nodes is about two
--              nodes that share their keys, each with a stack of its own
--   Io         libCSP/trunk/src/csp_io.c: Io itself and Io/Direct are csp_send_direct, with the
--              loopback interface of libCSP/trunk/src/interfaces/csp_if_lo.c; Io/Read is csp_read,
--              Io/Calls csp_send and csp_sendto, Io/Transactions the transactions, Io/Sockets
--              csp_socket, csp_accept and csp_recvfrom, Io/Start csp_init with csp_conn_init, and
--              Io/Timeouts csp_conn_check_timeouts of libCSP/trunk/src/csp_conn.c
--   Services   libCSP/trunk/src/csp_service_handler.c, and in Services/Client the requests of
--              libCSP/trunk/src/csp_services.c
--
-- How code and model correspond. A C function is a function of the same name, less the prefix csp_;
-- a static variable is a field of the state that the function takes and returns; a pointer is an
-- Option, whose value is an address, an index or the record itself; NULL is `none`. Outcomes of
-- calls that the model does not follow (malloc, locks, waits, the clock) are arguments. What a call
-- gives back to the pool or sends is its list of effects. Machine words are natural numbers with the
-- wrap-around written out; an access outside an array is a result of its own where the source can
-- get there. Connections and the router use their queues through Queue/Fifo, which the ring of
-- Queue implements (Queue/Refine).
--
-- In Transport a packet is an address in a memory, since the queues of a connection, the interface
-- and the pool pass the same packet round and change its header in place. What csp_buffer_get,
-- csp_buffer_clone and csp_send_direct answer next is part of the endpoint's state, and so is what
-- has been done to the outside. Where csp_rdp_connect and csp_rdp_send wait, what the other tasks
-- make of the endpoint until then is a function that they are given. Io builds on this: its station
-- holds such an endpoint, with the routing table, the interfaces, the router's input, the keys and
-- the promiscuous mode, and csp_send_direct is followed there down to the driver, of which the model
-- is told whether it takes the packet. csp_read waits as csp_rdp_connect does.
--
-- Configuration: libCSP/trunk/include/csp/csp_config.h, with RDP, QoS, HMAC, XTEA and CRC32 compiled
-- in and the identifier of CSP 1.0. Array lengths that the configuration fixes (connections, pool
-- elements) stay variables with the bounds that a theorem names.
--
-- Fuel. The search of Buffer has as many rounds as there are elements, and that of Conn/Pool as
-- many as there are connections: each round is one step nearer to the index that ends the loop, so
-- the rounds are enough. The search for a port in Conn/Connect has its fuel as an argument:
-- 48 rounds pass all ephemeral ports, and the one case that no fuel is enough for is stated. The
-- loop of SHA1 has a round for each byte, of which each round takes one at least. The flush of the
-- transport's receive queue starts again after each packet that it takes out, so one round more than
-- there are packets is enough. The frames of a packet over CAN, in Can/Transfer, have as much fuel
-- as there are bytes: each frame takes one at least.
--
-- Io/Start follows a csp_queue_create that fails; elsewhere a connection has all its queues.
--
-- Not modelled: what the router task does in one round as a whole (its steps are modelled one by
-- one, without the input hook, which the source calls with a packet that is not yet set); the CAN
-- drivers and the debug output, which are registers, sockets and printing; csp_ps and
-- csp_ping_noreply, which print; and the glue to operating systems. The calls that
-- csp_rdp_send_cmp makes of csp_send_direct are answered by the endpoint and not followed. The reliable
-- transport is that without CSP_RDP_COMP. The earlier release under
-- libCSP/tags/csp-0.9 is this code at another version.
pub mod Base
pub mod Header
pub mod Error
pub mod Endian
pub mod Buffer
pub mod Crc32
pub mod Xtea
pub mod Sha1
pub mod Hmac
pub mod Security
pub mod Port
pub mod Queue
pub mod Conn
pub mod Route
pub mod Can
pub mod Transport
pub mod Io
pub mod Services
