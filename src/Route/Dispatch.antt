-- ===== src/Route/Dispatch.antt =====
-- libCSP/trunk/src/csp_route.c: what `vTaskCSPRouter` does with a packet that it has taken from its
-- queues; and libCSP/trunk/src/transport/csp_udp.c. The handles of sockets, queues and interfaces are
-- numbers. The reliable transport, promiscuous mode and the input hook are not followed here.
pub mod Through
pub mod Reached
use cubesat_space_protocol.Base.{
  ℕ, ◌+◌, ◌%◌, ◌^◌, List, [], ◌∷◌, ◌++◌, Option, none, some, get_elem?, get_or, Bool, true, false,
  ◌==◌, ◌&&◌, ◌||◌, not, if◌then◌else◌,
}
use cubesat_space_protocol.Error.{Error, is_none}
use cubesat_space_protocol.Header.{
  Packet, PacketId, ext, broadcast_addr, conn_mask, has, frdp, so_conn_less, so_rdpreq,
}
use cubesat_space_protocol.Queue.Fifo.{Fifo, push}
use cubesat_space_protocol.Port.{Port, Socket, get_socket}
use cubesat_space_protocol.Security.{
  Crypto, Errors, Checked, passed, rejected, overrun, security_check,
}
use cubesat_space_protocol.Conn.{Conn, Effect, enqueue_packet}
use cubesat_space_protocol.Conn.Pool.{Connections, find, new, close, update}
use cubesat_space_protocol.Route.{Routing, Route, no_route, route_if}

-- What the router works on: the queues of sockets hold packets or, for those that listen,
-- connections; `forwards` is whether `csp_send_direct` will take a packet, `lockable` the outcome of
-- the locks.
pub record Node : Type 0 where
  pub my_address : ℕ
  pub routing : Routing
  pub split_horizon_off : ℕ → Bool
  pub ports : List Port
  pub sockets : ℕ → Socket
  pub queues : ℕ → Fifo ℕ
  pub pool : Connections
  pub errors : ℕ → Errors
  pub crypto : Crypto
  pub forwards : Bool
  pub lockable : Bool
  pub now : ℕ

-- Where a packet goes: back to the pool, on its way, to a socket, to a connection (whose close may
-- give it back at once), to the reliable transport of a connection, or to an access outside its
-- memory.
pub data Place : Type 0 where
  discarded sent_on astray : Place
  at_socket at_conn at_transport : ℕ → Place

-- The node, the packet's place, and what calls on connections have done besides.
abbrev pub Routed : Type 0
Routed = Node × Place × List Effect

abbrev pub same_interface : Option ℕ → ℕ → Bool
same_interface none i = false
same_interface (some j) i = j == i

-- A packet for another node, with the route that was found.
forward_by : Node → ℕ → Option ℕ → Routed
forward_by n i none = (n, discarded, [])
forward_by n i (some r) =
    if same_interface (get_or n.routing.routes r no_route).interface i
      && not (n.split_horizon_off i)
    then (n, discarded, [])
    else if n.forwards
    then (n, sent_on, [])
    else (n, discarded, [])

-- `csp_route_security_check` on a packet from interface `i`.
abbrev pub checked : Node → ℕ → ℕ → Packet → Checked × Errors
checked n i opts p = security_check n.crypto opts p.id.flags (n.errors i) p.contents p.length

abbrev pub set_errors : Node → ℕ → Errors → Node
set_errors n i e = record n { errors = λ j. if j == i then e else n.errors j }

abbrev pub set_queue : Node → ℕ → Fifo ℕ → Node
set_queue n q f = record n { queues = λ j. if j == q then f else n.queues j }

enqueued_at : Node → ℕ → Bool × Fifo ℕ → Routed
enqueued_at n q (true, f) = (set_queue n q f, at_socket q, [])
enqueued_at n q (false, f) = (n, discarded, [])

-- A socket without connections, behind the security check.
at_connless : Node → ℕ → Option ℕ → Checked → Routed
unfolding enqueued_at
at_connless n a none (passed memory m) = (n, astray, [])
at_connless n a (some q) (passed memory m) = enqueued_at n q (push (n.queues q) a)
at_connless n a q (rejected e) = (n, discarded, [])
at_connless n a q overrun = (n, astray, [])

abbrev pub set_conn : Node → ℕ → Conn → Node
set_conn n i c = record n { pool = record n.pool { arr_conn = update n.pool.arr_conn i (λ _. c) } }

close_full : Node → ℕ → Error × Option Conn × List Effect → Routed
close_full n i (e, none, es) = (n, at_conn i, es)
close_full n i (e, some c, es) = (set_conn n i c, at_conn i, es)

-- The connection is queued to its socket.
told_socket : Node → ℕ → Conn → ℕ → Bool × Fifo ℕ → Routed
unfolding close_full
told_socket n i c q (true, f) =
    (set_conn (set_queue n q f) i (record c { rx_socket = none }), at_conn i, [])
told_socket n i c q (false, f) = close_full n i (close n.lockable n.now (some c))

udp_queued : Node → ℕ → Conn → Option ℕ → Routed
unfolding told_socket
udp_queued n i c none = (set_conn n i c, at_conn i, [])
udp_queued n i c (some q) = told_socket n i c q (push (n.queues q) i)

udp_stored : Node → ℕ → Error × Option Conn → Routed
unfolding udp_queued
udp_stored n i (e, none) = (n, discarded, [])
udp_stored n i (e, some c) =
    if is_none e then udp_queued n i c c.rx_socket else (set_conn n i c, discarded, [])

-- `csp_udp_new_packet` for packet `a` and connection `i`.
unfoldable pub udp_new_packet : Node → ℕ → Conn → ℕ → Packet → Routed
unfolding udp_stored
udp_new_packet n i c a p = udp_stored n i (enqueue_packet (some c) (some a) p.id.pri)

-- The right transport module; a packet without a header where one is required is an error.
to_module : Node → ℕ → ℕ → Conn → ℕ → Packet → Routed
unfolding udp_new_packet
to_module n i k c a p =
    if has p.id.flags frdp
    then (n, at_transport k, [])
    else if has c.conn_opts so_rdpreq
    then (
      set_errors n i (record (n.errors i) { rx_error = ((n.errors i).rx_error + 1) % 2 ^ 32 }),
      discarded,
      [],
    )
    else udp_new_packet n k c a p

-- Behind the security check of connection `k`.
pub at_checked : Node → ℕ → ℕ → Conn → ℕ → Packet → Checked → Routed
unfolding to_module
at_checked n i k c a p (passed memory m) =
    to_module n i k c a (record p { contents = memory; length = m })
at_checked n i k c a p (rejected e) = (n, discarded, [])
at_checked n i k c a p overrun = (n, astray, [])

at_connection : Node → ℕ → ℕ → Option Conn → ℕ → Packet → Routed
unfolding at_checked
at_connection n i k none a p = (n, discarded, [])
at_connection n i k (some c) a p =
    let (r, e) = checked n i c.conn_opts p in at_checked (set_errors n i e) i k c a p r

-- The identifier of the answers.
abbrev pub answer_id : ℕ → PacketId → PacketId
answer_id my_address id = record {
  pri = id.pri;
  src = my_address;
  dst = id.src;
  dport = id.sport;
  sport = id.dport;
  flags = id.flags;
}

with_effects : List Effect → Routed → Routed
with_effects es (n, place, es') = (n, place, es ++ es')

-- A new connection, with the queue and the options of the socket.
created : Node → ℕ → Socket → ℕ → Packet → Option ℕ × Connections × List Effect → Routed
unfolding at_connection with_effects
created n i s a p (none, pool, es) = (record n { pool = pool }, discarded, es)
created n i s a p (some k, pool, es) =
    let accept = λ (c : Conn). record c { rx_socket = s.queue; conn_opts = s.opts } in
    let pool' : Connections = record pool { arr_conn = update pool.arr_conn k accept } in
    with_effects es (at_connection (record n { pool = pool' }) i k (get_elem? pool'.arr_conn k) a p)

found_conn : Node → ℕ → Option ℕ → ℕ → Packet → Option ℕ → Routed
unfolding at_connection created
found_conn n i socket a p (some k) = at_connection n i k (get_elem? n.pool.arr_conn k) a p
found_conn n i none a p none = (n, discarded, [])
found_conn n i (some s) a p none =
    created n i (n.sockets s) a p (new n.lockable n.now n.pool p.id (answer_id n.my_address p.id))

abbrev pub conn_less : Node → Option ℕ → Bool
conn_less n none = false
conn_less n (some s) = has (n.sockets s).opts so_conn_less

connless_at : Node → ℕ → Option ℕ → ℕ → Packet → Routed
unfolding at_connless
connless_at n i none a p = (n, discarded, [])
connless_at n i (some s) a p =
    let (r, e) = checked n i (n.sockets s).opts p in
    at_connless (set_errors n i e) a (n.sockets s).queue r

for_me : Node → ℕ → Option ℕ → ℕ → Packet → Routed
unfolding connless_at found_conn
for_me n i socket a p =
    if conn_less n socket
    then connless_at n i socket a p
    else found_conn n i socket a p (find n.pool.arr_conn (ext p.id) conn_mask)

abbrev pub is_mine : Node → PacketId → Bool
is_mine n id = (id.dst == n.my_address) || (id.dst == broadcast_addr)

-- The body of the loop for packet `a`, with the header and data `p`, from interface `i`.
unfoldable pub route_packet : Node → ℕ → ℕ → Packet → Routed
unfolding forward_by for_me
route_packet n i a p =
    if is_mine n p.id
    then for_me n i (get_socket n.ports p.id.dport) a p
    else forward_by n i (route_if n.routing p.id.dst)
