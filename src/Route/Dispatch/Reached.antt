-- ===== src/Route/Dispatch/Reached.antt =====
-- libCSP/trunk/src/csp_route.c: which packets reach an application.
use cubesat_space_protocol.Base.{
  ℕ, zero, suc, ◌≡◌, List, [], ◌∷◌, Option, none, some, get_elem?, get_or, Bool, true, false, ◌&&◌,
  not, if_cases, refl, sym, ap, subst,
}
use mathlib.Core.Option.{some-injective, none-ne-some}
use cubesat_space_protocol.Header.{Packet, ext, conn_mask, has, so_conn_less}
use cubesat_space_protocol.Queue.Fifo.{Fifo, push}
use cubesat_space_protocol.Port.{get_socket}
use cubesat_space_protocol.Security.{Errors, Checked, passed, rejected, overrun}
use cubesat_space_protocol.Conn.{Conn, Effect}
use cubesat_space_protocol.Conn.Pool.{Connections, find, new, update}
use cubesat_space_protocol.Route.{no_route, route_if}
use cubesat_space_protocol.Route.Dispatch.Through.{Passes, Through, at_checked-Through}
use cubesat_space_protocol.Route.Dispatch.{
  Node, Place, discarded, sent_on, astray, at_socket, Routed, same_interface, forward_by, checked,
  set_errors, enqueued_at, at_connless, at_connection, answer_id, with_effects, created, found_conn,
  conn_less, connless_at, for_me, is_mine, route_packet,
}

-- The options that a packet is held to at a connection: those of the connection that it belongs to
-- or, for the first packet of one, those of the socket.
pub data Admitted (n : Node) (p : Packet) (k : ℕ) : ℕ → Type 0 where
  of_conn :
      (c : Conn)
      → find n.pool.arr_conn (ext p.id) conn_mask ≡ some k
      → get_elem? n.pool.arr_conn k ≡ some c
      → Admitted n p k c.conn_opts
  of_socket :
      (s : ℕ)
      → find n.pool.arr_conn (ext p.id) conn_mask ≡ none
      → get_socket n.ports p.id.dport ≡ some s
      → (new n.lockable n.now n.pool p.id (answer_id n.my_address p.id)).0 ≡ some k
      → Admitted n p k (n.sockets s).opts

-- How a packet from interface `i` can get where it is.
pub data Reached (n : Node) (i : ℕ) (p : Packet) : Place → Type 0 where
  thrown_away : Reached n i p discarded
  misread : Reached n i p astray
  forwarded : is_mine n p.id ≡ false → n.forwards ≡ true → Reached n i p sent_on
  received :
      (s q : ℕ)
      → is_mine n p.id ≡ true
      → get_socket n.ports p.id.dport ≡ some s
      → has (n.sockets s).opts so_conn_less ≡ true
      → (n.sockets s).queue ≡ some q
      → Passes n i p (n.sockets s).opts
      → Reached n i p (at_socket q)
  connected :
      {place : Place} (k opts : ℕ)
      → is_mine n p.id ≡ true
      → Admitted n p k opts
      → Through n i p k opts place
      → Reached n i p place

forward_by-Reached :
    (n : Node) (i : ℕ) (p : Packet) (r : Option ℕ)
    → is_mine n p.id ≡ false
    → Reached n i p (forward_by n i r).1
unfolding forward_by
forward_by-Reached n i p none h = thrown_away
forward_by-Reached n i p (some r) h =
    let P = λ (r : Routed). Reached n i p r.1 in
    if_cases P
      (same_interface (get_or n.routing.routes r no_route).interface i
        && not (n.split_horizon_off i))
      _ _ (λ _. thrown_away)
      (λ _. if_cases P n.forwards _ _ (λ t. forwarded h t) (λ _. thrown_away))

enqueued_at-Reached :
    (n v : Node) (i : ℕ) (p : Packet) (q : ℕ) (r : Bool × Fifo ℕ)
    → Reached n i p (at_socket q)
    → Reached n i p (enqueued_at v q r).1
unfolding enqueued_at
enqueued_at-Reached n v i p q (true, f) h = h
enqueued_at-Reached n v i p q (false, f) h = thrown_away

at_connless-Reached :
    (n v : Node) (i a : ℕ) (p : Packet) (q : Option ℕ) (r : Checked)
    → ((q' memory_length : ℕ) (memory : List ℕ)
        → q ≡ some q'
        → r ≡ passed memory memory_length
        → Reached n i p (at_socket q'))
    → Reached n i p (at_connless v a q r).1
unfolding at_connless
at_connless-Reached n v i a p none (passed memory m) h = misread
at_connless-Reached n v i a p (some q) (passed memory m) h =
    enqueued_at-Reached n v i p q (push (v.queues q) a) (h q m memory refl refl)
at_connless-Reached n v i a p none (rejected e) h = thrown_away
at_connless-Reached n v i a p none overrun h = misread
at_connless-Reached n v i a p (some q) (rejected e) h = thrown_away
at_connless-Reached n v i a p (some q) overrun h = misread

connless_at-Reached :
    (n : Node) (i : ℕ) (o : Option ℕ) (a : ℕ) (p : Packet)
    → is_mine n p.id ≡ true
    → get_socket n.ports p.id.dport ≡ o
    → conn_less n o ≡ true
    → Reached n i p (connless_at n i o a p).1
unfolding connless_at
connless_at-Reached n i none a p mine got less = thrown_away
connless_at-Reached n i (some s) a p mine got less =
    let r = checked n i (n.sockets s).opts p in
    at_connless-Reached n (set_errors n i (r.1)) i a p (n.sockets s).queue (r.0)
      (λ q m memory has_q pass. received s q mine got less has_q (memory, (m, pass)))

at_connection-Reached :
    (n v : Node) (i k : ℕ) (o : Option Conn) (a : ℕ) (p : Packet)
    → is_mine n p.id ≡ true
    → ((c : Conn)
        → o ≡ some c
        → (Admitted n p k c.conn_opts) × (checked v i c.conn_opts p ≡ checked n i c.conn_opts p))
    → Reached n i p (at_connection v i k o a p).1
unfolding at_connection
at_connection-Reached n v i k none a p mine h = thrown_away
at_connection-Reached n v i k (some c) a p mine h =
    let (admitted, same) = h c refl in
    connected k c.conn_opts mine admitted
      (at_checked-Through n _ i k c a p _ (ap (λ (r : Checked × Errors). r.0) (sym same)))

with_effects-place : (es : List Effect) (r : Routed) → (with_effects es r).1 ≡ r.1
unfolding with_effects
with_effects-place es (n, place, es') = refl

get-update :
    (cs : List Conn) (k : ℕ) (f : Conn → Conn) (c : Conn)
    → get_elem? (update cs k f) k ≡ some c
    → (c' : Conn) × (c ≡ f c')
get-update [] k f c h = absurd (none-ne-some _ h)
get-update (c' ∷ cs) zero f c h = (c', sym (some-injective _ _ h))
get-update (c' ∷ cs) (suc k) f c h = get-update cs k f c h

created-Reached :
    (n : Node) (i s a : ℕ) (p : Packet) (r : Option ℕ × Connections × List Effect)
    → is_mine n p.id ≡ true
    → find n.pool.arr_conn (ext p.id) conn_mask ≡ none
    → get_socket n.ports p.id.dport ≡ some s
    → new n.lockable n.now n.pool p.id (answer_id n.my_address p.id) ≡ r
    → Reached n i p (created n i (n.sockets s) a p r).1
unfolding created
created-Reached n i s a p (none, pool, es) mine lost got e = thrown_away
created-Reached n i s a p (some k, pool, es) mine lost got e =
    let accept =
      λ (c : Conn). record c { rx_socket = (n.sockets s).queue; conn_opts = (n.sockets s).opts } in
    let pool' : Connections = record pool { arr_conn = update pool.arr_conn k accept } in
    let v : Node = record n { pool = pool' } in
    let o = get_elem? pool'.arr_conn k in
    let fresh = of_socket s lost got (ap (λ (r : Option ℕ × Connections × List Effect). r.0) e) in
    subst (Reached n i p) (sym (with_effects-place es (at_connection v i k o a p))) (
      at_connection-Reached n v i k o a p mine (λ c h.
        let (c', is_c) = get-update pool.arr_conn k accept c h in
        (subst (Admitted n p k) (ap (λ (c : Conn). c.conn_opts) (sym is_c)) fresh, refl)))

found_conn-Reached :
    (n : Node) (i : ℕ) (o : Option ℕ) (a : ℕ) (p : Packet) (r : Option ℕ)
    → is_mine n p.id ≡ true
    → get_socket n.ports p.id.dport ≡ o
    → find n.pool.arr_conn (ext p.id) conn_mask ≡ r
    → Reached n i p (found_conn n i o a p r).1
unfolding found_conn
found_conn-Reached n i o a p (some k) mine got found =
    at_connection-Reached n n i k (get_elem? n.pool.arr_conn k) a p mine
      (λ c h. (of_conn c found h, refl))
found_conn-Reached n i none a p none mine got found = thrown_away
found_conn-Reached n i (some s) a p none mine got found =
    created-Reached n i s a p (new n.lockable n.now n.pool p.id (answer_id n.my_address p.id)) mine
      found got refl

for_me-Reached :
    (n : Node) (i a : ℕ) (p : Packet)
    → is_mine n p.id ≡ true
    → Reached n i p (for_me n i (get_socket n.ports p.id.dport) a p).1
unfolding for_me
for_me-Reached n i a p mine =
    let o = get_socket n.ports p.id.dport in
    if_cases (λ (r : Routed). Reached n i p r.1) (conn_less n o) _ _
      (λ less. connless_at-Reached n i o a p mine refl less)
      (λ _. found_conn-Reached n i o a p (find n.pool.arr_conn (ext p.id) conn_mask) mine refl refl)

-- A packet that the router takes reaches the queue of a socket only if it is for this node or for all, the socket that its port belongs to needs no connection, and the packet passes the security check for the socket's options. It reaches a connection, or the transport of one, only if it is for this node or for all, passes the check for the options of the connection that it belongs to, or of the socket if it is the first of a new one, and has a transport header in the one case, and neither has nor needs one in the other. It is sent on only if it is for another node. Otherwise it is given back, or memory outside it is read.
pub route_packet-Reached :
    (n : Node) (i a : ℕ) (p : Packet) → Reached n i p (route_packet n i a p).1
unfolding route_packet
route_packet-Reached n i a p =
    if_cases (λ (r : Routed). Reached n i p r.1) (is_mine n p.id) _ _
      (λ mine. for_me-Reached n i a p mine)
      (λ other. forward_by-Reached n i p (route_if n.routing p.id.dst) other)
