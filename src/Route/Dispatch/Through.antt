-- ===== src/Route/Dispatch/Through.antt =====
-- libCSP/trunk/src/csp_route.c: a packet at a connection, with its security check and
-- its transport.
use cubesat_space_protocol.Base.{
  ℕ, ◌≡◌, List, Option, none, some, Bool, true, false, if_cases, refl, sym, ap, subst, ◌∙◌,
}
use cubesat_space_protocol.Error.{Error, is_none}
use cubesat_space_protocol.Header.{Packet, PacketId, has, frdp, so_rdpreq}
use cubesat_space_protocol.Queue.Fifo.{Fifo, push}
use cubesat_space_protocol.Security.{Checked, passed, rejected, overrun}
use cubesat_space_protocol.Conn.{Conn, Effect, enqueue_packet}
use cubesat_space_protocol.Conn.Pool.{close}
use cubesat_space_protocol.Route.Dispatch.{
  Node, Place, discarded, astray, at_conn, at_transport, Routed, checked, close_full, told_socket,
  udp_queued, udp_stored, udp_new_packet, to_module, at_checked,
}

-- The packet passes the security check for these options.
abbrev pub Passes : Node → ℕ → Packet → ℕ → Type 0
Passes n i p opts = (memory : List ℕ) × ((m : ℕ) × ((checked n i opts p).0 ≡ passed memory m))

-- What becomes of a packet at connection `k` with the options `opts`.
pub data Through (n : Node) (i : ℕ) (p : Packet) (k opts : ℕ) : Place → Type 0 where
  turned_down : Through n i p k opts discarded
  strayed : Through n i p k opts astray
  stored :
      Passes n i p opts
      → has p.id.flags frdp ≡ false
      → has opts so_rdpreq ≡ false
      → Through n i p k opts (at_conn k)
  carried : Passes n i p opts → has p.id.flags frdp ≡ true → Through n i p k opts (at_transport k)

close_full-place :
    (n : Node) (k : ℕ) (r : Error × Option Conn × List Effect) → (close_full n k r).1 ≡ at_conn k
unfolding close_full
close_full-place n k (e, none, es) = refl
close_full-place n k (e, some c, es) = refl

told_socket-place :
    (n : Node) (k : ℕ) (c : Conn) (q : ℕ) (r : Bool × Fifo ℕ)
    → (told_socket n k c q r).1 ≡ at_conn k
unfolding told_socket
told_socket-place n k c q (true, f) = refl
told_socket-place n k c q (false, f) = close_full-place n k (close n.lockable n.now (some c))

udp_queued-place : (n : Node) (k : ℕ) (c : Conn) (s : Option ℕ) → (udp_queued n k c s).1 ≡ at_conn k
unfolding udp_queued
udp_queued-place n k c none = refl
udp_queued-place n k c (some q) = told_socket-place n k c q (push (n.queues q) k)

-- What holds of a packet that is dropped and of one that is stored holds behind the datagram transport.
udp_stored-place :
    (P : Place → Type 0) (n : Node) (k : ℕ) (r : Error × Option Conn)
    → P discarded
    → P (at_conn k)
    → P (udp_stored n k r).1
unfolding udp_stored
udp_stored-place P n k (e, none) h g = h
udp_stored-place P n k (e, some c) h g =
    if_cases (λ (r : Routed). P r.1) (is_none e) _ _
      (λ _. subst P (sym (udp_queued-place n k c c.rx_socket)) g) (λ _. h)

to_module-Through :
    (n v : Node) (i k : ℕ) (c : Conn) (a : ℕ) (p q : Packet)
    → q.id ≡ p.id
    → Passes n i p c.conn_opts
    → Through n i p k c.conn_opts (to_module v i k c a q).1
unfolding to_module udp_new_packet
to_module-Through n v i k c a p q same pass =
    let P = λ (r : Routed). Through n i p k c.conn_opts r.1 in
    if_cases P (has q.id.flags frdp) _ _
      (λ t. carried pass (ap (λ (id : PacketId). has id.flags frdp) (sym same) ∙ t))
      (λ t.
        if_cases P (has c.conn_opts so_rdpreq) _ _ (λ _. turned_down)
          (λ u.
            udp_stored-place (Through n i p k c.conn_opts) v k
              (enqueue_packet (some c) (some a) q.id.pri) turned_down
              (stored pass (ap (λ (id : PacketId). has id.flags frdp) (sym same) ∙ t) u)))

pub at_checked-Through :
    (n v : Node) (i k : ℕ) (c : Conn) (a : ℕ) (p : Packet) (r : Checked)
    → (checked n i c.conn_opts p).0 ≡ r
    → Through n i p k c.conn_opts (at_checked v i k c a p r).1
unfolding at_checked
at_checked-Through n v i k c a p (passed memory m) e =
    to_module-Through n v i k c a p (record p { contents = memory; length = m }) refl
      (memory, (m, e))
at_checked-Through n v i k c a p (rejected e') e = turned_down
at_checked-Through n v i k c a p overrun e = strayed
