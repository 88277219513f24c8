-- ===== src/Io/Read.antt =====
-- libCSP/trunk/src/csp_io.c: `csp_read`, with CSP_USE_QOS at 1: the most urgent packet of a connection.
pub mod Urgent
use cubesat_space_protocol.Base.{
  ℕ, List, [], ◌∷◌, Option, none, some, Bool, true, false, if◌then◌else◌,
}
use cubesat_space_protocol.Header.{has, frdp}
use cubesat_space_protocol.Queue.Fifo.{Fifo, pop}
use cubesat_space_protocol.Conn.{Conn, is_closed}
use cubesat_space_protocol.Transport.{Endpoint}
use cubesat_space_protocol.Transport.Acks.{check_ack}
use cubesat_space_protocol.Io.{Station, set_endpoint}

abbrev pub set_conn : Station → Conn → Station
set_conn s c = set_endpoint s (record s.endpoint { conn = c })

-- The loop of `csp_read` over the queues: what it dequeues, and the queues behind it.
pub first_packet : List (Fifo ℕ) → Option ℕ × List (Fifo ℕ)
first_packet [] = (none, [])
first_packet (q ∷ qs) =
    let (packet, qs') = first_packet qs in
    elim (pop q) [ some (x, q') ↦ (some x, q' ∷ qs) | none ↦ (packet, q ∷ qs') ]

-- The packet read could trigger an acknowledgement.
with_ack : Station → Station
with_ack s =
    if has s.endpoint.conn.idin.flags frdp then set_endpoint s (check_ack s.endpoint) else s

read_queues : Station → Fifo ℕ → Option ℕ × List (Fifo ℕ) → Option ℕ × Station
unfolding with_ack
read_queues s events (packet, queues) =
    let c : Conn = record s.endpoint.conn { rx_event = events; rx_queue = queues } in
    (packet, with_ack (set_conn s c))

read_event : Station → Option (ℕ × Fifo ℕ) → Option ℕ × Station
unfolding read_queues first_packet
read_event s none = (none, s)
read_event s (some (event, events)) = read_queues s events (first_packet s.endpoint.conn.rx_queue)

-- `csp_read`; `wait` is what the other tasks make of the station until the wait for the event ends.
unfoldable pub read : (Station → Station) → Station → Option Conn → Option ℕ × Station
unfolding read_event
read wait s none = (none, s)
read wait s (some c) =
    let s' = wait (set_conn s c) in
    if is_closed c.state
    then (none, set_conn s c)
    else read_event s' (pop s'.endpoint.conn.rx_event)
