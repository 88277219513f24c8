-- ===== src/Transport/Receive.antt =====
-- libCSP/trunk/src/transport/csp_rdp.c: data for the user, and the queue of early packets.
pub mod Flush
pub mod Frame
use cubesat_space_protocol.Base.{
  ℕ, zero, suc, ◌+◌, ◌%◌, ◌^◌, List, [], ◌∷◌, Option, none, some, Bool, true, false, length, ◌==◌,
  if◌then◌else◌,
}
use cubesat_space_protocol.Header.{Packet}
use cubesat_space_protocol.Error.{Error, is_none}
use cubesat_space_protocol.Queue.Fifo.{Fifo, push, pop}
use cubesat_space_protocol.Conn.{Conn, enqueue_packet}
use cubesat_space_protocol.Transport.{Endpoint, set_rdp, write, act, handed}
use cubesat_space_protocol.Transport.Head.{header_ref, header_remove, RdpHeader}
use cubesat_space_protocol.Transport.Control.{requeue}

-- `csp_conn_enqueue_packet` on the connection: whether it succeeds.
abbrev enqueued : Endpoint → Error × Option Conn → Bool × Endpoint
enqueued w (e, none) = (is_none e, w)
enqueued w (e, some c) = (is_none e, record w { conn = c })

-- `csp_rdp_receive_data` behind the passing of the connection to its socket.
deliver : Endpoint → ℕ → Bool × Endpoint
deliver w a =
    let w' : Endpoint = write w a (header_remove (w.mem a)) in
    enqueued w' (enqueue_packet (some w'.conn) (some a) (w'.mem a).id.pri)

-- The connection goes to its socket, where there is room.
handed_on : Bool → Endpoint → ℕ → Bool × Endpoint
unfolding deliver
handed_on false w a = (false, w)
handed_on true w a = deliver (act (record w { conn = record w.conn { rx_socket = none } }) handed) a

receive_on : Option ℕ → Endpoint → ℕ → Bool × Endpoint
unfolding deliver handed_on
receive_on none w a = deliver w a
receive_on (some s) w a = handed_on w.socket_room w a

-- `csp_rdp_receive_data`: whether it returns 1.
unfoldable pub receive_data : Endpoint → ℕ → Bool × Endpoint
unfolding receive_on
receive_data w a = receive_on w.conn.rx_socket w a

-- The sequence number of a packet in the queue.
abbrev pub number_of : Endpoint → ℕ → ℕ
number_of w a = (header_ref (w.mem a)).seq_nr

abbrev pub next_number : Endpoint → ℕ
next_number w = (w.conn.rdp.rcv_cur + 1) % 2 ^ 16

-- What `csp_rdp_rx_queue_flush` does with the packet that is due: `rcv_cur` moves on whether or not
-- the packet could be delivered.
unfoldable pub deliver_due : Endpoint → ℕ → Endpoint
unfolding receive_data
deliver_due w a =
    let w' : Endpoint = (receive_data w a).1 in
    set_rdp w' (record w'.conn.rdp { rcv_cur = (w'.conn.rdp.rcv_cur + 1) % 2 ^ 16 })

abbrev pub set_rx_queue : Endpoint → Fifo ℕ → Endpoint
set_rx_queue w q = set_rdp w (record w.conn.rdp { rx_queue = q })

-- The loop body of `csp_rdp_rx_queue_flush` on what was dequeued: is the loop entered again from the
-- front? `rest` is the rest of the loop.
pass_step : (Endpoint → Bool × Endpoint) → Endpoint → Option (ℕ × Fifo ℕ) → Bool × Endpoint
unfolding requeue
pass_step rest w none = (false, w)
pass_step rest w (some (a, q)) =
    if number_of w a == next_number w
    then (true, deliver_due (set_rx_queue w q) a)
    else rest (set_rx_queue w (requeue q a))

-- One round of the loop.
unfoldable pub flush_pass : ℕ → Endpoint → Bool × Endpoint
unfolding pass_step
flush_pass zero w = (false, w)
flush_pass (suc n) w = pass_step (flush_pass n) w (pop w.conn.rdp.rx_queue)

flush_again : (Endpoint → Endpoint) → Bool × Endpoint → Endpoint
flush_again rest (false, w) = w
flush_again rest (true, w) = rest w

-- `csp_rdp_rx_queue_flush`, on fuel for the rounds.
unfoldable pub flush_rounds : ℕ → Endpoint → Endpoint
unfolding flush_again
flush_rounds zero w = w
flush_rounds (suc fuel) w =
    flush_again (flush_rounds fuel) (flush_pass (length w.conn.rdp.rx_queue.content) w)

pub rx_queue_flush : Endpoint → Endpoint
unfolding flush_rounds
rx_queue_flush w = flush_rounds (suc (length w.conn.rdp.rx_queue.content)) w

-- The loop body of `csp_rdp_rx_queue_exists`.
exists_step : (Endpoint → Bool × Endpoint) → ℕ → Endpoint → Option (ℕ × Fifo ℕ) → Bool × Endpoint
unfolding requeue
exists_step rest seq_nr w none = (false, w)
exists_step rest seq_nr w (some (a, q)) =
    let w' : Endpoint = set_rx_queue w (requeue q a) in
    if number_of w a == seq_nr then (true, w') else rest w'

exists_from : ℕ → ℕ → Endpoint → Bool × Endpoint
unfolding exists_step
exists_from zero seq_nr w = (false, w)
exists_from (suc n) seq_nr w = exists_step (exists_from n seq_nr) seq_nr w (pop w.conn.rdp.rx_queue)

-- `csp_rdp_rx_queue_exists`
unfoldable pub rx_queue_exists : Endpoint → ℕ → Bool × Endpoint
unfolding exists_from
rx_queue_exists w seq_nr = exists_from (length w.conn.rdp.rx_queue.content) seq_nr w

add_new : ℕ → Bool × Endpoint → Bool × Endpoint
add_new a (true, w) = (false, w)
add_new a (false, w) = let (there, q) = push w.conn.rdp.rx_queue a in (there, set_rx_queue w q)

-- `csp_rdp_rx_queue_add`: is the packet in the queue? It returns 0 where the number is there, and
-- CSP_QUEUE_FULL, which is 0 as well, where there is no room.
unfoldable pub rx_queue_add : Endpoint → ℕ → ℕ → Bool × Endpoint
unfolding rx_queue_exists add_new
rx_queue_add w a seq_nr = add_new a (rx_queue_exists w seq_nr)
