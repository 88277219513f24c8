-- ===== src/Transport/Acks.antt =====
-- libCSP/trunk/src/transport/csp_rdp.c: acknowledgements, sent and received.
pub mod Frame
pub mod Untouched
use cubesat_space_protocol.Base.{
  ℕ, zero, suc, ◌+◌, ◌-◌, ◌*◌, ◌/◌, ◌%◌, ◌^◌, List, [], ◌∷◌, Option, none, some, Bool, true, false,
  length, take, drop, word16, ltb, leb, ◌==◌, ◌&&◌, ◌||◌, not, if◌then◌else◌,
}
use cubesat_space_protocol.Header.{Packet}
use cubesat_space_protocol.Endian.{ntoh16}
use cubesat_space_protocol.Queue.Fifo.{Fifo, push, pop}
use cubesat_space_protocol.Conn.{Conn, Rdp, rx_queue_length}
use cubesat_space_protocol.Transport.{Endpoint, set_rdp, write, buffer_free, rdp_ack}
use cubesat_space_protocol.Transport.Sequence.{wrap_sub, seq_after, time_after}
use cubesat_space_protocol.Transport.Head.{header_ref, header_size, RdpHeader}
use cubesat_space_protocol.Transport.Control.{send_cmp, requeue}

abbrev set_tx_queue : Endpoint → Fifo ℕ → Endpoint
set_tx_queue w q = set_rdp w (record w.conn.rdp { tx_queue = q })

-- The number at place `j` of an extended acknowledgement.
abbrev pub eack_number : Packet → ℕ → ℕ
eack_number p j = ntoh16 false (word16 (take 2 (drop (2 * j) p.contents)))

-- A packet that the other side misses while it has a later one: it is made to time out, once in half
-- a timeout.
abbrev hastened : ℕ → ℕ → Packet → Packet
hastened now timeout p =
    if time_after now p.quarantine
    then record p {
      timestamp = wrap_sub 32 (wrap_sub 32 now timeout) 1;
      quarantine = (now + timeout / 2) % 2 ^ 32;
    }
    else p

-- The inner loop of `csp_rdp_flush_eack` from number `j` on, for a packet in memory: is its number
-- among them, and the packet.
eack_match : ℕ → ℕ → ℕ → ℕ → Packet → Packet → Bool × Packet
eack_match zero j now timeout eack p = (false, p)
eack_match (suc n) j now timeout eack p =
    let number = ntoh16 false (header_ref p).seq_nr in
    let p' = if ltb number (eack_number eack j) then hastened now timeout p else p in
    let rest = eack_match n (suc j) now timeout eack p' in
    (eack_number eack j == number || rest.0, rest.1)

eack_settled : Endpoint → ℕ → Fifo ℕ → Bool × Packet → Endpoint
eack_settled w a q (match, p) =
    let w' : Endpoint = write w a p in
    if match then buffer_free (set_tx_queue w' q) a else set_tx_queue w' (requeue q a)

eack_body : (Endpoint → Endpoint) → Packet → Endpoint → Option (ℕ × Fifo ℕ) → Endpoint
unfolding eack_match eack_settled
eack_body rest eack w none = w
eack_body rest eack w (some (a, q)) = rest (
    eack_settled w a q (
      eack_match ((eack.length - header_size) / 2) 0 w.now w.conn.rdp.packet_timeout eack
        (w.mem a)))

-- The outer loop of `csp_rdp_flush_eack`.
flush_eack_loop : ℕ → Packet → Endpoint → Endpoint
unfolding eack_body
flush_eack_loop zero eack w = w
flush_eack_loop (suc n) eack w = eack_body (flush_eack_loop n eack) eack w (pop w.conn.rdp.tx_queue)

-- `csp_rdp_flush_eack`, for a packet with a header
unfoldable pub flush_eack : Endpoint → Packet → Endpoint
unfolding flush_eack_loop
flush_eack w eack = flush_eack_loop (length w.conn.rdp.tx_queue.content) eack w

-- `csp_rdp_should_ack`
unfoldable pub should_ack : ℕ → Rdp → Bool
unfolding seq_after time_after
should_ack now r =
    if r.delayed_acks == 0
    then true
    else time_after now (r.ack_timestamp + r.ack_timeout)
      || seq_after r.rcv_cur (r.rcv_lsa + r.ack_delay_count)

-- Is there a queue without room for more than a window? A window of 2 ^ 31 is negative here.
abbrev scarce : ℕ → Fifo ℕ → Bool
scarce window q =
    if ltb window (2 ^ 31) then leb rx_queue_length (length q.content + window) else false

abbrev any_scarce : ℕ → List (Fifo ℕ) → Bool
any_scarce window [] = false
any_scarce window (q ∷ qs) = scarce window q || any_scarce window qs

-- `csp_rdp_check_ack`
unfoldable pub check_ack : Endpoint → Endpoint
check_ack w =
    if not (w.conn.rdp.rcv_lsa == w.conn.rdp.rcv_cur)
    then if not (any_scarce w.conn.rdp.window_size w.conn.rx_queue) && should_ack w.now w.conn.rdp
      then (send_cmp w none rdp_ack w.conn.rdp.snd_nxt w.conn.rdp.rcv_cur).1
      else w
    else w
