-- ===== src/Transport/Timeouts.antt =====
-- libCSP/trunk/src/transport/csp_rdp.c: `csp_rdp_check_timeouts`.
use cubesat_space_protocol.Base.{
  ℕ, zero, suc, ◌+◌, ◌*◌, ◌^◌, Option, none, some, Bool, true, false, length, bytes16, ltb, ◌&&◌,
  if◌then◌else◌,
}
use cubesat_space_protocol.Header.{Packet}
use cubesat_space_protocol.Endian.{hton16, ntoh16}
use cubesat_space_protocol.Queue.Fifo.{Fifo, pop}
use cubesat_space_protocol.Conn.{Rdp, RdpState, rdp_open, rdp_close_wait}
use cubesat_space_protocol.Transport.{
  Endpoint, set_rdp, write, buffer_free, buffer_clone, send_direct, close_conn, act, woken,
}
use cubesat_space_protocol.Transport.Sequence.{wrap_sub, seq_before, time_after}
use cubesat_space_protocol.Transport.Head.{header_ref, header_write}
use cubesat_space_protocol.Transport.Control.{requeue}
use cubesat_space_protocol.Transport.Acks.{check_ack}

abbrev is_open : RdpState → Bool
is_open rdp_open = true
is_open _ = false

abbrev is_close_wait : RdpState → Bool
is_close_wait rdp_close_wait = true
is_close_wait _ = false

resend_failed : ℕ → Bool × Endpoint → Endpoint
resend_failed copy (true, w) = w
resend_failed copy (false, w) = buffer_free w copy

-- The copy of a packet that timed out. Where there is none, `csp_send_direct` refuses NULL.
resend_clone : Option ℕ × Endpoint → Endpoint
unfolding resend_failed
resend_clone (none, w) = w
resend_clone (some copy, w) = resend_failed copy (send_direct w copy)

-- The body of the loop for packet `a` of the queue, which holds `q` besides.
abbrev pub retry_packet : Packet → ℕ → ℕ → Packet
retry_packet p rcv_cur now = record (header_write p 3 (bytes16 (hton16 false rcv_cur))) {
  timestamp = now;
}

abbrev pub tx_number : Endpoint → ℕ → ℕ
tx_number w a = ntoh16 false (header_ref (w.mem a)).seq_nr

resend : Endpoint → ℕ → Endpoint
unfolding resend_clone
resend w a =
    if time_after w.now ((w.mem a).timestamp + w.conn.rdp.packet_timeout)
    then resend_clone (buffer_clone (write w a (retry_packet (w.mem a) w.conn.rdp.rcv_cur w.now)) a)
    else w

timeout_step : Endpoint → ℕ → Fifo ℕ → Endpoint
unfolding resend
timeout_step w a q =
    if seq_before (tx_number w a) w.conn.rdp.snd_una
    then buffer_free (set_rdp w (record w.conn.rdp { tx_queue = q })) a
    else let w' = resend (set_rdp w (record w.conn.rdp { tx_queue = q })) a in
      set_rdp w' (record w'.conn.rdp { tx_queue = requeue w'.conn.rdp.tx_queue a })

timeout_body : (Endpoint → Endpoint) → Endpoint → Option (ℕ × Fifo ℕ) → Endpoint
unfolding timeout_step
timeout_body rest w none = w
timeout_body rest w (some (a, q)) = rest (timeout_step w a q)

-- The loop of MESSAGE TIMEOUT.
unfoldable pub message_timeouts : ℕ → Endpoint → Endpoint
unfolding timeout_body
message_timeouts zero w = w
message_timeouts (suc n) w = timeout_body (message_timeouts n) w (pop w.conn.rdp.tx_queue)

-- Is there room for more in the window? `window_size` is compared as a signed number here.
abbrev pub window_free : Rdp → Bool
window_free r =
    ltb (length r.tx_queue.content) r.window_size
    && (ltb r.window_size (2 ^ 31)
        && seq_before (wrap_sub 16 r.snd_nxt r.snd_una) (r.window_size * 2))

abbrev wake : Endpoint → Endpoint
wake w = if is_open w.conn.rdp.state && window_free w.conn.rdp then act w woken else w

-- The function behind its two checks of the connection.
in_service : Endpoint → Endpoint
unfolding message_timeouts
in_service w = wake (check_ack (message_timeouts (length w.conn.rdp.tx_queue.content) w))

timeouts_behind_lost : Endpoint → Endpoint
unfolding in_service
timeouts_behind_lost w =
    if is_close_wait w.conn.rdp.state
    then if time_after w.now (w.conn.timestamp + w.conn.rdp.conn_timeout) then close_conn w else w
    else in_service w

-- `csp_rdp_check_timeouts`
unfoldable pub check_timeouts : Endpoint → Endpoint
unfolding timeouts_behind_lost
check_timeouts w = elim w.conn.rx_socket [
  | none ↦ timeouts_behind_lost w
  | some s ↦
      if time_after w.now (w.conn.timestamp + w.conn.rdp.conn_timeout)
      then close_conn w
      else timeouts_behind_lost w
]
