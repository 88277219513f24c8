-- ===== src/Transport/Client.antt =====
-- libCSP/trunk/src/transport/csp_rdp.c: what the user's calls come to.
pub mod Window
pub mod Connecting
use cubesat_space_protocol.Base.{
  ℕ, zero, suc, ◌+◌, ◌-◌, ◌*◌, ◌%◌, ◌^◌, List, [], ◌∷◌, ◌++◌, map, Option, none, some, Bool, true,
  false, ltb, if◌then◌else◌,
}
use cubesat_space_protocol.Header.{Packet}
use cubesat_space_protocol.Error.{
  Error, err_none, err_nomem, err_timedout, err_already, err_reset, err_nobufs, is_none,
}
use cubesat_space_protocol.Queue.Fifo.{Fifo, push, fresh}
use cubesat_space_protocol.Conn.{
  Conn, Rdp, RdpState, rdp_closed, rdp_syn_sent, rdp_syn_rcvd, rdp_open, rdp_close_wait, Effect,
}
use cubesat_space_protocol.Conn.Pool.{rdp_flush_all}
use cubesat_space_protocol.Transport.{
  Endpoint, Options, Action, closing, set_rdp, set_state, write, buffer_free, buffer_clone,
  rdp_max_window,
}
use cubesat_space_protocol.Transport.Sequence.{wrap_sub}
use cubesat_space_protocol.Transport.Head.{header_fill}
use cubesat_space_protocol.Transport.Control.{send_syn}

-- The options of a new connection.
abbrev pub configured : Endpoint → Endpoint
configured w = set_rdp w (record w.conn.rdp {
  window_size = w.opts.window_size;
  conn_timeout = w.opts.conn_timeout;
  packet_timeout = w.opts.packet_timeout;
  delayed_acks = w.opts.delayed_acks;
  ack_timeout = w.opts.ack_timeout;
  ack_delay_count = w.opts.ack_delay_count;
  ack_timestamp = w.now;
})

abbrev pub numbered : Endpoint → Endpoint
numbered w = set_rdp w (record w.conn.rdp {
  snd_iss = w.rand % 2 ^ 16;
  snd_nxt = (w.rand % 2 ^ 16 + 1) % 2 ^ 16;
  snd_una = w.rand % 2 ^ 16;
  state = rdp_syn_sent;
})

-- `error`
abbrev connect_failed : Endpoint → Error × Endpoint
connect_failed w = (err_timedout, set_state w rdp_close_wait)

-- `csp_rdp_flush_all`
pub flush_all : Endpoint → Endpoint
flush_all w =
    let (c, es) = rdp_flush_all w.conn in
    record w { conn = c; actions = w.actions ++ map closing es }

-- The state behind the wait, of which `again` is what the retry comes to.
connect_woken : RdpState → (Endpoint → Error × Endpoint) → Endpoint → Error × Endpoint
unfolding flush_all
connect_woken rdp_open again w = (err_none, w)
connect_woken rdp_syn_sent again w = again w
connect_woken _ again w = connect_failed w

connect_waited : (Endpoint → Error × Endpoint) → Bool × Endpoint → Error × Endpoint
unfolding connect_woken
connect_waited again (false, w) = connect_failed w
connect_waited again (true, w) = connect_woken w.conn.rdp.state again w

connect_sent :
    (Endpoint → Bool × Endpoint)
    → (Endpoint → Error × Endpoint)
    → Error × Endpoint
    → Error × Endpoint
unfolding connect_waited
connect_sent wait again (e, w) =
    if is_none e then connect_waited again (wait w) else connect_failed w

-- The body behind the label `retry`; `again` is what the retry comes to.
attempt_in :
    RdpState
    → (Endpoint → Bool × Endpoint)
    → (Endpoint → Error × Endpoint)
    → Endpoint
    → Error × Endpoint
unfolding connect_sent
attempt_in rdp_open wait again w = (err_already, w)
attempt_in _ wait again w = connect_sent wait again (send_syn (numbered w))

-- `csp_rdp_connect` from `retry` on, with the retries left; `wait` is what the other tasks make of
-- the endpoint until the wait for `tx_wait` ends, and whether it ends well.
attempt : ℕ → (Endpoint → Bool × Endpoint) → Endpoint → Error × Endpoint
unfolding attempt_in flush_all
attempt zero wait w = attempt_in w.conn.rdp.state wait connect_failed w
attempt (suc retry) wait w =
    attempt_in w.conn.rdp.state wait (λ w'. attempt retry wait (flush_all w')) w

-- `csp_rdp_connect`
unfoldable pub rdp_connect : (Endpoint → Bool × Endpoint) → Endpoint → Error × Endpoint
unfolding attempt
rdp_connect wait w = attempt 1 wait (configured w)

-- The stamps of the copy for the retransmission queue.
abbrev stamped : Packet → ℕ → Packet
stamped p now = record p { timestamp = now; quarantine = 0 }

send_queued : ℕ → Endpoint → Bool × Fifo ℕ → Error × Endpoint
send_queued copy w (false, q) = (err_nobufs, buffer_free w copy)
send_queued copy w (true, q) = (
  err_none,
  set_rdp w (record w.conn.rdp { tx_queue = q; snd_nxt = (w.conn.rdp.snd_nxt + 1) % 2 ^ 16 }),
)

send_cloned : Option ℕ × Endpoint → Error × Endpoint
unfolding send_queued
send_cloned (none, w) = (err_nomem, w)
send_cloned (some copy, w) =
    let w' : Endpoint = write w copy (stamped (w.mem copy) w.now) in
    send_queued copy w' (push w'.conn.rdp.tx_queue copy)

-- `csp_rdp_send` behind the wait: a header with the acknowledgement bit, and a copy in the queue.
unfoldable pub send_now : Endpoint → ℕ → Error × Endpoint
unfolding send_cloned
send_now w a =
    let filled =
      header_fill (w.mem a) false true false false w.conn.rdp.snd_nxt w.conn.rdp.rcv_cur in
    send_cloned (buffer_clone (write w a filled) a)

send_waited : ℕ → Bool × Endpoint → Error × Endpoint
unfolding send_now
send_waited a (false, w) = (err_timedout, w)
send_waited a (true, w) = send_now w a

-- `in_flight`
abbrev pub in_flight : Rdp → ℕ
in_flight r = (wrap_sub 16 r.snd_nxt r.snd_una + 1) % 2 ^ 16

send_in : RdpState → (Endpoint → Bool × Endpoint) → Endpoint → ℕ → Error × Endpoint
unfolding send_waited send_now
send_in rdp_open wait w a =
    if ltb w.conn.rdp.window_size (in_flight w.conn.rdp)
    then send_waited a (wait w)
    else send_now w a
send_in _ wait w a = (err_reset, w)

-- `csp_rdp_send`; `wait` is as for `csp_rdp_connect`.
unfoldable pub rdp_send : (Endpoint → Bool × Endpoint) → Endpoint → ℕ → Error × Endpoint
unfolding send_in
rdp_send wait w a = send_in w.conn.rdp.state wait w a

-- `csp_rdp_allocate`, on the outcomes of the creation of the semaphore and of the two queues.
unfoldable pub rdp_allocate : Bool → Bool → Bool → Options → Rdp → Error × Rdp
unfolding fresh
rdp_allocate sem tx rx o r =
    let r' : Rdp = record r {
      state = rdp_closed;
      conn_timeout = o.conn_timeout;
      packet_timeout = o.packet_timeout;
    } in
    if sem
    then if tx
      then if rx
        then (
          err_none,
          record r' { tx_queue = fresh rdp_max_window; rx_queue = fresh (rdp_max_window * 2) },
        )
        else (err_nomem, record r' { tx_queue = fresh rdp_max_window })
      else (err_nomem, r')
    else (err_nomem, r')
