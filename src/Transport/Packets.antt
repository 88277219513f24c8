-- ===== src/Transport/Packets.antt =====
-- libCSP/trunk/src/transport/csp_rdp.c: `csp_rdp_new_packet`, the state machine.
pub mod Ending
pub mod Diagram
pub mod Options
use cubesat_space_protocol.Base.{
  ℕ, zero, suc, ◌+◌, ◌-◌, ◌*◌, ◌%◌, ◌^◌, List, [], ◌∷◌, Option, none, some, Bool, true, false,
  length, get_or, take, drop, word32, bit_or, ltb, leb, ◌==◌, ◌&&◌, ◌||◌, not, if◌then◌else◌,
}
use cubesat_space_protocol.Header.{Packet, PacketId}
use cubesat_space_protocol.Endian.{ntoh32}
use cubesat_space_protocol.Error.{Error}
use cubesat_space_protocol.Queue.Fifo.{Fifo}
use cubesat_space_protocol.Conn.{
  Conn, Rdp, RdpState, rdp_closed, rdp_syn_sent, rdp_syn_rcvd, rdp_open, rdp_close_wait,
  enqueue_packet, get_rxq, no_queue, rx_queue_length,
}
use cubesat_space_protocol.Transport.{
  Endpoint, set_rdp, set_state, write, buffer_free, close_conn, act, woken, rdp_syn, rdp_ack,
  rdp_rst,
}
use cubesat_space_protocol.Transport.Sequence.{wrap_sub, seq_between}
use cubesat_space_protocol.Transport.Head.{header_ref, header_size, to_host, RdpHeader}
use cubesat_space_protocol.Transport.Control.{send_cmp, send_eack}
use cubesat_space_protocol.Transport.Receive.{
  receive_data, rx_queue_add, rx_queue_flush, next_number,
}
use cubesat_space_protocol.Transport.Acks.{flush_eack, should_ack}

-- `discard_open`
abbrev pub discard_open : Endpoint → ℕ → Endpoint
discard_open w a = buffer_free w a

abbrev told : Endpoint → Error × Option Conn → Endpoint
told w (e, none) = w
told w (e, some c) = record w { conn = c }

-- NULL is to be queued for a user that has the connection.
end_conn : Option ℕ → Endpoint → Endpoint
end_conn none w = told w (enqueue_packet (some w.conn) none 0)
end_conn (some s) w = close_conn w

-- `discard_close`
unfoldable pub discard_close : Endpoint → ℕ → Endpoint
unfolding end_conn
discard_close w a = discard_open (end_conn w.conn.rx_socket w) a

-- `csp_rdp_send_cmp` where the result is not looked at.
abbrev pub notify : Endpoint → ℕ → ℕ → ℕ → Endpoint
notify w flags seq_nr ack_nr = (send_cmp w none flags seq_nr ack_nr).1

abbrev pub acked : Endpoint → ℕ → Endpoint
acked w ack_nr = set_rdp w (record w.conn.rdp { snd_una = (ack_nr + 1) % 2 ^ 16 })

abbrev pub waiting : Endpoint → Endpoint
waiting w = record w {
  conn = record w.conn { rdp = record w.conn.rdp { state = rdp_close_wait }; timestamp = w.now };
}

-- A reset, in the states that still have a connection.
reset_open : Endpoint → ℕ → RdpHeader → Endpoint
unfolding discard_close
reset_open w a h =
    if h.seq_nr == next_number w
    then discard_close
        (notify (waiting w) (bit_or rdp_ack rdp_rst) w.conn.rdp.snd_nxt w.conn.rdp.rcv_cur) a
    else discard_open w a

abbrev pub is_over : RdpState → Bool
is_over rdp_close_wait = true
is_over rdp_closed = true
is_over _ = false

-- The block for a reset.
unfoldable pub on_reset : Endpoint → ℕ → RdpHeader → Endpoint
unfolding reset_open
on_reset w a h =
    let w' : Endpoint = if h.ack then acked w h.ack_nr else w in
    if is_over w.conn.rdp.state then close_conn (buffer_free w' a) else reset_open w' a h

-- An option of a SYN.
abbrev pub option_at : Packet → ℕ → ℕ
option_at p i = ntoh32 false (word32 (take 4 (drop (4 * i) p.contents)))

-- A connection as a SYN leaves it in the state CLOSED.
abbrev pub accepted : Rdp → ℕ → Packet → ℕ → Rdp
accepted r iss p seq_nr = record r {
  snd_iss = iss;
  snd_nxt = (iss + 1) % 2 ^ 16;
  snd_una = iss;
  rcv_cur = seq_nr;
  rcv_irs = seq_nr;
  rcv_lsa = seq_nr;
  window_size = option_at p 0;
  conn_timeout = option_at p 1;
  packet_timeout = option_at p 2;
  delayed_acks = option_at p 3;
  ack_timeout = option_at p 4;
  ack_delay_count = option_at p 5;
  state = rdp_syn_rcvd;
}

-- The case RDP_CLOSED.
unfoldable pub in_closed : Endpoint → ℕ → RdpHeader → Endpoint
unfolding discard_close
in_closed w a h =
    if h.syn
    then discard_open
        (notify (set_rdp w (accepted w.conn.rdp (w.rand % 2 ^ 16) (w.mem a) h.seq_nr))
          (bit_or rdp_ack rdp_syn) (w.rand % 2 ^ 16) h.seq_nr)
        a
    else discard_close (notify w rdp_rst w.conn.rdp.snd_nxt w.conn.rdp.rcv_cur) a

abbrev pub established : Endpoint → RdpHeader → Endpoint
established w h = set_rdp w (record w.conn.rdp {
  rcv_cur = h.seq_nr;
  rcv_irs = h.seq_nr;
  rcv_lsa = wrap_sub 16 h.seq_nr 1;
  snd_una = (h.ack_nr + 1) % 2 ^ 16;
  ack_timestamp = w.now;
  state = rdp_open;
})

-- An acknowledgement, if acknowledgements are not to be delayed.
abbrev pub acknowledged : Endpoint → Endpoint
acknowledged w =
    if w.conn.rdp.delayed_acks == 0
    then notify w rdp_ack w.conn.rdp.snd_nxt w.conn.rdp.rcv_cur
    else w

-- The case RDP_SYN_SENT.
unfoldable pub in_syn_sent : Endpoint → ℕ → RdpHeader → Endpoint
unfolding discard_close
in_syn_sent w a h =
    if h.syn && h.ack
    then discard_open (act (acknowledged (established w h)) woken) a
    else if h.ack
    then discard_open (act (notify w rdp_rst w.conn.rdp.snd_nxt w.conn.rdp.rcv_cur) woken) a
    else discard_close w a

-- Is a packet of queue `rxq` to be acknowledged now? There must be room for a window.
abbrev pub room_for_window : Endpoint → ℕ → Bool
room_for_window w rxq =
    leb ((length (get_or w.conn.rx_queue rxq no_queue).content + w.conn.rdp.window_size) % 2 ^ 32)
      rx_queue_length

abbrev pub ack_received : Endpoint → ℕ → Endpoint
ack_received w rxq =
    if room_for_window w rxq && should_ack w.now w.conn.rdp
    then notify w rdp_ack w.conn.rdp.snd_nxt w.conn.rdp.rcv_cur
    else w

-- The packet is the next: it is delivered and acknowledged, and what waited for it follows.
in_sequence : ℕ → ℕ → Bool × Endpoint → Endpoint
in_sequence a seq_nr (false, w) = discard_open w a
in_sequence a seq_nr (true, w) =
    let w' : Endpoint = set_rdp w (record w.conn.rdp { rcv_cur = seq_nr }) in
    rx_queue_flush (ack_received w' (get_rxq (w'.mem a).id.pri))

out_of_sequence : ℕ → Bool × Endpoint → Endpoint
out_of_sequence a (false, w) = discard_open w a
out_of_sequence a (true, w) = (send_eack w).1

-- Behind the checks of the numbers and of the acknowledgement of the SYN.
in_data : Endpoint → ℕ → RdpHeader → Endpoint
unfolding in_sequence out_of_sequence
in_data w a h =
    let w' = acked w h.ack_nr in
    if h.eak
    then discard_open (if ltb header_size (w.mem a).length then flush_eack w' (w.mem a) else w') a
    else if leb (w.mem a).length header_size
    then discard_open w' a
    else if h.seq_nr == next_number w'
    then in_sequence a h.seq_nr (receive_data w' a)
    else out_of_sequence a (rx_queue_add w' a h.seq_nr)

-- `window_size * 2`, a product in 32 bits.
abbrev pub two_windows : Rdp → ℕ
two_windows r = r.window_size * 2 % 2 ^ 32

abbrev pub seq_in_window : Rdp → ℕ → Bool
seq_in_window r seq_nr = seq_between seq_nr (r.rcv_cur + 1) (r.rcv_cur + two_windows r)

abbrev pub ack_in_window : Rdp → ℕ → Bool
ack_in_window r ack_nr =
    seq_between ack_nr (wrap_sub 16 (wrap_sub 16 r.snd_una 1) (two_windows r))
      (wrap_sub 16 r.snd_nxt 1)

-- The two states that the code treats in one case.
pub data Established : Type 0 where
  receiving opening : Established

-- What the case does where the sequence number is out of the window.
out_of_window : Established → Endpoint → Endpoint
out_of_window opening w = notify w (bit_or rdp_ack rdp_syn) w.conn.rdp.snd_iss w.conn.rdp.rcv_irs
out_of_window receiving w = (send_eack w).1

-- The check of SYN_RCVD.
in_acked : Established → Endpoint → ℕ → RdpHeader → Endpoint
unfolding in_data discard_close
in_acked receiving w a h = in_data w a h
in_acked opening w a h =
    if h.ack_nr == w.conn.rdp.snd_iss then in_data (set_state w rdp_open) a h else discard_close w a

-- The cases RDP_SYN_RCVD and RDP_OPEN.
in_established : Established → Endpoint → ℕ → RdpHeader → Endpoint
unfolding out_of_window in_acked discard_close
in_established s w a h =
    if h.syn || not h.ack
    then if h.seq_nr == w.conn.rdp.rcv_irs then discard_open w a else discard_close w a
    else if not (seq_in_window w.conn.rdp h.seq_nr)
    then discard_open (out_of_window s w) a
    else if not (ack_in_window w.conn.rdp h.ack_nr)
    then discard_open w a
    else in_acked s w a h

-- The case RDP_CLOSE_WAIT.
unfoldable pub in_close_wait : Endpoint → ℕ → RdpHeader → Endpoint
in_close_wait w a h =
    if h.syn || not h.ack
    then discard_open w a
    else if not (ack_in_window w.conn.rdp h.ack_nr)
    then discard_open w a
    else let w' = acked w h.ack_nr in
      discard_open (notify w' (bit_or rdp_ack rdp_rst) w'.conn.rdp.snd_nxt w'.conn.rdp.rcv_cur) a

-- The switch on the state.
in_state : RdpState → Endpoint → ℕ → RdpHeader → Endpoint
unfolding in_closed in_syn_sent in_established in_close_wait
in_state rdp_closed = in_closed
in_state rdp_syn_sent = in_syn_sent
in_state rdp_syn_rcvd = in_established opening
in_state rdp_open = in_established receiving
in_state rdp_close_wait = in_close_wait

-- `csp_rdp_new_packet` for the packet at address `a`.
unfoldable pub rdp_new_packet : Endpoint → ℕ → Endpoint
unfolding on_reset in_state
rdp_new_packet w a =
    let w' : Endpoint = write w a (to_host (w.mem a)) in
    let h = header_ref (w'.mem a) in
    if h.rst then on_reset w' a h else in_state w'.conn.rdp.state w' a h
