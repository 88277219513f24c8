-- ===== src/Transport/Control.antt =====
-- libCSP/trunk/src/transport/csp_rdp.c: the control messages.
pub mod Frame
pub mod Untouched
use cubesat_space_protocol.Base.{
  ℕ, zero, suc, ◌+◌, ◌-◌, ◌*◌, ◌/◌, ◌%◌, ◌^◌, List, [], ◌∷◌, ◌++◌, Option, none, some, Bool, true,
  false, length, blit, bytes16, bytes32, bit_or, if◌then◌else◌,
}
use cubesat_space_protocol.Header.{Packet, has}
use cubesat_space_protocol.Endian.{hton16, hton32}
use cubesat_space_protocol.Error.{Error, err_none, err_nomem, err_busy}
use cubesat_space_protocol.Queue.Fifo.{Fifo, push, pop}
use cubesat_space_protocol.Transport.{
  Endpoint, Options, Action, rdp_syn, rdp_ack, rdp_eak, rdp_rst, set_rdp, write, buffer_get,
  buffer_free, buffer_clone, send_direct,
}
use cubesat_space_protocol.Transport.Head.{header_fill, header_ref, RdpHeader}

-- The copy for the retransmission queue behind `csp_queue_enqueue`.
keep_clone : ℕ → Endpoint → Bool × Fifo ℕ → Endpoint
keep_clone a w (true, q) = set_rdp w (record w.conn.rdp { tx_queue = q })
keep_clone a w (false, q) = buffer_free w a

-- `csp_rdp_send_cmp` from the call of `csp_send_direct` on.
sent_cmp : ℕ → ℕ → ℕ → Bool × Endpoint → Error × Endpoint
sent_cmp a flags ack_nr (false, w) = (err_busy, buffer_free w a)
sent_cmp a flags ack_nr (true, w) = (
  err_none,
  if has flags rdp_ack
      then set_rdp w (record w.conn.rdp { rcv_lsa = ack_nr % 2 ^ 16; ack_timestamp = w.now })
      else w,
)

cloned_cmp : ℕ → ℕ → ℕ → Option ℕ × Endpoint → Error × Endpoint
unfolding keep_clone sent_cmp
cloned_cmp a flags ack_nr (none, w) = (err_nomem, w)
cloned_cmp a flags ack_nr (some copy, w) =
    let stamped : Packet = record (w.mem copy) { timestamp = w.now } in
    let w' : Endpoint = keep_clone copy (write w copy stamped) (push w.conn.rdp.tx_queue copy) in
    sent_cmp a flags ack_nr (send_direct w' a)

-- `csp_rdp_send_cmp` with a packet.
send_packet : Endpoint → ℕ → ℕ → ℕ → ℕ → Error × Endpoint
unfolding cloned_cmp sent_cmp
send_packet w a flags seq_nr ack_nr =
    let filled =
      header_fill (w.mem a) (has flags rdp_syn) (has flags rdp_ack) (has flags rdp_eak)
        (has flags rdp_rst) seq_nr ack_nr in
    let w' : Endpoint = write w a filled in
    if has flags rdp_syn
    then cloned_cmp a flags ack_nr (buffer_clone w' a)
    else sent_cmp a flags ack_nr (send_direct w' a)

send_got : ℕ → ℕ → ℕ → Option ℕ × Endpoint → Error × Endpoint
unfolding send_packet
send_got flags seq_nr ack_nr (none, w) = (err_nomem, w)
send_got flags seq_nr ack_nr (some a, w) =
    let emptied : Packet = record (w.mem a) { length = 0 } in
    send_packet (write w a emptied) a flags seq_nr ack_nr

-- `csp_rdp_send_cmp`; without a packet it gets one.
unfoldable pub send_cmp : Endpoint → Option ℕ → ℕ → ℕ → ℕ → Error × Endpoint
unfolding send_packet send_got
send_cmp w none flags seq_nr ack_nr = send_got flags seq_nr ack_nr (buffer_get w)
send_cmp w (some a) flags seq_nr ack_nr = send_packet w a flags seq_nr ack_nr

-- The loop of `csp_rdp_send_eack`: each packet in turn goes to the back of the queue.
abbrev pub add_number : Packet → ℕ → Packet
add_number p seq_nr = record p {
  contents = blit p.contents (p.length / 2 * 2) (bytes16 (hton16 false seq_nr));
  length = (p.length + 2) % 2 ^ 16;
}

unfoldable pub requeue : Fifo ℕ → ℕ → Fifo ℕ
requeue q a = (push q a).1

eack_step : ℕ → Endpoint → Option (ℕ × Fifo ℕ) → Endpoint
eack_step eack w none = w
eack_step eack w (some (a, q)) =
    set_rdp (write w eack (add_number (w.mem eack) (header_ref (w.mem a)).seq_nr))
      (record w.conn.rdp { rx_queue = requeue q a })

unfoldable pub add_numbers : ℕ → ℕ → Endpoint → Endpoint
unfolding eack_step
add_numbers zero eack w = w
add_numbers (suc n) eack w = add_numbers n eack (eack_step eack w (pop w.conn.rdp.rx_queue))

eack_got : Option ℕ × Endpoint → Error × Endpoint
unfolding add_numbers
eack_got (none, w) = (err_nomem, w)
eack_got (some a, w) =
    let emptied : Packet = record (w.mem a) { length = 0 } in
    let w' = add_numbers (length w.conn.rdp.rx_queue.content) a (write w a emptied) in
    send_cmp w' (some a) (bit_or rdp_ack rdp_eak) w'.conn.rdp.snd_nxt w'.conn.rdp.rcv_cur

-- `csp_rdp_send_eack`
pub send_eack : Endpoint → Error × Endpoint
unfolding eack_got
send_eack w = eack_got (buffer_get w)

-- The contents of a SYN.
abbrev pub option_bytes : Options → List ℕ
option_bytes o =
    bytes32 (hton32 false o.window_size)
    ++ (bytes32 (hton32 false o.conn_timeout)
        ++ (bytes32 (hton32 false o.packet_timeout)
            ++ (bytes32 (hton32 false o.delayed_acks)
                ++ (bytes32 (hton32 false o.ack_timeout)
                    ++ bytes32 (hton32 false o.ack_delay_count)))))

unfoldable pub syn_packet : Packet → Options → Packet
syn_packet p o = record p { contents = blit p.contents 0 (option_bytes o); length = 6 * 4 }

syn_got : Option ℕ × Endpoint → Error × Endpoint
unfolding syn_packet
syn_got (none, w) = (err_nomem, w)
syn_got (some a, w) =
    send_cmp (write w a (syn_packet (w.mem a) w.opts)) (some a) rdp_syn w.conn.rdp.snd_iss 0

-- `csp_rdp_send_syn`
pub send_syn : Endpoint → Error × Endpoint
unfolding syn_got
send_syn w = syn_got (buffer_get w)
