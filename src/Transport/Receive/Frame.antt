-- ===== src/Transport/Receive/Frame.antt =====
-- libCSP/trunk/src/transport/csp_rdp.c: what receiving data leaves as it is.
use cubesat_space_protocol.Base.{
  ℕ, zero, suc, ◌+◌, ◌%◌, ◌^◌, ◌≡◌, Option, none, some, Bool, true, false, Bool-cases, inl, inr,
  length, ◌==◌, refl, ap, ◌∙◌,
}
use mathlib.Core.Option.{some-injective, none-ne-some}
use cubesat_space_protocol.Error.{Error}
use cubesat_space_protocol.Queue.Fifo.{Fifo, pop}
use cubesat_space_protocol.Conn.{Conn, Rdp, RdpState, enqueue_packet}
use cubesat_space_protocol.Conn.Packets.{enqueue_packet-rdp}
use cubesat_space_protocol.Transport.{Endpoint, write, act, handed}
use cubesat_space_protocol.Transport.Head.{header_remove}
use cubesat_space_protocol.Transport.Control.{requeue}
use cubesat_space_protocol.Transport.Receive.{
  enqueued, deliver, handed_on, receive_on, receive_data, deliver_due, set_rx_queue, number_of,
  next_number, pass_step, flush_pass, flush_rounds, flush_again, rx_queue_flush, exists_step,
  exists_from, rx_queue_exists, add_new, rx_queue_add,
}

enqueued-rdp :
    (w : Endpoint) (r : Error × Option Conn) (c : Conn) → r.1 ≡ some c → (enqueued w r).1.conn ≡ c
enqueued-rdp w (e, none) c h = absurd (none-ne-some _ h)
enqueued-rdp w (e, some c') c h = some-injective _ _ h

deliver-rdp : (w : Endpoint) (a : ℕ) → (deliver w a).1.conn.rdp ≡ w.conn.rdp
unfolding deliver
deliver-rdp w a =
    let w' : Endpoint = write w a (header_remove (w.mem a)) in
    let pri = (w'.mem a).id.pri in
    let (c, is_c, same) = enqueue_packet-rdp w.conn (some a) pri in
    ap (λ (c : Conn). c.rdp) (enqueued-rdp w' (enqueue_packet (some w.conn) (some a) pri) c is_c)
    ∙ same

handed_on-rdp : (room : Bool) (w : Endpoint) (a : ℕ) → (handed_on room w a).1.conn.rdp ≡ w.conn.rdp
unfolding handed_on
handed_on-rdp false w a = refl
handed_on-rdp true w a =
    deliver-rdp (act (record w { conn = record w.conn { rx_socket = none } }) handed) a

receive_on-rdp : (s : Option ℕ) (w : Endpoint) (a : ℕ) → (receive_on s w a).1.conn.rdp ≡ w.conn.rdp
unfolding receive_on
receive_on-rdp none w a = deliver-rdp w a
receive_on-rdp (some s) w a = handed_on-rdp w.socket_room w a

-- The user's queue is no part of the transport's state.
pub receive_data-rdp : (w : Endpoint) (a : ℕ) → (receive_data w a).1.conn.rdp ≡ w.conn.rdp
unfolding receive_data
receive_data-rdp w a = receive_on-rdp w.conn.rx_socket w a

pub deliver_due-rdp :
    (w : Endpoint) (a : ℕ)
    → (deliver_due w a).conn.rdp ≡ record w.conn.rdp { rcv_cur = (w.conn.rdp.rcv_cur + 1) % 2 ^ 16 }
unfolding deliver_due
deliver_due-rdp w a =
    ap (λ (r : Rdp). record r { rcv_cur = (r.rcv_cur + 1) % 2 ^ 16 }) (receive_data-rdp w a)

-- The state of the connection.
abbrev state_of : Endpoint → RdpState
state_of w = w.conn.rdp.state

due-state :
    (w : Endpoint) (a : ℕ) (q : Fifo ℕ) → state_of (deliver_due (set_rx_queue w q) a) ≡ state_of w
due-state w a q = ap (λ (r : Rdp). r.state) (deliver_due-rdp (set_rx_queue w q) a)

pass_step-state :
    (rest : Endpoint → Bool × Endpoint) (w : Endpoint) (o : Option (ℕ × Fifo ℕ))
    → ((w' : Endpoint) → state_of (rest w').1 ≡ state_of w')
    → state_of (pass_step rest w o).1 ≡ state_of w
unfolding pass_step
pass_step-state rest w none h = refl
pass_step-state rest w (some (a, q)) h = elim (Bool-cases (number_of w a == next_number w)) [
  | inl t ↦ rw (t) (due-state w a q)
  | inr t ↦ rw (t) (h (set_rx_queue w (requeue q a)))
]

flush_pass-state : (n : ℕ) (w : Endpoint) → state_of (flush_pass n w).1 ≡ state_of w
unfolding flush_pass
flush_pass-state zero w = refl
flush_pass-state (suc n) w =
    pass_step-state (flush_pass n) w (pop w.conn.rdp.rx_queue) (flush_pass-state n)

flush_again-state :
    (rest : Endpoint → Endpoint) (r : Bool × Endpoint)
    → ((w : Endpoint) → state_of (rest w) ≡ state_of w)
    → state_of (flush_again rest r) ≡ state_of r.1
unfolding flush_again
flush_again-state rest (false, w) h = refl
flush_again-state rest (true, w) h = h w

flush_rounds-state : (n : ℕ) (w : Endpoint) → state_of (flush_rounds n w) ≡ state_of w
unfolding flush_rounds
flush_rounds-state zero w = refl
flush_rounds-state (suc n) w =
    let size = length w.conn.rdp.rx_queue.content in
    flush_again-state (flush_rounds n) (flush_pass size w) (flush_rounds-state n)
    ∙ flush_pass-state size w

pub rx_queue_flush-state : (w : Endpoint) → state_of (rx_queue_flush w) ≡ state_of w
unfolding rx_queue_flush
rx_queue_flush-state w = flush_rounds-state (suc (length w.conn.rdp.rx_queue.content)) w

exists_step-state :
    (rest : Endpoint → Bool × Endpoint) (seq_nr : ℕ) (w : Endpoint) (o : Option (ℕ × Fifo ℕ))
    → ((w' : Endpoint) → state_of (rest w').1 ≡ state_of w')
    → state_of (exists_step rest seq_nr w o).1 ≡ state_of w
unfolding exists_step
exists_step-state rest seq_nr w none h = refl
exists_step-state rest seq_nr w (some (a, q)) h = elim (Bool-cases (number_of w a == seq_nr)) [
  | inl t ↦ rw (t) refl
  | inr t ↦ rw (t) (h (set_rx_queue w (requeue q a)))
]

exists_from-state : (n seq_nr : ℕ) (w : Endpoint) → state_of (exists_from n seq_nr w).1 ≡ state_of w
unfolding exists_from
exists_from-state zero seq_nr w = refl
exists_from-state (suc n) seq_nr w =
    exists_step-state (exists_from n seq_nr) seq_nr w (pop w.conn.rdp.rx_queue)
      (exists_from-state n seq_nr)

add_new-state : (a : ℕ) (r : Bool × Endpoint) → state_of (add_new a r).1 ≡ state_of r.1
unfolding add_new
add_new-state a (true, w) = refl
add_new-state a (false, w) = refl

pub rx_queue_add-state :
    (w : Endpoint) (a seq_nr : ℕ) → state_of (rx_queue_add w a seq_nr).1 ≡ state_of w
unfolding rx_queue_add rx_queue_exists
rx_queue_add-state w a seq_nr =
    let size = length w.conn.rdp.rx_queue.content in
    add_new-state a (exists_from size seq_nr w) ∙ exists_from-state size seq_nr w
