-- ===== src/Transport/Acks/Frame.antt =====
-- libCSP/trunk/src/transport/csp_rdp.c: what acknowledgements leave as it is.
use cubesat_space_protocol.Base.{
  ℕ, zero, suc, ◌-◌, ◌/◌, ◌≡◌, Option, none, some, Bool, true, false, length, refl, ◌∙◌,
}
use cubesat_space_protocol.Header.{Packet}
use cubesat_space_protocol.Queue.Fifo.{Fifo, pop}
use cubesat_space_protocol.Conn.{RdpState}
use cubesat_space_protocol.Transport.{Endpoint}
use cubesat_space_protocol.Transport.Head.{header_size}
use cubesat_space_protocol.Transport.Acks.{
  eack_match, eack_settled, eack_body, flush_eack_loop, flush_eack,
}

abbrev state_of : Endpoint → RdpState
state_of w = w.conn.rdp.state

eack_settled-state :
    (w : Endpoint) (a : ℕ) (q : Fifo ℕ) (r : Bool × Packet)
    → state_of (eack_settled w a q r) ≡ state_of w
unfolding eack_settled
eack_settled-state w a q (true, p) = refl
eack_settled-state w a q (false, p) = refl

eack_body-state :
    (rest : Endpoint → Endpoint) (eack : Packet) (w : Endpoint) (o : Option (ℕ × Fifo ℕ))
    → ((w' : Endpoint) → state_of (rest w') ≡ state_of w')
    → state_of (eack_body rest eack w o) ≡ state_of w
unfolding eack_body
eack_body-state rest eack w none h = refl
eack_body-state rest eack w (some (a, q)) h =
    let r =
      eack_match ((eack.length - header_size) / 2) 0 w.now w.conn.rdp.packet_timeout eack
        (w.mem a) in
    h (eack_settled w a q r) ∙ eack_settled-state w a q r

flush_eack_loop-state :
    (n : ℕ) (eack : Packet) (w : Endpoint) → state_of (flush_eack_loop n eack w) ≡ state_of w
unfolding flush_eack_loop
flush_eack_loop-state zero eack w = refl
flush_eack_loop-state (suc n) eack w =
    eack_body-state (flush_eack_loop n eack) eack w (pop w.conn.rdp.tx_queue)
      (flush_eack_loop-state n eack)

pub flush_eack-state : (w : Endpoint) (eack : Packet) → state_of (flush_eack w eack) ≡ state_of w
unfolding flush_eack
flush_eack-state w eack = flush_eack_loop-state (length w.conn.rdp.tx_queue.content) eack w
