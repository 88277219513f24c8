-- ===== src/Transport/Control/Frame.antt =====
-- libCSP/trunk/src/transport/csp_rdp.c: what sending a control message leaves as it is.
use cubesat_space_protocol.Base.{
  ℕ, zero, suc, ◌≡◌, List, [], ◌∷◌, Option, none, some, Bool, true, false, Bool-cases, inl, inr,
  length, if◌then◌else◌, refl, ap, ◌∙◌,
}
use cubesat_space_protocol.Header.{has}
use cubesat_space_protocol.Queue.Fifo.{Fifo, push, pop}
use cubesat_space_protocol.Conn.{Conn}
use cubesat_space_protocol.Transport.{
  Endpoint, from_supply, offered, cloned, buffer_get, buffer_clone, send_direct, write, rdp_ack,
  rdp_eak, rdp_syn, rdp_rst,
}
use cubesat_space_protocol.Transport.Head.{header_fill}
use cubesat_space_protocol.Transport.Control.{
  send_cmp, send_got, send_packet, cloned_cmp, sent_cmp, keep_clone, send_eack, eack_got, eack_step,
  add_numbers,
}

-- What the state machine of the connection looks at.
pub record Same (w w' : Endpoint) : Type 0 where
  pub same_state : w'.conn.rdp.state ≡ w.conn.rdp.state
  pub same_rcv_cur : w'.conn.rdp.rcv_cur ≡ w.conn.rdp.rcv_cur
  pub same_snd_una : w'.conn.rdp.snd_una ≡ w.conn.rdp.snd_una
  pub same_snd_nxt : w'.conn.rdp.snd_nxt ≡ w.conn.rdp.snd_nxt

pub Same-refl : (w : Endpoint) → Same w w
Same-refl w = record {
  same_state = refl;
  same_rcv_cur = refl;
  same_snd_una = refl;
  same_snd_nxt = refl;
}

pub Same-trans : {u v w : Endpoint} → Same u v → Same v w → Same u w
Same-trans h k = record {
  same_state = k.same_state ∙ h.same_state;
  same_rcv_cur = k.same_rcv_cur ∙ h.same_rcv_cur;
  same_snd_una = k.same_snd_una ∙ h.same_snd_una;
  same_snd_nxt = k.same_snd_nxt ∙ h.same_snd_nxt;
}

same : {w w' : Endpoint} → w'.conn ≡ w.conn → Same w w'
same e = record {
  same_state = ap (λ (c : Conn). c.rdp.state) e;
  same_rcv_cur = ap (λ (c : Conn). c.rdp.rcv_cur) e;
  same_snd_una = ap (λ (c : Conn). c.rdp.snd_una) e;
  same_snd_nxt = ap (λ (c : Conn). c.rdp.snd_nxt) e;
}

from_supply-Same : (s : List (Option ℕ)) (w : Endpoint) → Same w (from_supply s w).1
from_supply-Same [] w = same refl
from_supply-Same (o ∷ os) w = same refl

cloned-Same : (a : ℕ) (r : Option ℕ × Endpoint) → Same r.1 (cloned a r).1
cloned-Same a (none, w) = same refl
cloned-Same a (some a', w) = same refl

offered-Same : (bs : List Bool) (w : Endpoint) (a : ℕ) → Same w (offered bs w a).1
offered-Same [] w a = same refl
offered-Same (true ∷ bs) w a = same refl
offered-Same (false ∷ bs) w a = same refl

keep_clone-Same : (a : ℕ) (w : Endpoint) (r : Bool × Fifo ℕ) → Same w (keep_clone a w r)
unfolding keep_clone
keep_clone-Same a w (true, q) = record {
  same_state = refl;
  same_rcv_cur = refl;
  same_snd_una = refl;
  same_snd_nxt = refl;
}
keep_clone-Same a w (false, q) = same refl

sent_cmp-Same : (a flags ack_nr : ℕ) (r : Bool × Endpoint) → Same r.1 (sent_cmp a flags ack_nr r).1
unfolding sent_cmp
sent_cmp-Same a flags ack_nr (false, w) = same refl
sent_cmp-Same a flags ack_nr (true, w) = elim (Bool-cases (has flags rdp_ack)) [
  | inl t ↦
      rw (t) (record {
        same_state = refl;
        same_rcv_cur = refl;
        same_snd_una = refl;
        same_snd_nxt = refl;
      })
  | inr t ↦ rw (t) (same refl)
]

cloned_cmp-Same :
    (a flags ack_nr : ℕ) (r : Option ℕ × Endpoint) → Same r.1 (cloned_cmp a flags ack_nr r).1
unfolding cloned_cmp
cloned_cmp-Same a flags ack_nr (none, w) = same refl
cloned_cmp-Same a flags ack_nr (some copy, w) =
    let w' : Endpoint = write w copy (record (w.mem copy) { timestamp = w.now }) in
    let kept = keep_clone copy w' (push w.conn.rdp.tx_queue copy) in
    Same-trans {v = w'} (same refl) (
      Same-trans (keep_clone-Same copy w' (push w.conn.rdp.tx_queue copy)) (
        Same-trans (offered-Same kept.accepts kept a)
          (sent_cmp-Same a flags ack_nr (send_direct kept a))))

dispatched-Same :
    (syn : Bool) (w : Endpoint) (a flags ack_nr : ℕ)
    → Same w
        (if syn
          then cloned_cmp a flags ack_nr (buffer_clone w a)
          else sent_cmp a flags ack_nr (send_direct w a)).1
dispatched-Same true w a flags ack_nr =
    Same-trans (from_supply-Same w.supply w) (
      Same-trans (cloned-Same a (buffer_get w)) (cloned_cmp-Same a flags ack_nr (buffer_clone w a)))
dispatched-Same false w a flags ack_nr =
    Same-trans (offered-Same w.accepts w a) (sent_cmp-Same a flags ack_nr (send_direct w a))

send_packet-Same :
    (w : Endpoint) (a flags seq_nr ack_nr : ℕ) → Same w (send_packet w a flags seq_nr ack_nr).1
unfolding send_packet
send_packet-Same w a flags seq_nr ack_nr =
    let filled =
      header_fill (w.mem a) (has flags rdp_syn) (has flags rdp_ack) (has flags rdp_eak)
        (has flags rdp_rst) seq_nr ack_nr in
    Same-trans {v = write w a filled} (same refl)
      (dispatched-Same (has flags rdp_syn) (write w a filled) a flags ack_nr)

send_got-Same :
    (flags seq_nr ack_nr : ℕ) (r : Option ℕ × Endpoint)
    → Same r.1 (send_got flags seq_nr ack_nr r).1
unfolding send_got
send_got-Same flags seq_nr ack_nr (none, w) = same refl
send_got-Same flags seq_nr ack_nr (some a, w) =
    Same-trans {v = write w a (record (w.mem a) { length = 0 })} (same refl)
      (send_packet-Same _ a flags seq_nr ack_nr)

pub send_cmp-Same :
    (w : Endpoint) (packet : Option ℕ) (flags seq_nr ack_nr : ℕ)
    → Same w (send_cmp w packet flags seq_nr ack_nr).1
unfolding send_cmp
send_cmp-Same w none flags seq_nr ack_nr =
    Same-trans (from_supply-Same w.supply w) (send_got-Same flags seq_nr ack_nr (buffer_get w))
send_cmp-Same w (some a) flags seq_nr ack_nr = send_packet-Same w a flags seq_nr ack_nr

eack_step-Same : (eack : ℕ) (w : Endpoint) (r : Option (ℕ × Fifo ℕ)) → Same w (eack_step eack w r)
unfolding eack_step
eack_step-Same eack w none = same refl
eack_step-Same eack w (some (a, q)) = record {
  same_state = refl;
  same_rcv_cur = refl;
  same_snd_una = refl;
  same_snd_nxt = refl;
}

add_numbers-Same : (n eack : ℕ) (w : Endpoint) → Same w (add_numbers n eack w)
unfolding add_numbers
add_numbers-Same zero eack w = same refl
add_numbers-Same (suc n) eack w =
    Same-trans (eack_step-Same eack w (pop w.conn.rdp.rx_queue)) (add_numbers-Same n eack _)

eack_got-Same : (r : Option ℕ × Endpoint) → Same r.1 (eack_got r).1
unfolding eack_got
eack_got-Same (none, w) = same refl
eack_got-Same (some a, w) =
    Same-trans {v = write w a (record (w.mem a) { length = 0 })} (same refl) (
      Same-trans (add_numbers-Same (length w.conn.rdp.rx_queue.content) a _)
        (send_cmp-Same _ (some a) _ _ _))

pub send_eack-Same : (w : Endpoint) → Same w (send_eack w).1
unfolding send_eack
send_eack-Same w = Same-trans (from_supply-Same w.supply w) (eack_got-Same (buffer_get w))
