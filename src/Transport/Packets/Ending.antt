-- ===== src/Transport/Packets/Ending.antt =====
-- libCSP/trunk/src/transport/csp_rdp.c: how a packet ends a connection.
use cubesat_space_protocol.Base.{
  ℕ, ◌≡◌, ◌≢◌, List, Option, none, some, false, ◌==◌, if_cases, refl, sym, ap, subst, ◌∙◌, arith,
}
use mathlib.Core.Option.{some-injective, none-ne-some}
use cubesat_space_protocol.Error.{Error}
use cubesat_space_protocol.Conn.{Conn, Rdp, RdpState, rdp_closed, Effect, enqueue_packet}
use cubesat_space_protocol.Conn.Packets.{enqueue_packet-rdp}
use cubesat_space_protocol.Conn.Pool.{close}
use cubesat_space_protocol.Conn.Pool.States.{Ends, stays, waits, ends, close-Ends}
use cubesat_space_protocol.Transport.{Endpoint, closed_conn, close_conn}
use cubesat_space_protocol.Transport.Head.{RdpHeader}
use cubesat_space_protocol.Transport.Control.Frame.{send_cmp-Same}
use cubesat_space_protocol.Transport.Receive.{next_number}
use cubesat_space_protocol.Transport.Packets.{
  told, end_conn, discard_close, notify, acked, waiting, reset_open, is_over, on_reset,
}

-- The state of an endpoint's connection.
abbrev pub state_of : Endpoint → RdpState
state_of w = w.conn.rdp.state

kept-closed : {s t : RdpState} → Ends s t → t ≢ rdp_closed → s ≢ rdp_closed
kept-closed stays h = h
kept-closed (waits k) h = k
kept-closed ends h = absurd (h refl)

Ends-trans : {s t u : RdpState} → Ends s t → Ends t u → Ends s u
Ends-trans h stays = h
Ends-trans h (waits k) = waits (kept-closed h k)
Ends-trans h ends = ends

-- A step that leaves the state, and then one that ends the connection.
pub after : {s t u : RdpState} → t ≡ s → Ends t u → Ends s u
after {u = u} e h = subst (λ r. Ends r u) e h

pub then_same : {s t u : RdpState} → Ends s t → u ≡ t → Ends s u
then_same {s = s} h e = subst (Ends s) (sym e) h

closed_conn-Ends :
    (w : Endpoint) (r : Error × Option Conn × List Effect) (c : Conn)
    → r.1 ≡ some c
    → Ends (state_of w) c.rdp.state
    → Ends (state_of w) (state_of (closed_conn w r))
closed_conn-Ends w (e, none, es) c h k = absurd (none-ne-some _ h)
closed_conn-Ends w (e, some c', es) c h k =
    then_same k (ap (λ (c : Conn). c.rdp.state) (some-injective _ _ h))

close_conn-Ends : (w : Endpoint) → Ends (state_of w) (state_of (close_conn w))
close_conn-Ends w =
    let (c, is_c, h) = close-Ends w.lockable w.now w.conn in
    closed_conn-Ends w (close w.lockable w.now (some w.conn)) c is_c h

told-Ends :
    (w : Endpoint) (r : Error × Option Conn) (c : Conn)
    → r.1 ≡ some c
    → c.rdp ≡ w.conn.rdp
    → Ends (state_of w) (state_of (told w r))
told-Ends w (e, none) c h k = stays
told-Ends w (e, some c') c h k =
    then_same stays
      (ap (λ (c : Conn). c.rdp.state) (some-injective _ _ h) ∙ ap (λ (r : Rdp). r.state) k)

end_conn-Ends : (s : Option ℕ) (w : Endpoint) → Ends (state_of w) (state_of (end_conn s w))
unfolding end_conn
end_conn-Ends none w =
    let (c, is_c, same) = enqueue_packet-rdp w.conn none 0 in
    told-Ends w (enqueue_packet (some w.conn) none 0) c is_c same
end_conn-Ends (some s) w = close_conn-Ends w

pub discard_close-Ends : (w : Endpoint) (a : ℕ) → Ends (state_of w) (state_of (discard_close w a))
unfolding discard_close
discard_close-Ends w a = end_conn-Ends w.conn.rx_socket w

pub notify-state :
    (w : Endpoint) (flags seq_nr ack_nr : ℕ) → state_of (notify w flags seq_nr ack_nr) ≡ state_of w
notify-state w flags seq_nr ack_nr = (send_cmp-Same w none flags seq_nr ack_nr).same_state

-- A reset ends the connection or leaves it.
reset_open-Ends :
    (w : Endpoint) (a : ℕ) (h : RdpHeader)
    → state_of w ≢ rdp_closed
    → Ends (state_of w) (state_of (reset_open w a h))
unfolding reset_open
reset_open-Ends w a h ne =
    if_cases (λ w'. Ends (state_of w) (state_of w')) (h.seq_nr == next_number w) _ _
      (λ _. Ends-trans (waits ne) (after (notify-state (waiting w) _ _ _) (discard_close-Ends _ a)))
      (λ _. stays)

not_over : {s : RdpState} → is_over s ≡ false → s ≢ rdp_closed
not_over t e = ground (arith, sym t ∙ ap is_over e)

pub on_reset-Ends :
    (w : Endpoint) (a : ℕ) (h : RdpHeader) → Ends (state_of w) (state_of (on_reset w a h))
unfolding on_reset
on_reset-Ends w a h =
    let same =
      if_cases (λ w'. state_of w' ≡ state_of w) h.ack (acked w h.ack_nr) w (λ _. refl)
        (λ _. refl) in
    if_cases (λ w'. Ends (state_of w) (state_of w')) (is_over (state_of w)) _ _
      (λ _. after same (close_conn-Ends _))
      (λ t. after same (reset_open-Ends _ a h (λ e. not_over t (sym same ∙ e))))
