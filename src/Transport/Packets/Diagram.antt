-- ===== src/Transport/Packets/Diagram.antt =====
-- libCSP/trunk/src/transport/csp_rdp.c: the states of a connection, and what changes them.
use cubesat_space_protocol.Base.{
  ℕ, ◌≡◌, Bool, true, false, not, ltb, leb, ◌==◌, ◌&&◌, ◌||◌, if_cases, ==_iff, refl, sym, ap,
  subst, ◌∙◌, arith,
}
use cubesat_space_protocol.Conn.{
  Rdp, RdpState, rdp_closed, rdp_syn_sent, rdp_syn_rcvd, rdp_open, rdp_close_wait, get_rxq,
}
use cubesat_space_protocol.Conn.Pool.States.{Ends, stays}
use cubesat_space_protocol.Transport.{Endpoint, set_state, set_rdp, write}
use cubesat_space_protocol.Transport.Head.{RdpHeader, header_ref, header_size, to_host}
use cubesat_space_protocol.Transport.Control.Frame.{send_eack-Same}
use cubesat_space_protocol.Transport.Receive.{receive_data, rx_queue_add, next_number}
use cubesat_space_protocol.Transport.Receive.Frame.{
  receive_data-rdp, rx_queue_flush-state, rx_queue_add-state,
}
use cubesat_space_protocol.Transport.Acks.{should_ack}
use cubesat_space_protocol.Transport.Acks.Frame.{flush_eack-state}
use cubesat_space_protocol.Transport.Packets.Ending.{
  state_of, after, then_same, discard_close-Ends, notify-state, on_reset-Ends,
}
use cubesat_space_protocol.Transport.Packets.{
  discard_open, acked, in_closed, in_syn_sent, acknowledged, established, room_for_window,
  ack_received, in_sequence, out_of_sequence, in_data, Established, opening, receiving,
  out_of_window, in_acked, seq_in_window, ack_in_window, in_established, in_close_wait, in_state,
  rdp_new_packet,
}

-- What a packet with header `h` can make of the state of the connection.
pub data Edge (w : Endpoint) (h : RdpHeader) : RdpState → RdpState → Type 0 where
  ending : {s t : RdpState} → Ends s t → Edge w h s t
  accepting : h.rst ≡ false → h.syn ≡ true → Edge w h rdp_closed rdp_syn_rcvd
  connecting : h.rst ≡ false → h.syn ≡ true → h.ack ≡ true → Edge w h rdp_syn_sent rdp_open
  answered :
      h.rst ≡ false
      → h.syn ≡ false
      → h.ack ≡ true
      → h.ack_nr ≡ w.conn.rdp.snd_iss
      → Edge w h rdp_syn_rcvd rdp_open

and_true : {a b : Bool} → a && b ≡ true → (a ≡ true) × (b ≡ true)
and_true h = ground (arith, h)

or_false : {a b : Bool} → a || not b ≡ false → (a ≡ false) × (b ≡ true)
or_false h = ground (arith, h)

-- The end of a connection from state `s`.
from_state :
    {w : Endpoint} {h : RdpHeader} {s t : RdpState}
    → state_of w ≡ s
    → Ends (state_of w) t
    → Edge w h s t
from_state {t = t} e k = ending (subst (λ r. Ends r t) e k)

to_state : {w : Endpoint} {h : RdpHeader} {s t u : RdpState} → u ≡ t → Edge w h s t → Edge w h s u
to_state {w} {h} {s} e k = subst (Edge w h s) (sym e) k

abbrev name_of : Established → RdpState
name_of opening = rdp_syn_rcvd
name_of receiving = rdp_open

in_closed-Edge :
    (w : Endpoint) (a : ℕ) (h : RdpHeader)
    → h.rst ≡ false
    → state_of w ≡ rdp_closed
    → Edge w h rdp_closed (state_of (in_closed w a h))
unfolding in_closed
in_closed-Edge w a h rst e =
    if_cases (λ w'. Edge w h rdp_closed (state_of w')) h.syn _ _
      (λ syn. to_state (notify-state _ _ _ _) (accepting rst syn))
      (λ _. from_state e (after (notify-state w _ _ _) (discard_close-Ends _ a)))

acknowledged-state : (w : Endpoint) → state_of (acknowledged w) ≡ state_of w
acknowledged-state w =
    if_cases (λ w'. state_of w' ≡ state_of w) (w.conn.rdp.delayed_acks == 0) _ _
      (λ _. notify-state w _ _ _) (λ _. refl)

in_syn_sent-Edge :
    (w : Endpoint) (a : ℕ) (h : RdpHeader)
    → h.rst ≡ false
    → state_of w ≡ rdp_syn_sent
    → Edge w h rdp_syn_sent (state_of (in_syn_sent w a h))
unfolding in_syn_sent
in_syn_sent-Edge w a h rst e =
    if_cases (λ w'. Edge w h rdp_syn_sent (state_of w')) (h.syn && h.ack) _ _
      (λ both.
        let (syn, ack) = and_true both in
        to_state (acknowledged-state (established w h)) (connecting rst syn ack))
      (λ _.
        if_cases (λ w'. Edge w h rdp_syn_sent (state_of w')) h.ack _ _
          (λ _. from_state e (then_same stays (notify-state w _ _ _)))
          (λ _. from_state e (discard_close-Ends w a)))

ack_received-state : (w : Endpoint) (rxq : ℕ) → state_of (ack_received w rxq) ≡ state_of w
ack_received-state w rxq =
    if_cases (λ w'. state_of w' ≡ state_of w) (room_for_window w rxq && should_ack w.now w.conn.rdp)
      _ _ (λ _. notify-state w _ _ _) (λ _. refl)

in_sequence-state :
    (a seq_nr : ℕ) (r : Bool × Endpoint) → state_of (in_sequence a seq_nr r) ≡ state_of r.1
unfolding in_sequence
in_sequence-state a seq_nr (false, w) = refl
in_sequence-state a seq_nr (true, w) =
    let w' : Endpoint = set_rdp w (record w.conn.rdp { rcv_cur = seq_nr }) in
    let rxq = get_rxq (w'.mem a).id.pri in
    rx_queue_flush-state (ack_received w' rxq) ∙ ack_received-state w' rxq

out_of_sequence-state :
    (a : ℕ) (r : Bool × Endpoint) → state_of (out_of_sequence a r) ≡ state_of r.1
unfolding out_of_sequence
out_of_sequence-state a (false, w) = refl
out_of_sequence-state a (true, w) = (send_eack-Same w).same_state

in_data-state : (w : Endpoint) (a : ℕ) (h : RdpHeader) → state_of (in_data w a h) ≡ state_of w
unfolding in_data
in_data-state w a h =
    let w1 = acked w h.ack_nr in
    if_cases (λ w'. state_of w' ≡ state_of w) h.eak _ _
      (λ _.
        if_cases (λ w'. state_of (discard_open w' a) ≡ state_of w)
          (ltb header_size (w.mem a).length) _ _ (λ _. flush_eack-state w1 (w.mem a)) (λ _. refl))
      (λ _.
        if_cases (λ w'. state_of w' ≡ state_of w) (leb (w.mem a).length header_size) _ _ (λ _. refl)
          (λ _.
            if_cases (λ w'. state_of w' ≡ state_of w) (h.seq_nr == next_number w1) _ _
              (λ _.
                in_sequence-state a h.seq_nr (receive_data w1 a)
                ∙ ap (λ (r : Rdp). r.state) (receive_data-rdp w1 a))
              (λ _.
                out_of_sequence-state a (rx_queue_add w1 a h.seq_nr)
                ∙ rx_queue_add-state w1 a h.seq_nr)))

in_acked-Edge :
    (s : Established) (w : Endpoint) (a : ℕ) (h : RdpHeader)
    → h.rst ≡ false
    → h.syn ≡ false
    → h.ack ≡ true
    → state_of w ≡ name_of s
    → Edge w h (name_of s) (state_of (in_acked s w a h))
unfolding in_acked
in_acked-Edge receiving w a h rst syn ack e = from_state e (then_same stays (in_data-state w a h))
in_acked-Edge opening w a h rst syn ack e =
    if_cases (λ w'. Edge w h rdp_syn_rcvd (state_of w')) (h.ack_nr == w.conn.rdp.snd_iss) _ _
      (λ q.
        to_state (in_data-state (set_state w rdp_open) a h)
          (answered rst syn ack ((==_iff _ _).0 q)))
      (λ _. from_state e (discard_close-Ends w a))

out_of_window-state : (s : Established) (w : Endpoint) → state_of (out_of_window s w) ≡ state_of w
unfolding out_of_window
out_of_window-state opening w = notify-state w _ _ _
out_of_window-state receiving w = (send_eack-Same w).same_state

in_established-Edge :
    (s : Established) (w : Endpoint) (a : ℕ) (h : RdpHeader)
    → h.rst ≡ false
    → state_of w ≡ name_of s
    → Edge w h (name_of s) (state_of (in_established s w a h))
unfolding in_established
in_established-Edge s w a h rst e =
    let P = λ (w' : Endpoint). Edge w h (name_of s) (state_of w') in
    if_cases P (h.syn || not h.ack) _ _
      (λ _.
        if_cases P (h.seq_nr == w.conn.rdp.rcv_irs) _ _ (λ _. from_state e stays)
          (λ _. from_state e (discard_close-Ends w a)))
      (λ t.
        let (syn, ack) = or_false t in
        if_cases P (not (seq_in_window w.conn.rdp h.seq_nr)) _ _
          (λ _. from_state e (then_same stays (out_of_window-state s w)))
          (λ _.
            if_cases P (not (ack_in_window w.conn.rdp h.ack_nr)) _ _ (λ _. from_state e stays)
              (λ _. in_acked-Edge s w a h rst syn ack e)))

in_close_wait-state :
    (w : Endpoint) (a : ℕ) (h : RdpHeader) → state_of (in_close_wait w a h) ≡ state_of w
unfolding in_close_wait
in_close_wait-state w a h =
    let P = λ (w' : Endpoint). state_of w' ≡ state_of w in
    if_cases P (h.syn || not h.ack) _ _ (λ _. refl)
      (λ _.
        if_cases P (not (ack_in_window w.conn.rdp h.ack_nr)) _ _ (λ _. refl)
          (λ _. notify-state (acked w h.ack_nr) _ _ _))

in_state-Edge :
    (s : RdpState) (w : Endpoint) (a : ℕ) (h : RdpHeader)
    → h.rst ≡ false
    → state_of w ≡ s
    → Edge w h s (state_of (in_state s w a h))
unfolding in_state
in_state-Edge rdp_closed w a h rst e = in_closed-Edge w a h rst e
in_state-Edge rdp_syn_sent w a h rst e = in_syn_sent-Edge w a h rst e
in_state-Edge rdp_syn_rcvd w a h rst e = in_established-Edge opening w a h rst e
in_state-Edge rdp_open w a h rst e = in_established-Edge receiving w a h rst e
in_state-Edge rdp_close_wait w a h rst e =
    from_state e (then_same stays (in_close_wait-state w a h))

-- A packet with its header in host order, in memory.
abbrev pub converted : Endpoint → ℕ → Endpoint
converted w a = write w a (to_host (w.mem a))

-- Whatever packet comes, the state of the connection changes along the diagram: from CLOSED only to SYN_RCVD, on a SYN; to OPEN only from SYN_SENT, on a SYN with an acknowledgement, or from SYN_RCVD, on an acknowledgement of the number that the SYN had, without a SYN; never on a reset; otherwise it stays, or goes to CLOSE_WAIT from a state other than CLOSED, or to CLOSED.
pub rdp_new_packet-Edge :
    (w : Endpoint) (a : ℕ)
    → Edge
        (converted w a)
        (header_ref ((converted w a).mem a))
        (state_of w)
        (state_of (rdp_new_packet w a))
unfolding rdp_new_packet
rdp_new_packet-Edge w a =
    let w' : Endpoint = converted w a in
    let h = header_ref (w'.mem a) in
    if_cases (λ r. Edge w' h (state_of w) (state_of r)) h.rst _ _
      (λ _. ending (on_reset-Ends w' a h)) (λ rst. in_state-Edge (state_of w) w' a h rst refl)
