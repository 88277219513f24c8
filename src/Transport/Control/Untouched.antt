-- ===== src/Transport/Control/Untouched.antt =====
-- libCSP/trunk/src/transport/csp_rdp.c: an acknowledgement leaves the user's queues alone.
use cubesat_space_protocol.Base.{
  ℕ, ◌≡◌, List, [], ◌∷◌, Option, none, some, Bool, true, false, refl, ◌∙◌, if_cases,
}
use cubesat_space_protocol.Header.{has}
use cubesat_space_protocol.Transport.{
  Endpoint, from_supply, offered, buffer_get, send_direct, write, rdp_ack,
}
use cubesat_space_protocol.Transport.Head.{header_fill}
use cubesat_space_protocol.Transport.Control.{send_cmp, send_got, send_packet, sent_cmp}

-- The packets for the user and their events, and the identifiers of the connection.
pub record Untouched (w w' : Endpoint) : Type 0 where
  pub rx_queue : w'.conn.rx_queue ≡ w.conn.rx_queue
  pub rx_event : w'.conn.rx_event ≡ w.conn.rx_event

pub Untouched-refl : (w : Endpoint) → Untouched w w
Untouched-refl w = record { rx_queue = refl; rx_event = refl }

joined : {u v w : Endpoint} → Untouched u v → Untouched v w → Untouched u w
joined h k = record { rx_queue = k.rx_queue ∙ h.rx_queue; rx_event = k.rx_event ∙ h.rx_event }

supplied : (os : List (Option ℕ)) (w : Endpoint) → Untouched w (from_supply os w).1
supplied [] w = Untouched-refl w
supplied (o ∷ os) w = record { rx_queue = refl; rx_event = refl }

offered-Untouched : (bs : List Bool) (w : Endpoint) (a : ℕ) → Untouched w (offered bs w a).1
offered-Untouched [] w a = Untouched-refl w
offered-Untouched (true ∷ bs) w a = record { rx_queue = refl; rx_event = refl }
offered-Untouched (false ∷ bs) w a = record { rx_queue = refl; rx_event = refl }

sent-Untouched :
    (a flags ack_nr : ℕ) (r : Bool × Endpoint) → Untouched r.1 (sent_cmp a flags ack_nr r).1
unfolding sent_cmp
sent-Untouched a flags ack_nr (false, w) = record { rx_queue = refl; rx_event = refl }
sent-Untouched a flags ack_nr (true, w) =
    if_cases (Untouched w) (has flags rdp_ack) _ _
      (λ e. record { rx_queue = refl; rx_event = refl }) (λ e. Untouched-refl w)

got-Untouched :
    (seq_nr ack_nr : ℕ) (r : Option ℕ × Endpoint)
    → Untouched r.1 (send_got rdp_ack seq_nr ack_nr r).1
unfolding send_got send_packet
got-Untouched seq_nr ack_nr (none, w) = Untouched-refl w
got-Untouched seq_nr ack_nr (some a, w) =
    let w' = write w a (record (w.mem a) { length = 0 }) in
    let filled = header_fill (w'.mem a) false true false false seq_nr ack_nr in
    let w'' = write w' a filled in
    joined {v = w''} (record { rx_queue = refl; rx_event = refl })
      (joined (offered-Untouched w''.accepts w'' a)
        (sent-Untouched a rdp_ack ack_nr (send_direct w'' a)))

-- An acknowledgement without a packet of its own.
pub send_cmp-Untouched :
    (w : Endpoint) (seq_nr ack_nr : ℕ) → Untouched w (send_cmp w none rdp_ack seq_nr ack_nr).1
unfolding send_cmp
send_cmp-Untouched w seq_nr ack_nr =
    joined (supplied w.supply w) (got-Untouched seq_nr ack_nr (buffer_get w))
