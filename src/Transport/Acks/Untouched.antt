-- ===== src/Transport/Acks/Untouched.antt =====
-- libCSP/trunk/src/transport/csp_rdp.c: `csp_rdp_check_ack` leaves the user's queues alone.
use cubesat_space_protocol.Base.{none, not, ◌==◌, ◌&&◌, if◌then◌else◌, if_cases}
use cubesat_space_protocol.Transport.{Endpoint, rdp_ack}
use cubesat_space_protocol.Transport.Control.{send_cmp}
use cubesat_space_protocol.Transport.Control.Untouched.{
  Untouched, Untouched-refl, send_cmp-Untouched,
}
use cubesat_space_protocol.Transport.Acks.{check_ack, any_scarce, should_ack}

pub check_ack-Untouched : (w : Endpoint) → Untouched w (check_ack w)
unfolding check_ack
check_ack-Untouched w =
    let due =
      not (any_scarce w.conn.rdp.window_size w.conn.rx_queue) && should_ack w.now w.conn.rdp in
    let told = (send_cmp w none rdp_ack w.conn.rdp.snd_nxt w.conn.rdp.rcv_cur).1 in
    if_cases (Untouched w) (not (w.conn.rdp.rcv_lsa == w.conn.rdp.rcv_cur))
      (if due then told else w) w
      (λ e.
        if_cases (Untouched w) due told w
          (λ e'. send_cmp-Untouched w w.conn.rdp.snd_nxt w.conn.rdp.rcv_cur)
          (λ e'. Untouched-refl w))
      (λ e. Untouched-refl w)
