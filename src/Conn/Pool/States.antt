-- ===== src/Conn/Pool/States.antt =====
-- libCSP/trunk/src/csp_conn.c: the transport's state behind `csp_close`.
use cubesat_space_protocol.Base.{
  ℕ, ◌≡◌, ◌≢◌, List, [], Option, some, Bool, true, false, Bool-cases, inl, inr, ◌||◌, if◌then◌else◌,
  refl, sym, arith, subst,
}
use cubesat_space_protocol.Error.{Error, err_none}
use cubesat_space_protocol.Header.{frdp, has}
use cubesat_space_protocol.Conn.{
  Conn, RdpState, rdp_closed, rdp_syn_sent, rdp_syn_rcvd, rdp_open, rdp_close_wait, Effect,
  is_closed, flush_rx_queue,
}
use cubesat_space_protocol.Conn.Pool.{close, finish, close_in, rdp_close, rdp_flush_all}

-- How a connection ends: not at all, in CLOSE-WAIT, or in CLOSED, where it stays.
pub data Ends : RdpState → RdpState → Type 0 where
  stays : {s : RdpState} → Ends s s
  waits : {s : RdpState} → s ≢ rdp_closed → Ends s rdp_close_wait
  ends : {s : RdpState} → Ends s rdp_closed

close_in-Ends :
    (s : RdpState) (now : ℕ) (c : Conn) → c.rdp.state ≡ s → Ends s (close_in s now c).1.rdp.state
close_in-Ends rdp_closed now c e = subst (Ends rdp_closed) (sym e) stays
close_in-Ends rdp_close_wait now c e = ends
close_in-Ends rdp_syn_sent now c e = waits (λ q. ground (arith, q))
close_in-Ends rdp_syn_rcvd now c e = waits (λ q. ground (arith, q))
close_in-Ends rdp_open now c e = waits (λ q. ground (arith, q))

finish-state :
    (locked : Bool) (r : Bool × Conn × List Effect)
    → (finish locked r).1.rdp.state ≡ (r.1).rdp.state
unfolding finish flush_rx_queue rdp_flush_all
finish-state true (true, c, es) = refl
finish-state false (true, c, es) = refl
finish-state false (false, c, es) = refl
finish-state true (false, c, es) = elim (Bool-cases (has c.idin.flags frdp)) [
  | inl t ↦ rw (t) refl
  | inr t ↦ rw (t) refl
]

closing-Ends :
    (reliable : Bool) (now : ℕ) (c : Conn)
    → Ends c.rdp.state
        (if◌then◌else◌ {A = Bool × Conn × List Effect} reliable
          (rdp_close now c)
          (false, c, [])).1.rdp.state
unfolding rdp_close
closing-Ends true now c = close_in-Ends c.rdp.state now c refl
closing-Ends false now c = stays

open_close-Ends :
    (is_shut locked : Bool) (now : ℕ) (c : Conn) (r : Bool × Conn × List Effect)
    → Ends c.rdp.state (r.1).rdp.state
    → (c' : Conn) × ((if◌then◌else◌ {A = Error × Option Conn × List Effect} is_shut
          (err_none, some c, [])
          ((finish locked r).0, some (finish locked r).1, (finish locked r).2)).1
        ≡ some c')
      × Ends c.rdp.state c'.rdp.state
open_close-Ends true locked now c r h = (c, refl, stays)
open_close-Ends false locked now c r h =
    ((finish locked r).1, refl, subst (Ends c.rdp.state) (sym (finish-state locked r)) h)

-- The connection behind `csp_close`.
pub close-Ends :
    (locked : Bool) (now : ℕ) (c : Conn)
    → (c' : Conn) × ((close locked now (some c)).1 ≡ some c') × Ends c.rdp.state c'.rdp.state
unfolding close
close-Ends locked now c =
    let reliable = has c.idin.flags frdp || has c.idout.flags frdp in
    open_close-Ends (is_closed c.state) locked now c _ (closing-Ends reliable now c)

-- Emptying the queues leaves the state.
pub rdp_flush_all-state : (c : Conn) → (rdp_flush_all c).0.rdp.state ≡ c.rdp.state
unfolding rdp_flush_all
rdp_flush_all-state c = refl
