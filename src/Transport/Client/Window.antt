-- ===== src/Transport/Client/Window.antt =====
-- libCSP/trunk/src/transport/csp_rdp.c: what `csp_rdp_send` does to the window and to the queue.
use cubesat_space_protocol.Base.{
  ℕ, ◌+◌, ◌%◌, ◌^◌, ◌≤◌, ◌<◌, ◌≡◌, ◌≢◌, [], ◌∷◌, ◌++◌, none, some, Bool, true, false, length,
}
use cubesat_space_protocol.Header.{Packet}
use cubesat_space_protocol.Error.{Error, err_none, err_nomem, err_timedout, err_reset, err_nobufs}
use cubesat_space_protocol.Queue.Fifo.{Fifo}
use cubesat_space_protocol.Conn.{Rdp, rdp_open}
use cubesat_space_protocol.Transport.{Endpoint, given_back, buffer_get}
use cubesat_space_protocol.Transport.Head.{header_fill}
use cubesat_space_protocol.Transport.Client.{in_flight, stamped}

-- The packet as it is sent: the next number, and the last number received.
abbrev pub numbered_packet : Endpoint → ℕ → Packet
numbered_packet w a =
    header_fill (w.mem a) false true false false w.conn.rdp.snd_nxt w.conn.rdp.rcv_cur

-- What sending packet `a` from `w` comes to.
pub data Sent (w : Endpoint) (a : ℕ) : Error × Endpoint → Type 0 where
  queued :
      {w' : Endpoint} (copy : ℕ)
      → (buffer_get w).0 ≡ some copy
      → w'.conn.rdp.tx_queue.content ≡ w.conn.rdp.tx_queue.content ++ (copy ∷ [])
      → length w.conn.rdp.tx_queue.content < w.conn.rdp.tx_queue.capacity
      → w'.mem copy ≡ stamped (numbered_packet w a) w.now
      → w'.conn.rdp.snd_nxt ≡ (w.conn.rdp.snd_nxt + 1) % 2 ^ 16
      → w'.actions ≡ w.actions
      → Sent w a (err_none, w')
  no_copy :
      {w' : Endpoint}
      → (buffer_get w).0 ≡ none
      → w'.conn ≡ w.conn
      → w'.actions ≡ w.actions
      → Sent w a (err_nomem, w')
  no_room :
      {w' : Endpoint} (copy : ℕ)
      → (buffer_get w).0 ≡ some copy
      → w.conn.rdp.tx_queue.capacity ≤ length w.conn.rdp.tx_queue.content
      → w'.conn ≡ w.conn
      → w'.actions ≡ w.actions ++ (given_back copy ∷ [])
      → Sent w a (err_nobufs, w')

-- A window with room for the number that comes next.
abbrev pub HasRoom : Rdp → Type 0
HasRoom r = in_flight r ≤ r.window_size

-- How a send ends.
pub data Sending (w : Endpoint) (a : ℕ) : Bool × Endpoint → Error × Endpoint → Type 0 where
  refused :
      {woken : Bool × Endpoint} → w.conn.rdp.state ≢ rdp_open → Sending w a woken (err_reset, w)
  sent_at_once :
      {woken : Bool × Endpoint} {r : Error × Endpoint}
      → w.conn.rdp.state ≡ rdp_open
      → HasRoom w.conn.rdp
      → Sent w a r
      → Sending w a woken r
  sent_later :
      {v : Endpoint} {r : Error × Endpoint}
      → w.conn.rdp.state ≡ rdp_open
      → w.conn.rdp.window_size < in_flight w.conn.rdp
      → Sent v a r
      → Sending w a (true, v) r
  timed_out :
      {v : Endpoint}
      → w.conn.rdp.state ≡ rdp_open
      → w.conn.rdp.window_size < in_flight w.conn.rdp
      → Sending w a (false, v) (err_timedout, v)
