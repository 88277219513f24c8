-- ===== src/Services/Handled.antt =====
-- libCSP/trunk/src/csp_service_handler.c: whose the packet of a request is in the end.
use cubesat_space_protocol.Base.{ℕ, ◌≡◌, [], ◌∷◌, ◌++◌, Option, none, some, Bool, true, false, refl}
use cubesat_space_protocol.Header.{Packet}
use cubesat_space_protocol.Conn.{Conn}
use cubesat_space_protocol.Transport.{given_back, write}
use cubesat_space_protocol.Io.{Station, set_endpoint}
use cubesat_space_protocol.Io.Calls.{Waits, send}
use cubesat_space_protocol.Services.{
  Host, Service, answer, discard, reset, port_of, serve, answered, handle, service_handler,
}

module _ (waits : Waits) (s : Station) (c : Conn) (a : ℕ) where
  -- The packet at `a` has been given back, last of all, since there is no answer or the answer could not
  -- be sent; or it has been sent as the answer, and nothing has been done behind that.
  pub data Settled (v : Service) (s' : Station) : Type 0 where
    discarded :
        v ≡ discard → s'.endpoint.actions ≡ s.endpoint.actions ++ (given_back a ∷ []) → Settled v s'
    unsent :
        (q : Packet) (t : Station)
        → v ≡ answer q
        → send waits (set_endpoint s (write s.endpoint a q)) (some c) (some a) ≡ (false, t)
        → s'.endpoint.actions ≡ t.endpoint.actions ++ (given_back a ∷ [])
        → Settled v s'
    sent :
        (q : Packet)
        → v ≡ answer q
        → send waits (set_endpoint s (write s.endpoint a q)) (some c) (some a) ≡ (true, s')
        → Settled v s'

  abbrev pub Ends : Service → Option Station → Type 0
  Ends v none = v ≡ reset
  Ends v (some s') = Settled v s'

  answered-Settled :
      (q : Packet) (r : Bool × Station)
      → send waits (set_endpoint s (write s.endpoint a q)) (some c) (some a) ≡ r
      → Settled (answer q) (answered a r)
  unfolding answered
  answered-Settled q (true, s') e = sent q refl e
  answered-Settled q (false, s') e = unsent q s' refl e refl

  handle-Ends : (v : Service) → Ends v (handle waits s c a v)
  unfolding handle
  handle-Ends (answer q) = answered-Settled q _ refl
  handle-Ends discard = discarded refl refl
  handle-Ends reset = refl

-- Whatever request comes to the handler and whatever becomes of the answer: where the service has no answer, or the answer could not be sent, the packet is given back to the pool, as the last thing that is done; where the packet, with the answer of the service in it, has been sent with success, nothing is done behind that; and only a node that starts again does neither.
pub service_handler-Ends :
    (h : Host) (waits : Waits) (s : Station) (c : Conn) (a : ℕ)
    → Ends waits s c a
        (serve h (port_of c.idin.dport) (s.endpoint.mem a))
        (service_handler h waits s c a)
unfolding service_handler
service_handler-Ends h waits s c a =
    handle-Ends waits s c a (serve h (port_of c.idin.dport) (s.endpoint.mem a))
