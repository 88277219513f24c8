-- ===== src/Io/Transactions/Bounds.antt =====
-- libCSP/trunk/src/csp_io.c: what a transaction writes to the user's buffer, and whose the packets are
-- behind it.
use cubesat_space_protocol.Base.{
  ℕ, ◌≡◌, ◌≢◌, List, Option, none, some, length, take, blit, Bool, true, false,
}
use cubesat_space_protocol.Transport.{Endpoint, act, write, given_back, buffer_get}
use cubesat_space_protocol.Io.{Station, set_endpoint}
use cubesat_space_protocol.Io.Read.{read}
use cubesat_space_protocol.Io.Calls.{Waits, send}
use cubesat_space_protocol.Io.Transactions.{Transaction, over, as_request}

module _ (waits : Waits) (s : Station) (outbuf : Option (List ℕ)) (outlen : ℕ) where
  -- The request, in the buffer `a` that the pool has given, and what `csp_send` has made of it.
  abbrev pub Asked : ℕ → Bool × Station → Type 0
  Asked a r =
      (w : Endpoint) × (buffer_get s.endpoint ≡ (some a, w))
      × (send waits (set_endpoint s (write w a (as_request (w.mem a) outbuf outlen))) (some w.conn)
            (some a)
          ≡ r)

  -- What `csp_read` has come to behind a request that was sent.
  abbrev pub Heard : Option ℕ × Station → Type 0
  Heard r =
      (a : ℕ) × (s' : Station) × Asked a (true, s')
      × (read waits.rx_event s' (some s'.endpoint.conn) ≡ r)

  -- The ways in which a transaction for a reply of `m` bytes ends.
  pub data Exchange (inbuf : List ℕ) (m : ℕ) : Transaction → Type 0 where
    no_buffer :
        {w : Endpoint}
        → buffer_get s.endpoint ≡ (none, w)
        → Exchange inbuf m (over 0 inbuf (set_endpoint s w))
    unsent :
        (a : ℕ) (s' : Station)
        → Asked a (false, s')
        → Exchange inbuf m (over 0 inbuf (set_endpoint s' (act s'.endpoint (given_back a))))
    unanswered :
        (a : ℕ) (s' : Station) → m ≡ 0 → Asked a (true, s') → Exchange inbuf m (over 1 inbuf s')
    no_reply : (s'' : Station) → m ≢ 0 → Heard (none, s'') → Exchange inbuf m (over 0 inbuf s'')
    wrong_length :
        (a : ℕ) (s'' : Station)
        → m ≢ 0
        → Heard (some a, s'')
        → (s''.endpoint.mem a).length ≢ m
        → Exchange inbuf m (over 0 inbuf (set_endpoint s'' (act s''.endpoint (given_back a))))
    replied :
        (a : ℕ) (s'' : Station)
        → m ≢ 0
        → Heard (some a, s'')
        → (s''.endpoint.mem a).length ≡ m
        → Exchange inbuf m (
            over m
              (blit inbuf 0 (take m (s''.endpoint.mem a).contents))
              (set_endpoint s'' (act s''.endpoint (given_back a))))
