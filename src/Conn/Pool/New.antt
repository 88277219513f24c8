-- ===== src/Conn/Pool/New.antt =====
-- libCSP/trunk/src/csp_conn.c: the connections that `csp_conn_new` gives out.
use cubesat_space_protocol.Base.{
  ℕ, zero, suc, ◌∷◌, ◌++◌, map, get_elem?, set, ap, ◌∙◌, ◌<◌, ◌≡◌, ◌≢◌, List, [], Option, none,
  some, length, true, false, refl, arith,
}
use mathlib.Core.Option.{some-injective}
use cubesat_space_protocol.Header.{PacketId}
use cubesat_space_protocol.Queue.Fifo.{Fifo}
use cubesat_space_protocol.Conn.{
  Conn, Effect, freed, opened, is_closed, drain, emptied, flush_rx_queue,
}
use cubesat_space_protocol.Conn.Pool.{Connections, closed_at, update, fill, flushed_at, new}
use cubesat_space_protocol.Conn.Pool.Filled.{IsConnections, Filled, new-Filled}

-- The packets in the queues of the user, one queue after the other.
abbrev pub unread : List (Fifo ℕ) → List ℕ
unread [] = []
unread (q ∷ qs) = q.content ++ unread qs

-- Connection `c'` is `c` given out anew: open, with the identifiers and the time, told to no socket, and
-- with nothing for its user to read.
pub record Opened (idin idout : PacketId) (now : ℕ) (c c' : Conn) : Type 0 where
  pub state : c'.state ≡ opened
  pub idin_is : c'.idin ≡ idin
  pub idout_is : c'.idout ≡ idout
  pub timestamp : c'.timestamp ≡ now
  pub rx_socket : c'.rx_socket ≡ none
  pub no_packets : unread c'.rx_queue ≡ []
  pub no_events : c'.rx_event.content ≡ []
  pub queues : length c'.rx_queue ≡ length c.rx_queue
  pub conn_opts : c'.conn_opts ≡ c.conn_opts
  pub rdp : c'.rdp ≡ c.rdp

-- What `new` may come to: a connection that was closed, opened, and everything else kept; or
-- nothing, and every connection but the one given last is in use.
abbrev pub Given :
    PacketId → PacketId → ℕ → Connections → Option ℕ × Connections × List Effect → Type 0
Given idin idout now p (some i, p', es) =
    ((c : Conn) × (c' : Conn) × (get_elem? p.arr_conn i ≡ some c)
      × (is_closed c.state ≡ true)
      × (p'.arr_conn ≡ set p.arr_conn i c')
      × Opened idin idout now c c'
      × (es ≡ map freed (unread c.rx_queue)))
    × (p'.last_given ≡ i)
Given idin idout now p (none, p', es) =
    (p' ≡ p)
    × (es ≡ [])
    × ((j : ℕ) → j < length p.arr_conn → j ≢ p.last_given → closed_at p.arr_conn j ≡ false)

drain-unread : (qs : List (Fifo ℕ)) → drain qs ≡ unread qs
unfolding drain
drain-unread [] = refl
drain-unread (q ∷ qs) = ap (λ l. q.content ++ l) (drain-unread qs)

emptied-unread :
    (qs : List (Fifo ℕ)) → (unread (map emptied qs) ≡ []) × (length (map emptied qs) ≡ length qs)
emptied-unread [] = (refl, refl)
emptied-unread (q ∷ qs) = let (empty, size) = emptied-unread qs in (empty, ap suc size)

fill-Opened :
    (idin idout : PacketId) (now : ℕ) (c : Conn) → Opened idin idout now c (fill idin idout now c)
unfolding flush_rx_queue
fill-Opened idin idout now c =
    let (empty, size) = emptied-unread c.rx_queue in
    record {
      state = refl;
      idin_is = refl;
      idout_is = refl;
      timestamp = refl;
      rx_socket = refl;
      no_packets = empty;
      no_events = refl;
      queues = size;
      conn_opts = refl;
      rdp = refl;
    }

update-set :
    (f : Conn → Conn) (cs : List Conn) (i : ℕ) {c : Conn}
    → get_elem? cs i ≡ some c
    → update cs i f ≡ set cs i (f c)
update-set f [] i e = cc
update-set f (d ∷ cs) zero e = ap (λ x. f x ∷ cs) (some-injective _ _ e)
update-set f (d ∷ cs) (suc i) e = ap (◌∷◌ d) (update-set f cs i e)

-- The connection at a place that is closed.
found_closed :
    (o : Option Conn)
    → elim o [ none ↦ false | some c ↦ is_closed c.state ] ≡ true
    → (c : Conn) × (o ≡ some c) × (is_closed c.state ≡ true)
found_closed none e = absurd (ground (arith, e))
found_closed (some c) e = (c, refl, e)

given_out :
    (idin idout : PacketId) (now i : ℕ) (cs : List Conn)
    → closed_at cs i ≡ true
    → (c : Conn) × (c' : Conn) × (get_elem? cs i ≡ some c)
      × (is_closed c.state ≡ true)
      × (update cs i (fill idin idout now) ≡ set cs i c')
      × Opened idin idout now c c'
      × (flushed_at cs i ≡ map freed (unread c.rx_queue))
unfolding flush_rx_queue
given_out idin idout now i cs e =
    let (c, at, closed_) = found_closed (get_elem? cs i) e in
    (
      c,
      fill idin idout now c,
      at,
      closed_,
      update-set (fill idin idout now) cs i at,
      fill-Opened idin idout now c,
      ap (λ (o : Option Conn). elim o [ none ↦ [] | some d ↦ (flush_rx_queue d).1 ]) at
          ∙ ap (map freed) (drain-unread c.rx_queue),
    )

Filled-Given :
    (idin idout : PacketId) (now : ℕ) (p : Connections) (r : Option ℕ × Connections × List Effect)
    → Filled idin idout now p r
    → Given idin idout now p r
Filled-Given idin idout now p (some i, p', es) (closed_, arr, last, lt, out) =
    let (c, c', at, was, is, opens, flushed) = given_out idin idout now i p.arr_conn closed_ in
    ((c, c', at, was, arr ∙ is, opens, out ∙ flushed), last)
Filled-Given idin idout now p (none, p', es) h = h

-- With the lock taken and from 2 to 256 connections, a new connection is one that was closed, and is now open, with the identifiers and the time given, without a socket to be told, and with nothing for its user to read; the packets that it still had in its user's queues are given back to the pool; all other connections are kept, and it is the last one given. If there is none, nothing has changed and every connection but the last one given is in use.
pub new-Given :
    (now : ℕ) (p : Connections) (idin idout : PacketId)
    → IsConnections p
    → Given idin idout now p (new true now p idin idout)
new-Given now p idin idout v =
    Filled-Given idin idout now p (new true now p idin idout) (new-Filled now p idin idout v)
