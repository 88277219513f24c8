-- ===== src/Io/Read/Urgent.antt =====
-- libCSP/trunk/src/csp_io.c: which packet `csp_read` gives the user.
use cubesat_space_protocol.Base.{
  ℕ, ◌+◌, ◌≡◌, ◌⊎◌, inl, inr, List, [], ◌∷◌, Option, none, some, length, false, if_cases, refl, sym,
  ◌∙◌, subst, ap, arith,
}
use cubesat_space_protocol.Header.{has, frdp}
use cubesat_space_protocol.Queue.Fifo.{Fifo, pop}
use cubesat_space_protocol.Conn.{Conn, is_closed, rx_queue_length}
use cubesat_space_protocol.Conn.Packets.{IsFed, total, AllBounded}
use cubesat_space_protocol.Transport.Acks.{check_ack}
use cubesat_space_protocol.Transport.Acks.Untouched.{check_ack-Untouched}
use cubesat_space_protocol.Transport.Control.Untouched.{Untouched, Untouched-refl}
use cubesat_space_protocol.Io.{Station, set_endpoint}
use cubesat_space_protocol.Io.Read.{set_conn, first_packet, with_ack, read_queues, read_event, read}

-- `x` was the oldest packet of the first queue that had any, and only it is gone.
abbrev pub MostUrgent : List (Fifo ℕ) → ℕ → List (Fifo ℕ) → Type 0
MostUrgent [] x qs' = ⊥
MostUrgent (q ∷ qs) x [] = ⊥
MostUrgent (q ∷ qs) x (q' ∷ qs') =
    ((q.content ≡ x ∷ q'.content) × (q'.capacity ≡ q.capacity) × (qs' ≡ qs))
    ⊎ ((q.content ≡ []) × (q' ≡ q) × MostUrgent qs x qs')

-- What the loop over the queues comes to, each of which has room for `n`.
abbrev Taken : ℕ → List (Fifo ℕ) → Option ℕ × List (Fifo ℕ) → Type 0
Taken n qs (none, qs') = total qs ≡ 0
Taken n qs (some x, qs') =
    MostUrgent qs x qs'
    × (total qs' + 1 ≡ total qs)
    × (length qs' ≡ length qs)
    × (AllBounded n qs → AllBounded n qs')

abbrev stepped : Fifo ℕ → Option ℕ × List (Fifo ℕ) → Option (ℕ × Fifo ℕ) → Option ℕ × List (Fifo ℕ)
stepped q (packet, qs') popped = elim popped [
  | some (x, q') ↦ (some x, q' ∷ qs')
  | none ↦ (packet, q ∷ qs')
]

behind :
    (n : ℕ) (q : Fifo ℕ) (qs : List (Fifo ℕ)) (r : Option ℕ × List (Fifo ℕ))
    → q.content ≡ []
    → Taken n qs r
    → Taken n (q ∷ qs) (r.0, q ∷ r.1)
behind n q qs (none, qs') e h = omega (arith, h, ap length e)
behind n q qs (some x, qs') e (urgent, fewer, size, keeps) =
    (inr (e, refl, urgent), omega (arith, fewer), omega (arith, size), λ b. (b.0, b.1, keeps b.2))

front :
    (n m : ℕ) (l : List ℕ) (qs : List (Fifo ℕ))
    → Taken n qs (first_packet qs)
    → Taken n
        (record { capacity = m; content = l } ∷ qs)
        (first_packet (record { capacity = m; content = l } ∷ qs))
unfolding first_packet pop
front n m [] qs h = behind n (record { capacity = m; content = [] }) qs (first_packet qs) refl h
front n m (x ∷ xs) qs h =
    (inl (refl, refl, refl), omega arith, refl, λ b. (b.0, omega (arith, b.1), b.2))

first_packet-Taken : (n : ℕ) (qs : List (Fifo ℕ)) → Taken n qs (first_packet qs)
unfolding first_packet
first_packet-Taken n [] = refl
first_packet-Taken n (q ∷ qs) = front n q.capacity q.content qs (first_packet-Taken n qs)

with_ack-Untouched : (s : Station) → Untouched s.endpoint (with_ack s).endpoint
unfolding with_ack
with_ack-Untouched s =
    if_cases (λ (s' : Station). Untouched s.endpoint s'.endpoint)
      (has s.endpoint.conn.idin.flags frdp) (set_endpoint s (check_ack s.endpoint)) s
      (λ e. check_ack-Untouched s.endpoint) (λ e. Untouched-refl s.endpoint)

-- What a read comes to, where `c` is the connection when the wait is over.
abbrev pub Delivered : Conn → Option ℕ × Station → Type 0
Delivered c (none, s) = (total c.rx_queue ≡ 0) × IsFed s.endpoint.conn
Delivered c (some x, s) = MostUrgent c.rx_queue x s.endpoint.conn.rx_queue × IsFed s.endpoint.conn

queues-Delivered :
    (s : Station) (event : ℕ) (events : Fifo ℕ) (r : Option ℕ × List (Fifo ℕ))
    → s.endpoint.conn.rx_event.content ≡ event ∷ events.content
    → events.capacity ≡ s.endpoint.conn.rx_event.capacity
    → IsFed s.endpoint.conn
    → Taken rx_queue_length s.endpoint.conn.rx_queue r
    → Delivered s.endpoint.conn (read_queues s events r)
unfolding read_queues
queues-Delivered s event events (none, qs) told room v t =
    absurd (omega (arith, t, v.balanced, ap length told))
queues-Delivered s event events (some x, qs) told room v (urgent, fewer, size, keeps) =
    let c : Conn = record s.endpoint.conn { rx_event = events; rx_queue = qs } in
    let u = with_ack-Untouched (set_conn s c) in
    (subst (MostUrgent s.endpoint.conn.rx_queue x) (sym u.rx_queue) urgent, fed u)
  where
    fed :
        Untouched
          (record s.endpoint { conn = record s.endpoint.conn { rx_event = events; rx_queue = qs } })
          (with_ack
            (set_conn s (record s.endpoint.conn { rx_event = events; rx_queue = qs }))).endpoint
        → IsFed
            (with_ack (
              set_conn s
                (record s.endpoint.conn { rx_event = events; rx_queue = qs }))).endpoint.conn
    fed u = record {
      queues = ap length u.rx_queue ∙ size ∙ v.queues;
      bounded = subst (AllBounded rx_queue_length) (sym u.rx_queue) (keeps v.bounded);
      room = ap (λ (f : Fifo ℕ). f.capacity) u.rx_event ∙ room ∙ v.room;
      balanced = omega (
        arith,
        ap (λ (f : Fifo ℕ). length f.content) u.rx_event,
        ap total u.rx_queue,
        fewer,
        v.balanced,
        ap length told,
      );
    }

event_popped :
    (s : Station) (n : ℕ) (l : List ℕ)
    → s.endpoint.conn.rx_event ≡ record { capacity = n; content = l }
    → IsFed s.endpoint.conn
    → Delivered s.endpoint.conn (read_event s (pop (record { capacity = n; content = l })))
unfolding read_event pop
event_popped s n [] e v = (omega (arith, v.balanced, ap (λ (f : Fifo ℕ). length f.content) e), v)
event_popped s n (x ∷ xs) e v =
    queues-Delivered s x (record { capacity = n; content = xs })
      (first_packet s.endpoint.conn.rx_queue) (ap (λ (f : Fifo ℕ). f.content) e)
      (sym (ap (λ (f : Fifo ℕ). f.capacity) e)) v
      (first_packet-Taken rx_queue_length s.endpoint.conn.rx_queue)

-- A read from an open connection whose queues are in order when the wait is over gives the oldest packet of the most urgent priority that has any, takes only that and its event, and leaves the queues in order, also where an acknowledgement is sent for it; it gives none only if no packet is there.
pub read-Delivered :
    (wait : Station → Station) (s : Station) (c : Conn)
    → is_closed c.state ≡ false
    → IsFed (wait (set_conn s c)).endpoint.conn
    → Delivered (wait (set_conn s c)).endpoint.conn (read wait s (some c))
unfolding read
read-Delivered wait s c live v = rw live (event_popped (wait (set_conn s c)) _ _ refl v)
