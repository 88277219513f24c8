-- ===== src/Conn/Packets.antt =====
-- libCSP/trunk/src/csp_conn.c: the packets and events of a connection, on which the caller of
-- `csp_conn_enqueue_packet` relies to know whose the packet is.
use cubesat_space_protocol.Base.{
  ℕ, zero, suc, ◌+◌, ◌*◌, ◌≤◌, ◌<◌, ◌≡◌, ◌⊎◌, inl, inr, List, [], ◌∷◌, ◌++◌, map, Option, none,
  some, get_or, set, length, length-set, length-map, length-append, ltb, ltb→lt, lt→ltb, Bool-cases,
  Bool, false, true, refl, sym, ◌∙◌, arith,
}
use cubesat_space_protocol.Error.{Error, err_none, err_nomem}
use cubesat_space_protocol.Queue.Fifo.{Fifo, push}
use cubesat_space_protocol.Conn.{
  Conn, freed, no_queue, get_rxq, priorities, rx_queue_length, conn_queue_length, enqueue_packet,
  add_event, flush_rx_queue, emptied, drain,
}

-- The packets in all the queues.
abbrev pub total : List (Fifo ℕ) → ℕ
total [] = 0
total (q ∷ qs) = length q.content + total qs

abbrev pub AllBounded : ℕ → List (Fifo ℕ) → Type 0
AllBounded n [] = Unit
AllBounded n (q ∷ qs) = (q.capacity ≡ n) × (length q.content ≤ n) × AllBounded n qs

-- A queue for each priority, and one event for each packet.
pub record IsFed (c : Conn) : Type 0 where
  pub queues : length c.rx_queue ≡ priorities
  pub bounded : AllBounded rx_queue_length c.rx_queue
  pub room : c.rx_event.capacity ≡ conn_queue_length
  pub balanced : length c.rx_event.content ≡ total c.rx_queue

abbrev pub pushed : Fifo ℕ → ℕ → Fifo ℕ
pushed q x = record q { content = q.content ++ (x ∷ []) }

total-bound : (n : ℕ) (qs : List (Fifo ℕ)) → AllBounded n qs → total qs ≤ n * length qs
total-bound n [] h = omega arith
total-bound n (q ∷ qs) (e, h, hs) = grind (arith, total-bound n qs hs)

room-total :
    (n i : ℕ) (qs : List (Fifo ℕ))
    → AllBounded n qs
    → i < length qs
    → length (get_or qs i no_queue).content < n
    → total qs < n * length qs
room-total n i [] h lt r = elim lt [ ]
room-total n zero (q ∷ qs) (e, h, hs) lt r = grind (arith, total-bound n qs hs)
room-total n (suc i) (q ∷ qs) (e, h, hs) lt r = grind (arith, room-total n i qs hs (omega arith) r)

total-pushed :
    (i : ℕ) (x : ℕ) (qs : List (Fifo ℕ))
    → i < length qs
    → total (set qs i (pushed (get_or qs i no_queue) x)) ≡ total qs + 1
total-pushed i x [] h = elim h [ ]
total-pushed zero x (q ∷ qs) h = omega (arith, length-append q.content (x ∷ []))
total-pushed (suc i) x (q ∷ qs) h = omega (arith, total-pushed i x qs (omega arith))

pushed-bounded :
    (n i x : ℕ) (qs : List (Fifo ℕ))
    → AllBounded n qs
    → length (get_or qs i no_queue).content < n
    → AllBounded n (set qs i (pushed (get_or qs i no_queue) x))
pushed-bounded n i x [] h r = h
pushed-bounded n zero x (q ∷ qs) (e, h, hs) r =
    (e, omega (arith, length-append q.content (x ∷ [])), hs)
pushed-bounded n (suc i) x (q ∷ qs) (e, h, hs) r = (e, h, pushed-bounded n i x qs hs r)

capacity-at :
    (n i : ℕ) (qs : List (Fifo ℕ))
    → AllBounded n qs
    → i < length qs
    → (get_or qs i no_queue).capacity ≡ n
capacity-at n i [] h lt = elim lt [ ]
capacity-at n zero (q ∷ qs) (e, h, hs) lt = e
capacity-at n (suc i) (q ∷ qs) (e, h, hs) lt = capacity-at n i qs hs (omega arith)

-- The packet is queued, told of and the connection still in order; or nothing has changed.
abbrev pub Queued : Conn → ℕ → ℕ → Error × Option Conn → Type 0
Queued c packet pri (e, none) = ⊥
Queued c packet pri (e, some c') =
    ((e ≡ err_none)
      × (c'.rx_queue ≡ set c.rx_queue pri (pushed (get_or c.rx_queue pri no_queue) packet))
      × IsFed c')
    ⊎ ((e ≡ err_nomem) × (c' ≡ c))

-- On a connection in order and for a priority of the protocol, queueing a packet either puts it at the end of the queue of its priority, with an event for it, or says that there is no memory and changes nothing; so on an error the packet is still the caller's. The connection stays in order.
pub enqueue_packet-Queued :
    (c : Conn) (packet pri : ℕ)
    → IsFed c
    → pri < priorities
    → Queued c packet pri (enqueue_packet (some c) (some packet) pri)
unfolding enqueue_packet add_event push
enqueue_packet-Queued c packet pri v h =
    let q = get_or c.rx_queue pri no_queue in
    elim (Bool-cases (ltb (length q.content) q.capacity)) [
      | inl e ↦ rw e (rw (has_event e) (inl (refl, refl, fed e)))
      | inr e ↦ rw e (inr (refl, refl))
    ]
  where
    room_left :
        ltb
            (length (get_or c.rx_queue pri no_queue).content)
            (get_or c.rx_queue pri no_queue).capacity
          ≡ true
        → length (get_or c.rx_queue pri no_queue).content < rx_queue_length
    room_left e = omega (
      arith,
      ltb→lt (length (get_or c.rx_queue pri no_queue).content)
          (get_or c.rx_queue pri no_queue).capacity e,
      capacity-at rx_queue_length pri c.rx_queue v.bounded (omega (arith, h, v.queues)),
    )

    has_event :
        ltb
            (length (get_or c.rx_queue pri no_queue).content)
            (get_or c.rx_queue pri no_queue).capacity
          ≡ true
        → ltb (length c.rx_event.content) c.rx_event.capacity ≡ true
    has_event e = lt→ltb (length c.rx_event.content) c.rx_event.capacity (
        omega (
          arith,
          room-total rx_queue_length pri c.rx_queue v.bounded (omega (arith, h, v.queues))
              (room_left e),
          v.queues,
          v.room,
          v.balanced,
        ))

    fed :
        ltb
            (length (get_or c.rx_queue pri no_queue).content)
            (get_or c.rx_queue pri no_queue).capacity
          ≡ true
        → IsFed (record c {
          rx_queue = set c.rx_queue pri (pushed (get_or c.rx_queue pri no_queue) packet);
          rx_event = record c.rx_event { content = c.rx_event.content ++ (0 ∷ []) };
        })
    fed e = record {
      queues =
          length-set c.rx_queue pri (pushed (get_or c.rx_queue pri no_queue) packet) ∙ v.queues;
      bounded = pushed-bounded rx_queue_length pri packet c.rx_queue v.bounded (room_left e);
      room = v.room;
      balanced = omega (
        arith,
        length-append c.rx_event.content (0 ∷ []),
        total-pushed pri packet c.rx_queue (omega (arith, h, v.queues)),
        v.balanced,
      );
    }

total-emptied : (qs : List (Fifo ℕ)) → total (map emptied qs) ≡ 0
total-emptied [] = refl
total-emptied (q ∷ qs) = omega (arith, total-emptied qs)

emptied-bounded : (n : ℕ) (qs : List (Fifo ℕ)) → AllBounded n qs → AllBounded n (map emptied qs)
emptied-bounded n [] h = h
emptied-bounded n (q ∷ qs) (e, h, hs) = (e, omega arith, emptied-bounded n qs hs)

length-drain : (qs : List (Fifo ℕ)) → length (drain qs) ≡ total qs
unfolding drain
length-drain [] = refl
length-drain (q ∷ qs) = omega (arith, length-append q.content (drain qs), length-drain qs)

-- Emptying the queues of a connection in order keeps it in order, leaves no packet and no event, and gives back to the pool as many packets as there were.
pub flush_rx_queue-empties :
    (c : Conn)
    → IsFed c
    → let (c', es) = flush_rx_queue c in
      IsFed c'
      × (total c'.rx_queue ≡ 0)
      × (c'.rx_event.content ≡ [])
      × (length es ≡ total c.rx_queue)
unfolding flush_rx_queue
flush_rx_queue-empties c v = (
  record {
    queues = length-map c.rx_queue emptied ∙ v.queues;
    bounded = emptied-bounded rx_queue_length c.rx_queue v.bounded;
    room = v.room;
    balanced = sym (total-emptied c.rx_queue);
  },
  total-emptied c.rx_queue,
  refl,
  length-map (drain c.rx_queue) freed ∙ length-drain c.rx_queue,
)

add_event-rdp : (c : Conn) (rxq : ℕ) (r : Bool × Fifo ℕ) → (add_event c rxq r).1.rdp ≡ c.rdp
unfolding add_event
add_event-rdp c rxq (false, q) = refl
add_event-rdp c rxq (true, q) = refl

-- Queuing a packet for the user leaves the transport's part of the connection.
pub enqueue_packet-rdp :
    (c : Conn) (packet : Option ℕ) (pri : ℕ)
    → (c' : Conn) × ((enqueue_packet (some c) packet pri).1 ≡ some c') × (c'.rdp ≡ c.rdp)
unfolding enqueue_packet
enqueue_packet-rdp c none pri = (c, refl, refl)
enqueue_packet-rdp c (some p) pri =
    (_, refl, add_event-rdp c (get_rxq pri) (push (get_or c.rx_queue (get_rxq pri) no_queue) p))
