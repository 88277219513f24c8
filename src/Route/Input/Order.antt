-- ===== src/Route/Input/Order.antt =====
-- libCSP/trunk/src/csp_route.c: no packet is lost at the router's input, and the most urgent one is
-- routed first.
use cubesat_space_protocol.Base.{
  ℕ, zero, suc, ◌+◌, ◌%◌, ◌^◌, ◌≤◌, ◌<◌, ◌≡◌, ◌⊎◌, inl, inr, List, [], ◌∷◌, ◌++◌, Option, none,
  some, get_or, set, length, length-append, ltb, ltb→lt, lt→ltb, ltb-false, Bool-cases, Bool, true,
  false, refl, ap, arith, if◌then◌else◌,
}
use cubesat_space_protocol.Error.{Error, err_none, err_timedout}
use cubesat_space_protocol.Conn.{Effect, freed}
use cubesat_space_protocol.Queue.Fifo.{Fifo, push, pop}
use cubesat_space_protocol.Route.Input.{
  Element, Counters, Input, no_fifo, notify, route_enqueue, count_input, new_packet, first_queued,
  woken, next_packet,
}

-- The packets in all the queues.
abbrev pub queued_in : List (Fifo Element) → ℕ
queued_in [] = 0
queued_in (q ∷ qs) = length q.content + queued_in qs

abbrev pub queued : Input → ℕ
queued s = queued_in s.fifos

-- The router is never told of more packets than there are.
abbrev pub IsNotified : Input → Type 0
IsNotified s = length s.event.content ≤ queued s

pub queued-set :
    (i : ℕ) (x : Element) (qs : List (Fifo Element))
    → i < length qs
    → queued_in (
        set qs i
          (record (get_or qs i no_fifo) { content = (get_or qs i no_fifo).content ++ (x ∷ []) }))
      ≡ queued_in qs + 1
queued-set i x [] h = elim h [ ]
queued-set zero x (q ∷ qs) h = omega (arith, length-append q.content (x ∷ []))
queued-set (suc i) x (q ∷ qs) h = omega (arith, queued-set i x qs (omega arith))

pushed_if : (room : Bool) (events : Fifo ℕ) → Bool × Fifo ℕ
pushed_if room events =
    if room then (true, record events { content = events.content ++ (0 ∷ []) }) else (false, events)

pushed_if-adds :
    (room : Bool) (events : Fifo ℕ)
    → length (pushed_if room events).1.content ≤ length events.content + 1
unfolding pushed_if
pushed_if-adds true events = omega (arith, length-append events.content (0 ∷ []))
pushed_if-adds false events = omega arith

notify-adds : (events : Fifo ℕ) → length (notify events).content ≤ length events.content + 1
unfolding push pushed_if
notify-adds events = pushed_if-adds (ltb (length events.content) events.capacity) events

-- The element is now the last one in the queue of its priority, which had room; and all other queues are
-- as before.
abbrev pub Queued : Input → ℕ → Element → Input → Type 0
Queued s pri x s' =
    let q = get_or s.fifos pri no_fifo in
    (length q.content < q.capacity)
    × (s'.fifos ≡ set s.fifos pri (record q { content = q.content ++ (x ∷ []) }))

abbrev pub IsFull : Input → ℕ → Type 0
IsFull s pri = let q = get_or s.fifos pri no_fifo in q.capacity ≤ length q.content

-- The packet is queued and counted as received, or given back and counted as dropped.
abbrev pub Entered : Input → ℕ → ℕ → ℕ → ℕ → Counters → Input × Counters × List Effect → Type 0
Entered s packet pri bytes i c (s', c', es) =
    (Queued s pri (record { interface = i; packet = packet }) s'
      × (c' ≡ record c { rx = (c.rx + 1) % 2 ^ 32; rxbytes = (c.rxbytes + bytes) % 2 ^ 32 })
      × (es ≡ []))
    ⊎ (IsFull s pri
        × (s' ≡ s)
        × (c' ≡ record c { drop = (c.drop + 1) % 2 ^ 32 })
        × (es ≡ freed packet ∷ []))

-- A packet of any priority.
pub new_packet-Entered :
    (s : Input) (packet pri bytes interface : ℕ) (c : Counters)
    → Entered s packet pri bytes interface c
        (new_packet s (some packet) pri bytes (some interface) c)
unfolding new_packet count_input route_enqueue push
new_packet-Entered s packet pri bytes interface c =
    let q = get_or s.fifos pri no_fifo in
    elim (Bool-cases (ltb (length q.content) q.capacity)) [
      | inl e ↦ rw e (inl ((ltb→lt (length q.content) q.capacity e, refl), refl, refl))
      | inr e ↦ rw e (inr (ground (arith, e), refl, refl, refl))
    ]

-- The packet is accounted for.
abbrev pub Accounted : Input → ℕ → ℕ → ℕ → ℕ → Counters → Input × Counters × List Effect → Type 0
Accounted s packet pri bytes i c (s', c', es) =
    IsNotified s' × Entered s packet pri bytes i c (s', c', es)

-- A packet that comes in from an interface, of a priority that has a queue, is put last in the queue of its priority, with its interface, if that has room, all other queues being as before, and counted as received; or, if that queue is full, it is given back to the pool and counted as dropped, with all queues as before; and there are never more events than packets.
pub new_packet-Accounted :
    (s : Input) (packet pri bytes interface : ℕ) (c : Counters)
    → IsNotified s
    → pri < length s.fifos
    → Accounted s packet pri bytes interface c
        (new_packet s (some packet) pri bytes (some interface) c)
unfolding new_packet count_input route_enqueue push
new_packet-Accounted s packet pri bytes interface c v h =
    let q = get_or s.fifos pri no_fifo in
    let x : Element = record { interface = interface; packet = packet } in
    elim (Bool-cases (ltb (length q.content) q.capacity)) [
      | inl e ↦ rw e (
        omega (arith, v, notify-adds s.event, queued-set pri x s.fifos h),
        inl ((ltb→lt (length q.content) q.capacity e, refl), refl, refl),
      )
      | inr e ↦ rw e (v, inr (ground (arith, e), refl, refl, refl))
    ]

-- `x` was the oldest element of the first queue that had any, and only it is gone.
abbrev pub TakenFirst : List (Fifo Element) → Element → List (Fifo Element) → Type 0
TakenFirst [] x qs' = ⊥
TakenFirst (q ∷ qs) x [] = ⊥
TakenFirst (q ∷ qs) x (q' ∷ qs') =
    ((q.content ≡ x ∷ q'.content) × (qs' ≡ qs))
    ⊎ ((q.content ≡ []) × (q' ≡ q) × TakenFirst qs x qs')

abbrev pub FirstQueued : List (Fifo Element) → Option (Element × List (Fifo Element)) → Type 0
FirstQueued qs none = queued_in qs ≡ 0
FirstQueued qs (some (x, qs')) = TakenFirst qs x qs' × (queued_in qs' + 1 ≡ queued_in qs)

behind :
    (q : Fifo Element) (qs : List (Fifo Element)) (r : Option (Element × List (Fifo Element)))
    → q.content ≡ []
    → FirstQueued qs r
    → FirstQueued (q ∷ qs) (elim r [ none ↦ none | some (x, qs') ↦ some (x, q ∷ qs') ])
behind q qs none e h = omega (arith, h, ap length e)
behind q qs (some (x, qs')) e (t, n) = (inr (e, refl, t), omega (arith, n))

front :
    (n : ℕ) (l : List Element) (qs : List (Fifo Element))
    → FirstQueued qs (first_queued qs)
    → FirstQueued
        (record { capacity = n; content = l } ∷ qs)
        (first_queued (record { capacity = n; content = l } ∷ qs))
unfolding first_queued pop
front n [] qs h = behind (record { capacity = n; content = [] }) qs (first_queued qs) refl h
front n (x ∷ xs) qs h = (inl (refl, refl), omega arith)

first_queued-FirstQueued : (qs : List (Fifo Element)) → FirstQueued qs (first_queued qs)
unfolding first_queued pop
first_queued-FirstQueued [] = refl
first_queued-FirstQueued (q ∷ qs) = front q.capacity q.content qs (first_queued-FirstQueued qs)

abbrev pub Next : Input → Error × Option Element × Input → Type 0
Next s (e, none, s') = (e ≡ err_timedout) × (s.event.content ≡ []) × (s' ≡ s)
Next s (e, some x, s') =
    (e ≡ err_none) × TakenFirst s.fifos x s'.fifos × (queued s' + 1 ≡ queued s) × IsNotified s'

awake :
    (s : Input) (e : ℕ) (events : Fifo ℕ) (r : Option (Element × List (Fifo Element)))
    → s.event.content ≡ e ∷ events.content
    → IsNotified s
    → FirstQueued s.fifos r
    → Next s (elim r [
      | none ↦ (err_timedout, none, record s { event = events })
      | some (x, qs) ↦ (err_none, some x, record { fifos = qs; event = events })
    ])
awake s e events none told v h = absurd (omega (arith, v, h, ap length told))
awake s e events (some (x, qs)) told v (t, n) = (refl, t, n, omega (arith, v, n, ap length told))

asked :
    (n : ℕ) (l : List ℕ) (fifos : List (Fifo Element))
    → let s : Input = record { fifos = fifos; event = record { capacity = n; content = l } } in
      IsNotified s → Next s (next_packet s)
unfolding next_packet woken pop
asked n [] fifos v = (refl, refl, refl)
asked n (e ∷ es) fifos v =
    awake (record { fifos = fifos; event = record { capacity = n; content = e ∷ es } }) e
      (record { capacity = n; content = es }) (first_queued fifos) refl v
      (first_queued-FirstQueued fifos)

-- While there are no more events than packets, the router gets a packet whenever there is an event, and it is the oldest one of the most urgent priority that has any; without an event it gets none and the queues are as before.
pub next_packet-Next : (s : Input) → IsNotified s → Next s (next_packet s)
next_packet-Next s v = asked s.event.capacity s.event.content s.fifos v

-- If the event queue is full when a packet comes in that still has room, the packet is queued and counted as received, but the router is not told of it.
pub new_packet-untold :
    (s : Input) (packet pri bytes interface : ℕ) (c : Counters)
    → s.event.capacity ≤ length s.event.content
    → length (get_or s.fifos pri no_fifo).content < (get_or s.fifos pri no_fifo).capacity
    → pri < length s.fifos
    → let (s', c', es) = new_packet s (some packet) pri bytes (some interface) c in
      (queued s' ≡ queued s + 1) × (s'.event ≡ s.event) × (es ≡ [])
unfolding new_packet count_input route_enqueue push
new_packet-untold s packet pri bytes interface c full room h =
    let q = get_or s.fifos pri no_fifo in
    rw (lt→ltb (length q.content) q.capacity room) (
      queued-set pri (record { interface = interface; packet = packet }) s.fifos h,
      rw (ltb-false (length s.event.content) s.event.capacity full) refl,
      refl,
    )
