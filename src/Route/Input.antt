-- ===== src/Route/Input.antt =====
-- libCSP/trunk/src/csp_route.c: the queues in front of the router, with CSP_USE_QOS at 1. A queue
-- element is the interface and the packet, known by their addresses.
pub mod Order
use cubesat_space_protocol.Base.{
  ℕ, zero, suc, ◌+◌, ◌%◌, ◌^◌, List, [], ◌∷◌, Option, none, some, get_or, set, replicate, Bool,
  true, false, if◌then◌else◌,
}
use cubesat_space_protocol.Error.{Error, err_none, err_timedout, err_nobufs, is_none}
use cubesat_space_protocol.Conn.{Effect, freed, priorities}
use cubesat_space_protocol.Queue.Fifo.{Fifo, fresh, push, pop}

-- `csp_route_queue_t`
pub record Element : Type 0 where
  pub interface : ℕ
  pub packet : ℕ

-- The counters of a `csp_iface_t` that the input changes.
pub record Counters : Type 0 where
  pub rx : ℕ
  pub rxbytes : ℕ
  pub drop : ℕ

-- `router_input_fifo` and `router_input_event`
pub record Input : Type 0 where
  pub fifos : List (Fifo Element)
  pub event : Fifo ℕ

-- CSP_FIFO_INPUT
abbrev pub fifo_input : ℕ
fifo_input = 100

-- The queues that `csp_route_table_init` creates, if each of its calls succeeds.
unfoldable pub table_init : Input
table_init = record { fifos = replicate priorities (fresh fifo_input); event = fresh fifo_input }

abbrev pub no_fifo : Fifo Element
no_fifo = record { capacity = 0; content = [] }

-- The event of `csp_route_enqueue`: whether there is room for it is not looked at.
abbrev pub notify : Fifo ℕ → Fifo ℕ
notify events = (push events 0).1

-- `csp_route_enqueue` on `router_input_fifo[fifo]`.
unfoldable pub route_enqueue : Input → ℕ → Element → Error × Input
route_enqueue s fifo value =
    let (queued, q) = push (get_or s.fifos fifo no_fifo) value in
    if queued
    then (err_none, record { fifos = set s.fifos fifo q; event = notify s.event })
    else (err_nobufs, s)

-- `csp_new_packet` behind `csp_route_enqueue`, for a packet of `bytes` bytes.
count_input : ℕ → ℕ → Counters → Error × Input → Input × Counters × List Effect
count_input packet bytes c (e, s) =
    if is_none e
    then (s, record c { rx = (c.rx + 1) % 2 ^ 32; rxbytes = (c.rxbytes + bytes) % 2 ^ 32 }, [])
    else (s, record c { drop = (c.drop + 1) % 2 ^ 32 }, freed packet ∷ [])

-- `csp_new_packet`, for a packet of priority `pri` with `bytes` bytes; NULL is `none`.
unfoldable pub new_packet :
    Input → Option ℕ → ℕ → ℕ → Option ℕ → Counters → Input × Counters × List Effect
unfolding count_input route_enqueue
new_packet s none pri bytes interface c = (s, c, [])
new_packet s (some packet) pri bytes none c = (s, c, freed packet ∷ [])
new_packet s (some packet) pri bytes (some i) c =
    count_input packet bytes c (route_enqueue s pri (record { interface = i; packet = packet }))

-- The loop of `csp_route_next_packet`: the element found, and the queues afterwards.
pub first_queued : List (Fifo Element) → Option (Element × List (Fifo Element))
first_queued [] = none
first_queued (q ∷ qs) =
    let rest = first_queued qs in
    elim (pop q) [
      | some (x, q') ↦ some (x, q' ∷ qs)
      | none ↦ elim rest [ none ↦ none | some (x, qs') ↦ some (x, q ∷ qs') ]
    ]

woken : Option (ℕ × Fifo ℕ) → Input → Error × Option Element × Input
unfolding first_queued
woken none s = (err_timedout, none, s)
woken (some (e, events)) s = elim (first_queued s.fifos) [
  | none ↦ (err_timedout, none, record s { event = events })
  | some (x, qs) ↦ (err_none, some x, record { fifos = qs; event = events })
]

-- `csp_route_next_packet`, with nothing more to come while it waits.
unfoldable pub next_packet : Input → Error × Option Element × Input
unfolding woken
next_packet s = woken (pop s.event) s
