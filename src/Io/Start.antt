-- ===== src/Io/Start.antt =====
-- libCSP/trunk/src/csp_io.c: `csp_init`; with `csp_conn_init` of libCSP/trunk/src/csp_conn.c, with
-- CSP_RANDOMIZE_EPHEM at 1.
pub mod Loops
pub mod Ready
use cubesat_space_protocol.Base.{
  ℕ, ◌+◌, ◌-◌, ◌%◌, ◌^◌, List, [], ◌∷◌, map, Option, none, some, replicate, Bool, true, false,
  if◌then◌else◌,
}
use cubesat_space_protocol.Error.{Error, err_none, err_nomem, is_none}
use cubesat_space_protocol.Header.{default_route, port_max}
use cubesat_space_protocol.Queue.Fifo.{Fifo, fresh}
use cubesat_space_protocol.Port
use cubesat_space_protocol.Port.{Port, max_bind_port}
use cubesat_space_protocol.Conn.{Conn, Rdp, closed, rx_queue_length, conn_queue_length}
use cubesat_space_protocol.Route.{Routing, no_route, route_set}
use cubesat_space_protocol.Route.Input.{table_init}
use cubesat_space_protocol.Transport.{Options}
use cubesat_space_protocol.Transport.Client.{rdp_allocate}
use cubesat_space_protocol.Io.{Station, if_lo}

-- The outcomes for one connection: the receive queues, one for each of the CSP_RX_QUEUES priorities, the
-- queue of events, the lock, the semaphore and the two queues of its transport.
pub record Created : Type 0 where
  pub rx_fifos : List Bool
  pub rx_event : Bool
  pub lock : Bool
  pub tx_wait : Bool
  pub tx_queue : Bool
  pub rx_queue : Bool

-- A connection while it is set up: what its pointers `rx_queue` and `rx_event` hold; NULL is `none`. The
-- other fields are those of `conn`, whose own queues mean nothing.
pub record Prepared : Type 0 where
  pub conn : Conn
  pub rx_queue : List (Option (Fifo ℕ))
  pub rx_event : Option (Fifo ℕ)

-- `csp_queue_create`, with its outcome.
abbrev pub queue_create : ℕ → Bool → Option (Fifo ℕ)
queue_create length true = some (fresh length)
queue_create length false = none

-- The results of `csp_queue_create` are not looked at.
abbrev queued : Created → Prepared → Prepared
queued made c = record {
  conn = record c.conn { state = closed };
  rx_queue = map (queue_create rx_queue_length) made.rx_fifos;
  rx_event = queue_create conn_queue_length made.rx_event;
}

allocate_for : Options → Created → Prepared → Error × Prepared
allocate_for o made c =
    let (e, r) = rdp_allocate made.tx_wait made.tx_queue made.rx_queue o c.conn.rdp in
    if made.lock then (e, record c { conn = record c.conn { rdp = r } }) else (err_nomem, c)

then_rest : Error × Prepared → List Prepared → Error × List Prepared → Error × List Prepared
then_rest (e, c) cs (e', cs') = if is_none e then (e', c ∷ cs') else (e, c ∷ cs)

-- The loop over `arr_conn`.
init_each : Options → List (Created × Prepared) → Error × List Prepared
unfolding allocate_for then_rest
init_each o [] = (err_none, [])
init_each o ((made, c) ∷ cs) =
    then_rest (allocate_for o made (queued made c)) (map (λ t. t.1) cs) (init_each o cs)

-- `arr_conn` and `sport`.
pub record Started : Type 0 where
  pub arr_conn : List Prepared
  pub sport : ℕ

behind_each : Bool → ℕ → Error × List Prepared → Error × Started
behind_each true sport (err_none, made) = (err_none, record { arr_conn = made; sport = sport })
behind_each false sport (err_none, made) = (err_nomem, record { arr_conn = made; sport = sport })
behind_each conn_lock sport (e, made) = (e, record { arr_conn = made; sport = sport })

-- `csp_conn_init`, with the outcomes of the creations of the two locks and of what each connection
-- needs, and what `rand` gives.
unfoldable pub conn_init : Bool → Bool → ℕ → Options → List (Created × Prepared) → Error × Started
unfolding init_each behind_each
conn_init sport_lock conn_lock rand o cs =
    let sport = (rand % (port_max - max_bind_port) + (max_bind_port + 1)) % 2 ^ 8 in
    if sport_lock
    then behind_each conn_lock sport (init_each o cs)
    else (err_nomem, record { arr_conn = map (λ t. t.1) cs; sport = sport })

-- The parts of a node that `csp_init` sets up.
pub record System : Type 0 where
  pub station : Station
  pub started : Started
  pub ports : List Port

-- `csp_route_table_init` if each of its creations succeeds, and the route of the node to itself. The
-- checksum's table is a constant of the model.
abbrev routed : Station → Station
routed s =
    let cleared : Routing = record s.routing { routes = replicate (default_route + 1) no_route } in
    record s { routing = route_set cleared s.my_address (some if_lo) 0xff; input = table_init }

with_table : Bool → Station → Error × Station
with_table false s = (err_nomem, s)
with_table true s = (err_none, routed s)

behind_conns : Bool → Station → List Port → Error × Started → Error × System
unfolding with_table
behind_conns table s ports (e, started) =
    let (e', s') = with_table table s in
    if is_none e
    then (e', record { station = s'; started = started; ports = Port.init })
    else (e, record { station = s; started = started; ports = ports })

-- The outcomes of all the creations, `table` being whether those of `csp_route_table_init` succeed
-- (if not, what it has cleared is not followed).
pub record Creations : Type 0 where
  pub sport_lock : Bool
  pub conn_lock : Bool
  pub conns : List (Created × Prepared)
  pub table : Bool

-- `csp_init` for the node's address.
unfoldable pub csp_init : Creations → ℕ → Options → Station → List Port → ℕ → Error × System
unfolding behind_conns conn_init
csp_init made rand o s ports address =
    behind_conns made.table (record s { my_address = address % 2 ^ 8 }) ports
      (conn_init made.sport_lock made.conn_lock rand o made.conns)
