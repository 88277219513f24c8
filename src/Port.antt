-- ===== src/Port.antt =====
-- libCSP/trunk/src/csp_port.c and csp_port.h: the table of bound ports. A socket is known by a
-- number, its address.
pub mod Binding
mod Tests
use cubesat_space_protocol.Base.{
  ℕ, ◌+◌, ◌≤◌, ◌<◌, ◌≡◌, List, Option, none, some, get_or, set, length, replicate, ltb,
  if◌then◌else◌, Bool, true, false, not,
}
use cubesat_space_protocol.Error.{Error, err_none, err_nomem, err_inval, err_used}

-- CSP_MAX_BIND_PORT and CSP_ANY
abbrev pub max_bind_port : ℕ
max_bind_port = 15

abbrev pub any : ℕ
any = max_bind_port + 1

-- `csp_port_state_t` and `csp_port_t`
pub data State : Type 0 where
  closed opened : State

pub record Port : Type 0 where
  pub state : State
  pub socket : Option ℕ

abbrev pub cleared : Port
cleared = record { state = closed; socket = none }

abbrev pub is_open : State → Bool
is_open opened = true
is_open closed = false

abbrev pub entry : List Port → ℕ → Port
entry ports i = get_or ports i cleared

-- `csp_port_init`
pub init : List Port
init = replicate (max_bind_port + 2) cleared

-- `csp_port_get_socket`
unfoldable pub get_socket : List Port → ℕ → Option ℕ
get_socket ports port =
    if ltb any port
    then none
    else if is_open (entry ports port).state
    then (entry ports port).socket
    else if is_open (entry ports any).state
    then (entry ports any).socket
    else none

-- `csp_bind`: the result and the table after the call.
pub bind : List Port → ℕ → ℕ → Error × List Port
bind ports socket port =
    if ltb any port
    then (err_inval, ports)
    else if is_open (entry ports port).state
    then (err_used, ports)
    else (err_none, set ports port (record { state = opened; socket = some socket }))

-- `csp_socket_t`; a queue handle is a number too.
pub record Socket : Type 0 where
  pub queue : Option ℕ
  pub opts : ℕ

-- `csp_listen`, given what `csp_queue_create` returns.
pub listen : Option Socket → Option ℕ → Error × Option Socket
listen none created = (err_inval, none)
listen (some s) none = (err_nomem, some (record s { queue = none }))
listen (some s) (some q) = (err_none, some (record s { queue = some q }))

-- The table has all its entries, and an open one has a socket.
pub record IsTable (ports : List Port) : Type 0 where
  pub full : length ports ≡ max_bind_port + 2
