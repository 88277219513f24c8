-- ===== src/Port/Binding.antt =====
-- Binding a port makes its socket the one that packets to the port find, and moves no other.
use cubesat_space_protocol.Base.{
  ℕ, ◌≤◌, ◌<◌, ◌≡◌, ◌≢◌, ◌⊎◌, List, some, length-set, get_or-set_self, get_or-set_ne, arith,
}
use cubesat_space_protocol.Error.{Error, err_none, err_inval, err_used}
use cubesat_space_protocol.Port.{
  any, closed, opened, Port, cleared, entry, get_socket, bind, IsTable,
}

-- What a call of `csp_bind` may come to.
abbrev pub Bound : List Port → ℕ → ℕ → Error × List Port → Type 0
Bound ports socket port (e, ports') =
    ((e ≡ err_inval) × (any < port) × (ports' ≡ ports))
    ⊎ ((e ≡ err_used) × ((entry ports port).state ≡ opened) × (ports' ≡ ports))
    ⊎ ((e ≡ err_none)
        × (port ≤ any)
        × ((entry ports port).state ≡ closed)
        × (get_socket ports' port ≡ some socket)
        × IsTable ports')

-- `csp_bind` refuses a port above CSP_ANY and a port in use without changing the table; otherwise
-- it succeeds, and the port now finds the socket.
pub bind-Bound :
    (ports : List Port) (socket port : ℕ)
    → IsTable ports
    → Bound ports socket port (bind ports socket port)
unfolding bind get_socket
bind-Bound ports socket port v =
    ground (arith, v.full, length-set ports port bound, get_or-set_self ports port bound cleared)
  where
    bound : Port
    bound = record { state = opened; socket = some socket }

-- No call of `csp_bind`, successful or not, changes which socket an open port finds, nor, unless it
-- binds CSP_ANY, which socket any other port finds.
get_socket-bind :
    (ports : List Port) (socket port q : ℕ)
    → ((entry ports q).state ≡ opened) ⊎ ((q ≢ port) × (port ≢ any))
    → get_socket (bind ports socket port).1 q ≡ get_socket ports q
unfolding bind get_socket
get_socket-bind ports socket port q h =
    ground
      (arith, get_or-set_ne ports port q bound cleared, get_or-set_ne ports port any bound cleared)
  where
    bound : Port
    bound = record { state = opened; socket = some socket }
