-- ===== src/Port/Tests.antt =====
-- The theorems on ports at concrete tables.
use cubesat_space_protocol.Base.{◌≡◌, some, refl, arith}
use cubesat_space_protocol.Port.{init, IsTable, get_socket, bind}

init-IsTable : IsTable init
unfolding init
init-IsTable = omega arith

bind_runs : get_socket (bind init 7 10).1 10 ≡ some 7
unfolding get_socket bind init
bind_runs = refl
