-- ===== src/Io/Timeouts.antt =====
-- libCSP/trunk/src/csp_conn.c: `csp_conn_check_timeouts`, the walk over all connections before the router
-- looks for a packet.
use cubesat_space_protocol.Base.{◌≡◌, List, [], ◌∷◌, Bool, false, ◌&&◌, not, refl, if◌then◌else◌}
use cubesat_space_protocol.Header.{has, frdp}
use cubesat_space_protocol.Conn.{Conn, is_closed}
use cubesat_space_protocol.Transport.{Endpoint}
use cubesat_space_protocol.Transport.Timeouts.{check_timeouts}

-- The two tests of the loop.
abbrev pub is_checked : Conn → Bool
is_checked c = not (is_closed c.state) && has c.idin.flags frdp

abbrev load : Endpoint → Conn → Endpoint
load w c = record w { conn = c }

-- The connection behind its turn, and the surroundings that the next one finds.
each_turn : Endpoint → Conn → Conn × Endpoint
each_turn w c =
    if is_checked c then (let w' = check_timeouts (load w c) in (w'.conn, w')) else (c, w)

-- `csp_conn_check_timeouts` on the surroundings `w`, whose own connection is not looked at.
unfoldable pub check_all_timeouts : Endpoint → List Conn → List Conn × Endpoint
unfolding each_turn
check_all_timeouts w [] = ([], w)
check_all_timeouts w (c ∷ cs) =
    let (c', w') = each_turn w c in let (cs', w'') = check_all_timeouts w' cs in (c' ∷ cs', w'')

abbrev pub Spared : List Conn → List Conn → Type 0
Spared [] [] = Unit
Spared (c ∷ cs) (c' ∷ cs') = (is_checked c ≡ false → c' ≡ c) × Spared cs cs'
Spared [] (c' ∷ cs') = ⊥
Spared (c ∷ cs) [] = ⊥

each_turn-spares : (w : Endpoint) (c : Conn) → is_checked c ≡ false → (each_turn w c).0 ≡ c
unfolding each_turn
each_turn-spares w c e = rw e refl

-- Every connection has its turn, in order, and those that are closed or not of the reliable transport are left as they are.
pub check_all_timeouts-Spared :
    (w : Endpoint) (cs : List Conn) → Spared cs (check_all_timeouts w cs).0
unfolding check_all_timeouts
check_all_timeouts-Spared w [] = tt
check_all_timeouts-Spared w (c ∷ cs) =
    (each_turn-spares w c, check_all_timeouts-Spared (each_turn w c).1 cs)
