-- ===== src/Can/Start.antt =====
-- libCSP/trunk/src/interfaces/csp_if_can.c: `csp_can_init`.
use cubesat_space_protocol.Base.{ℕ, ◌-◌, ◌^◌, Bool, true, false, bit_and, if◌then◌else◌}
use cubesat_space_protocol.Can.{Can, cfp_host_size, cfp_id_size, make_dst}
use cubesat_space_protocol.Can.Pbuf.{pbuf_init}

-- CSP_CAN_MASKED, CSP_CAN_PROMISC, and any other mode.
pub data CanMode : Type 0 where
  can_masked can_promisc other_mode : CanMode

-- `id_init`, with what `rand` gives and whether the semaphore is made.
unfoldable pub id_init : ℕ → Bool → Bool × ℕ
id_init rand made = (made, bit_and rand (2 ^ cfp_id_size - 1))

-- The mode, with the outcome of `can_init` for a node's own identifier and a mask.
with_mode : CanMode → ℕ → (ℕ → ℕ → Bool) → Can → Bool → Bool × Can × Bool
with_mode other_mode address driver c promisc = (false, c, promisc)
with_mode can_masked address driver c promisc =
    (driver (make_dst address) (make_dst (2 ^ cfp_host_size - 1)), c, promisc)
with_mode can_promisc address driver c promisc = (driver (make_dst address) 0, c, true)

-- `csp_can_init` on `n` elements: whether it returns 0, the state, and `csp_if_can.promisc`. The
-- first two outcomes are those of `pbuf_init` and of the semaphore of `id_init`.
unfoldable pub can_init :
    Bool → Bool → ℕ → CanMode → ℕ → (ℕ → ℕ → Bool) → ℕ → Can → Bool → Bool × Can × Bool
unfolding pbuf_init id_init with_mode
can_init made id_made rand mode address driver n c promisc =
    let (_, ident) = id_init rand id_made in
    let c' : Can = record c { pbuf = pbuf_init n } in
    if made
    then if id_made
      then with_mode mode address driver (record c' { cfp_id = ident }) promisc
      else (false, record c' { cfp_id = ident }, promisc)
    else (false, c', promisc)
