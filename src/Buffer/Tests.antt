-- ===== src/Buffer/Tests.antt =====
-- Runs of the buffer pool, and its theorems at concrete pools.
use cubesat_space_protocol.Base.{◌≡◌, refl, [], ◌∷◌, some, true, arith}
use cubesat_space_protocol.Buffer.{free, used, Pool, IsPool, init, get}
use cubesat_space_protocol.Buffer.Get.{Answer, get-Answer}

-- Three elements of 64 bytes, of which the second was given last.
abbrev three : Pool
three = record { count = 3; size = 64; list = free ∷ used ∷ free ∷ []; last_given = 1 }

three-IsPool : IsPool three
three-IsPool = omega arith

get_third :
    get three 20
    ≡ (some 128, record { count = 3; size = 64; list = free ∷ used ∷ used ∷ []; last_given = 2 })
unfolding get
get_third = refl

init_runs :
    init true true true 2 64
    ≡ some (record { count = 2; size = 64; list = free ∷ free ∷ []; last_given = 0 })
unfolding init
init_runs = refl

get-Answer_example : Answer three 20 (get three 20)
get-Answer_example = get-Answer 20 three-IsPool
