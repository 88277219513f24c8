-- ===== src/Base/Checked.antt =====
-- A fact about every number below a bound, by evaluating a test at each.
use Prim.Native.Nat.{ℕ, zero, suc, ◌<◌}
use mathlib.Core.Path.{◌≡◌}
use mathlib.Core.Bool.{Bool, true, false}
use native.Mathlib.Omega.{arith}
use cubesat_space_protocol.Base.{if◌then◌else◌}

-- The test passes at every number under the second argument.
unfoldable pub passes : (ℕ → Bool) → ℕ → Bool
passes test zero = true
passes test (suc m) = if test m then passes test m else false

pub passes_at :
    (test : ℕ → Bool) (bound k : ℕ) → k < bound → passes test bound ≡ true → test k ≡ true
unfolding passes
passes_at test zero k below ok = elim below [ ]
passes_at test (suc m) k below ok = ground (arith, passes_at test m k)
