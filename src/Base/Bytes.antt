-- ===== src/Base/Bytes.antt =====
-- Words as the bytes that `memcpy` moves.
use Prim.Native.Nat.{ℕ, ◌+◌, ◌*◌, ◌/◌, ◌%◌, ◌^◌, ◌<◌}
use mathlib.Core.Path.{◌≡◌}
use mathlib.Core.List.{List, [], ◌∷◌}
use native.Mathlib.Omega.{arith}

-- The four bytes of a `uint32_t`, the least significant first, and back.
abbrev pub bytes32 : ℕ → List ℕ
bytes32 w = w % 256 ∷ w / 256 % 256 ∷ w / 65536 % 256 ∷ w / 16777216 % 256 ∷ []

abbrev pub word32 : List ℕ → ℕ
word32 (a ∷ b ∷ c ∷ d ∷ _) = a + b * 256 + c * 65536 + d * 16777216
word32 _ = 0

pub word32-bytes32 : (w : ℕ) → w < 2 ^ 32 → word32 (bytes32 w) ≡ w
word32-bytes32 w h = omega arith

-- The two bytes of a `uint16_t`.
abbrev pub bytes16 : ℕ → List ℕ
bytes16 w = w % 256 ∷ w / 256 % 256 ∷ []

abbrev pub word16 : List ℕ → ℕ
word16 (a ∷ b ∷ _) = a + b * 256
word16 _ = 0

pub word16-bytes16 : (w : ℕ) → w < 2 ^ 16 → word16 (bytes16 w) ≡ w
word16-bytes16 w h = omega arith
