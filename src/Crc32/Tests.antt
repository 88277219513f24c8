-- ===== src/Crc32/Tests.antt =====
-- The checksum of the usual test text, and the theorems at concrete packets.
use cubesat_space_protocol.Base.{ℕ, ◌≡◌, ◌≢◌, List, [], ◌∷◌, ◌++◌, take, refl, arith}
use cubesat_space_protocol.Crc32.{crc_tab, step, run, memory_crc, append, verify, stripped}
use cubesat_space_protocol.Crc32.Packets.{verify-append}
use cubesat_space_protocol.Crc32.Burst.{memory_crc-detects}

-- CRC-32C of "123456789".
check_value : memory_crc (49 ∷ 50 ∷ 51 ∷ 52 ∷ 53 ∷ 54 ∷ 55 ∷ 56 ∷ 57 ∷ []) ≡ 0xE3069283
unfolding memory_crc run step crc_tab
check_value = refl

abbrev area : List ℕ
area = 1 ∷ 2 ∷ 0 ∷ 0 ∷ 0 ∷ 0 ∷ 9 ∷ []

verify-append_example :
    let (memory', n') = append area 2 in
    (verify memory' n' ≡ stripped 2) × (take 2 memory' ≡ take 2 area)
verify-append_example = verify-append area 2 (omega arith) (omega arith)

memory_crc-detects_example :
    memory_crc ((7 ∷ []) ++ (1 ∷ 5 ∷ [])) ≢ memory_crc ((7 ∷ []) ++ (2 ∷ 5 ∷ []))
memory_crc-detects_example =
    memory_crc-detects (7 ∷ []) 1 2 (5 ∷ []) (omega arith) (omega arith) (omega arith) (omega arith)
