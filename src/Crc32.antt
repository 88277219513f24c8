-- ===== src/Crc32.antt =====
-- libCSP/trunk/src/csp_crc32.c: the checksum, how it is appended to a packet and how it is checked.
-- `memory` is a packet's data area; the words are copied to it as the host keeps them.
pub mod Table
pub mod Burst
pub mod Packets
mod Tests
use cubesat_space_protocol.Base.{
  ℕ, zero, suc, ◌+◌, ◌-◌, ◌*◌, ◌/◌, ◌%◌, ◌^◌, ◌≤◌, ◌<◌, ◌≡◌, List, [], ◌∷◌, ◌++◌, Option, none,
  some, length, get_or, take, drop, blit, bit_and, bit_xor, ltb, ◌==◌, if◌then◌else◌, Bool, true,
  false, bytes32, not,
}

-- CSP_CRC32_POLY
abbrev pub poly : ℕ
poly = 0x82F63B78

-- The inner loop of `csp_crc32_gentab`, `j` rounds of it.
pub reduce : ℕ → ℕ → ℕ
reduce zero crc = crc
reduce (suc j) crc = reduce j (if not (bit_and crc 1 == 0) then bit_xor (crc / 2) poly else crc / 2)

-- `crc_tab` as `csp_crc32_gentab` leaves it: `n` entries from `i` on.
pub entries : ℕ → ℕ → List ℕ
unfolding reduce
entries zero i = []
entries (suc n) i = reduce 8 i ∷ entries n (i + 1)

pub crc_tab : List ℕ
unfolding entries
crc_tab = entries 256 0

-- One round of the loop of `csp_crc32_memory`.
pub step : ℕ → ℕ → ℕ
step crc byte = bit_xor (get_or crc_tab (bit_and (bit_xor crc byte) 0xff) 0) (crc / 2 ^ 8)

pub run : ℕ → List ℕ → ℕ
run crc [] = crc
run crc (b ∷ bs) = run (step crc b) bs

-- `csp_crc32_memory` on the bytes that it reads.
pub memory_crc : List ℕ → ℕ
memory_crc bytes = bit_xor (run 0xFFFFFFFF bytes) 0xFFFFFFFF

-- `csp_crc32_append`: the data area and the length afterwards.
pub append : List ℕ → ℕ → List ℕ × ℕ
append memory length =
    (blit memory length (bytes32 (memory_crc (take length memory))), (length + 4) % 2 ^ 16)

-- What `csp_crc32_verify` comes to. `out_of_bounds` is a read outside the data area.
pub data Verdict : Type 0 where
  stripped : ℕ → Verdict
  failed out_of_bounds : Verdict

-- The test `memcmp(...) != 0` on two runs of bytes of one length.
abbrev pub same_bytes : List ℕ → List ℕ → Bool
same_bytes [] [] = true
same_bytes (x ∷ xs) (y ∷ ys) = if x == y then same_bytes xs ys else false
same_bytes _ _ = false

-- The number of bytes that `csp_crc32_verify` has checked: a `uint32_t`.
abbrev pub covered : ℕ → ℕ
covered length = (length + 2 ^ 32 - 4) % 2 ^ 32

-- `csp_crc32_verify`
pub verify : List ℕ → ℕ → Verdict
verify memory n =
    if ltb (length memory) (covered n)
    then out_of_bounds
    else if same_bytes (take 4 (drop (n - 4) memory))
        (bytes32 (memory_crc (take (covered n) memory)))
    then stripped (n - 4)
    else failed
