-- ===== src/Endian.antt =====
-- libCSP/trunk/src/csp_endian.c: byte order conversion. The first argument is `csp_host_be`.
pub mod Swap
pub mod Wide
mod Tests
use cubesat_space_protocol.Base.{ℕ, ◌*◌, ◌/◌, ◌%◌, ◌^◌, Bool, if◌then◌else◌, not, bit_and, bit_or}

-- The expression that the 16-bit conversions share.
pub swap16 : ℕ → ℕ
swap16 h = bit_or (bit_and h 0xff00 / 2 ^ 8) (bit_and h 0x00ff * 2 ^ 8) % 2 ^ 16

-- The expression that the 32-bit conversions share.
pub swap32 : ℕ → ℕ
swap32 h =
    bit_or
      (bit_or (bit_or (bit_and h 0xff000000 / 2 ^ 24) (bit_and h 0x000000ff * 2 ^ 24))
        (bit_and h 0x0000ff00 * 2 ^ 8))
      (bit_and h 0x00ff0000 / 2 ^ 8)
    % 2 ^ 32

-- `csp_hton16`, `csp_ntoh16`, `csp_htobe16` and `csp_betoh16`
unfoldable pub hton16 : Bool → ℕ → ℕ
unfolding swap16
hton16 big h = if big then h else swap16 h

unfoldable pub ntoh16 : Bool → ℕ → ℕ
unfolding hton16
ntoh16 big n = hton16 big n

-- `csp_htole16` and `csp_letoh16`
pub htole16 : Bool → ℕ → ℕ
unfolding swap16
htole16 big h = if not big then h else swap16 h

-- `csp_hton32`, `csp_ntoh32`, `csp_htobe32` and `csp_betoh32`
pub hton32 : Bool → ℕ → ℕ
unfolding swap32
hton32 big h = if big then h else swap32 h

pub ntoh32 : Bool → ℕ → ℕ
unfolding hton32
ntoh32 big n = hton32 big n

-- `csp_htole32` and `csp_letoh32`
pub htole32 : Bool → ℕ → ℕ
unfolding swap32
htole32 big h = if not big then h else swap32 h

-- The bytes of a word as the host keeps them in memory.
abbrev pub memory32 : Bool → ℕ → ℕ × ℕ × ℕ × ℕ
memory32 big w =
    if big
    then (w / 2 ^ 24 % 256, w / 2 ^ 16 % 256, w / 2 ^ 8 % 256, w % 256)
    else (w % 256, w / 2 ^ 8 % 256, w / 2 ^ 16 % 256, w / 2 ^ 24 % 256)

abbrev pub memory16 : Bool → ℕ → ℕ × ℕ
memory16 big w = if big then (w / 2 ^ 8 % 256, w % 256) else (w % 256, w / 2 ^ 8 % 256)
