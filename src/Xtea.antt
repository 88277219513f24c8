-- ===== src/Xtea.antt =====
-- libCSP/trunk/src/crypto/csp_xtea.c: XTEA in counter mode. `big` is the byte order of the host,
-- through which a `uint32_t` of the stream is read as bytes.
pub mod Stream
pub mod Modes
pub mod Key
mod Tests
use cubesat_space_protocol.Base.{
  ℕ, zero, suc, ◌+◌, ◌-◌, ◌*◌, ◌/◌, ◌%◌, ◌^◌, List, [], ◌∷◌, ◌++◌, get_or, set, take, bit_and,
  bit_xor, ltb, if◌then◌else◌, Bool, true, false, bytes32,
}

-- XTEA_BLOCKSIZE and XTEA_ROUNDS
abbrev pub blocksize : ℕ
blocksize = 8

abbrev pub rounds : ℕ
rounds = 32

abbrev u32 : ℕ → ℕ
u32 n = n % 2 ^ 32

-- `((v << 4) ^ (v >> 5)) + v`
mix : ℕ → ℕ
mix v = u32 (bit_xor (u32 (v * 2 ^ 4)) (v / 2 ^ 5) + v)

-- The loop of `csp_xtea_encrypt_block`, `n` rounds of it.
pub rounds_from : List ℕ → ℕ → ℕ → ℕ → ℕ → ℕ × ℕ
unfolding mix
rounds_from key zero v0 v1 sum = (v0, v1)
rounds_from key (suc n) v0 v1 sum =
    let v0' = u32 (v0 + bit_xor (mix v1) (u32 (sum + get_or key (bit_and sum 3) 0))) in
    let sum' = u32 (sum + 0x9E3779B9) in
    let v1' =
      u32 (v1 + bit_xor (mix v0') (u32 (sum' + get_or key (bit_and (sum' / 2 ^ 11) 3) 0))) in
    rounds_from key n v0' v1' sum'

-- `csp_xtea_encrypt_block`
pub encrypt_block : List ℕ → ℕ → ℕ → ℕ × ℕ
unfolding rounds_from
encrypt_block key v0 v1 = rounds_from key rounds v0 v1 0

-- A word as the host keeps it in memory.
pub memory_bytes : Bool → ℕ → List ℕ
memory_bytes big w =
    if big then w / 2 ^ 24 % 256 ∷ w / 2 ^ 16 % 256 ∷ w / 2 ^ 8 % 256 ∷ w % 256 ∷ [] else bytes32 w

-- The block `stream` of `csp_xtea_encrypt` as bytes, for the counter `iv[0]`, `iv[1]`.
pub stream_block : Bool → List ℕ → ℕ → ℕ → List ℕ
unfolding encrypt_block memory_bytes
stream_block big key iv0 iv1 =
    let (s0, s1) = encrypt_block key iv0 iv1 in memory_bytes big s0 ++ memory_bytes big s1

-- `csp_xtea_xor_byte(&buf[i], src, len)`
pub xor_byte : List ℕ → ℕ → List ℕ → ℕ → List ℕ
xor_byte buf i src zero = buf
xor_byte buf i [] (suc len) = buf
xor_byte buf i (b ∷ src) (suc len) =
    xor_byte (set buf i (bit_xor (get_or buf i 0) b)) (suc i) src len

module _ (big : Bool) (key : List ℕ) where
  -- The loop of `csp_xtea_encrypt` at block `i`, with `n` blocks left: the buffer and `iv[1]`.
  pub crypt_blocks : ℕ → ℕ → ℕ → ℕ → ℕ → List ℕ → List ℕ × ℕ
  crypt_blocks zero i len iv0 iv1 buf = (buf, iv1)
  crypt_blocks (suc n) i len iv0 iv1 buf =
      let remain = len - i * blocksize in
      crypt_blocks n (i + 1) len iv0 (u32 (iv1 + 1)) (
        xor_byte buf (len - remain) (stream_block big key iv0 iv1)
          (if ltb remain blocksize then remain else blocksize))

  -- `csp_xtea_encrypt` on the key `csp_xtea_key`; the result is always 0.
  pub encrypt : List ℕ → ℕ → ℕ → ℕ → List ℕ × ℕ
  unfolding crypt_blocks
  encrypt plain len iv0 iv1 = crypt_blocks ((len + blocksize - 1) / blocksize) 0 len iv0 iv1 plain

  -- `csp_xtea_decrypt`
  pub decrypt : List ℕ → ℕ → ℕ → ℕ → List ℕ × ℕ
  decrypt cipher len iv0 iv1 = encrypt cipher len iv0 iv1
