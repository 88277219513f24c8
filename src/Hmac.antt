-- ===== src/Hmac.antt =====
-- libCSP/trunk/src/crypto/csp_hmac.c: HMAC with SHA1, and how a packet is authenticated with it.
-- `memory` is a packet's data area; `stack` is what the arrays of a call hold before they are written.
pub mod Packets
pub mod Stack
mod Tests
use cubesat_space_protocol.Base.{
  ℕ, suc, ◌+◌, ◌-◌, ◌%◌, ◌^◌, List, [], ◌∷◌, ◌++◌, Option, none, some, length, map, take, drop,
  blit, replicate, bit_xor, ltb, ◌==◌, if◌then◌else◌, Bool, true, false,
}
use cubesat_space_protocol.Sha1.{Sha1, blocksize, init, process, done, sha1_memory}
use cubesat_space_protocol.Crc32.{Verdict, stripped, failed, out_of_bounds, same_bytes, covered}

-- SHA1_DIGESTSIZE, HMAC_KEY_LENGTH and CSP_HMAC_LENGTH
abbrev pub digestsize : ℕ
digestsize = 20

abbrev pub key_length : ℕ
key_length = 16

abbrev pub hmac_length : ℕ
hmac_length = 4

-- `hmac_state`
pub record HmacState : Type 0 where
  pub md : Sha1
  pub key : List ℕ

abbrev pub xor_all : List ℕ → ℕ → List ℕ
xor_all bytes x = map (λ b. bit_xor b x) bytes

-- The key as a block.
pub block_key : List ℕ → List ℕ → List ℕ
block_key stack key =
    if ltb blocksize (length key)
    then sha1_memory stack key ++ replicate (blocksize - digestsize) 0
    else key ++ replicate (blocksize - length key) 0

-- `csp_hmac_init`, which fails for an empty key.
pub hmac_init : List ℕ → List ℕ → Option HmacState
unfolding block_key
hmac_init stack [] = none
hmac_init stack (b ∷ bs) =
    let k = block_key stack (b ∷ bs) in
    some (record { md = process (init stack) (xor_all k 0x36); key = k })

-- `csp_hmac_process`
pub hmac_process : HmacState → List ℕ → HmacState
hmac_process s input = record s { md = process s.md input }

-- `csp_hmac_done`: the second run of SHA1 uses the same state.
pub hmac_done : HmacState → List ℕ
hmac_done s =
    let isha = done s.md in
    take digestsize (done (process (process (init s.md.buf) (xor_all s.key 0x5C)) isha))

-- `csp_hmac_memory`: the array `hmac` afterwards.
unfoldable pub hmac_memory : List ℕ → List ℕ → List ℕ → List ℕ → List ℕ
unfolding hmac_init hmac_process hmac_done
hmac_memory stack key bytes hmac = elim (hmac_init stack key) [
  | none ↦ hmac
  | some s ↦ hmac_done (hmac_process s bytes)
]

-- `csp_hmac_set_key`: the key `csp_hmac_key` afterwards.
unfoldable pub set_key : List ℕ → List ℕ → List ℕ
set_key stack key = take key_length (sha1_memory stack key)

-- The four bytes that go with a packet whose data are `bytes`.
abbrev pub tag : List ℕ → List ℕ → List ℕ → List ℕ → List ℕ
tag stack hmac key bytes = take hmac_length (hmac_memory stack key bytes hmac)

-- `csp_hmac_append`: the data area and the length afterwards.
unfoldable pub hmac_append : List ℕ → List ℕ → List ℕ → List ℕ → ℕ → List ℕ × ℕ
hmac_append stack hmac key memory length =
    (blit memory length (tag stack hmac key (take length memory)), (length + hmac_length) % 2 ^ 16)

-- `csp_hmac_verify`; the number of bytes to check is a `uint32_t`.
unfoldable pub hmac_verify : List ℕ → List ℕ → List ℕ → List ℕ → ℕ → Verdict
hmac_verify stack hmac key memory n =
    if ltb (length memory) (covered n)
    then out_of_bounds
    else if same_bytes (take hmac_length (drop (n - hmac_length) memory))
        (tag stack hmac key (take (covered n) memory))
    then stripped (n - hmac_length)
    else failed
