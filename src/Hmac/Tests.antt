-- ===== src/Hmac/Tests.antt =====
-- HMAC of "Hi There" under a key of 20 bytes 0x0b, and the theorems at a concrete packet.
use cubesat_space_protocol.Base.{
  ℕ, ◌≡◌, List, [], ◌∷◌, replicate, take, drop, refl, arith, ◌↔◌, ◌-◌,
}
use cubesat_space_protocol.Sha1.{sha1_memory, compress, done, process, init}
use cubesat_space_protocol.Crc32.{stripped}
use cubesat_space_protocol.Hmac.{hmac_memory, hmac_init, hmac_process, hmac_done, hmac_verify, tag}
use cubesat_space_protocol.Hmac.Packets.{hmac_verify_iff}

abbrev stack : List ℕ
stack = replicate 64 0

abbrev hi_there : List ℕ
hi_there = 0x48 ∷ 0x69 ∷ 0x20 ∷ 0x54 ∷ 0x68 ∷ 0x65 ∷ 0x72 ∷ 0x65 ∷ []

hi_there_tag :
    take 4 (hmac_memory stack (replicate 20 0x0b) hi_there stack) ≡ 0xb6 ∷ 0x17 ∷ 0x31 ∷ 0x86 ∷ []
unfolding hmac_memory hmac_init hmac_process hmac_done compress done process init sha1_memory
hi_there_tag = refl

-- Two bytes of data in an area of eight.
abbrev area : List ℕ
area = 1 ∷ 2 ∷ 0 ∷ 0 ∷ 0 ∷ 0 ∷ 0 ∷ 0 ∷ []

hmac_verify_iff_example :
    (hmac_verify stack stack (7 ∷ []) area 6 ≡ stripped (6 - 4))
    ↔ (take 4 (drop (6 - 4) area) ≡ tag stack stack (7 ∷ []) (take (6 - 4) area))
hmac_verify_iff_example =
    hmac_verify_iff stack stack (7 ∷ []) area 6 (omega arith) (omega arith) (omega arith)
