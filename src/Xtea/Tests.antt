-- ===== src/Xtea/Tests.antt =====
-- A published vector of the block cipher, and the theorems at a concrete buffer.
use cubesat_space_protocol.Base.{ℕ, ◌≡◌, List, [], ◌∷◌, false, refl, arith}
use cubesat_space_protocol.Xtea.{encrypt_block, encrypt, decrypt}
use cubesat_space_protocol.Xtea.Modes.{decrypt-encrypt}

abbrev key : List ℕ
key = 0x00010203 ∷ 0x04050607 ∷ 0x08090a0b ∷ 0x0c0d0e0f ∷ []

block_vector : encrypt_block key 0x41424344 0x45464748 ≡ (0x497df3d0, 0x72612cb5)
unfolding encrypt_block
block_vector = refl

abbrev text : List ℕ
text = 1 ∷ 2 ∷ 3 ∷ 4 ∷ 5 ∷ 6 ∷ 7 ∷ 8 ∷ 9 ∷ 10 ∷ []

decrypt-encrypt_example : (decrypt false key (encrypt false key text 9 77 1).0 9 77 1).0 ≡ text
decrypt-encrypt_example = decrypt-encrypt false key text 9 77 1 (omega arith) (omega arith)
