-- ===== src/Sha1/Tests.antt =====
-- SHA1 of "abc".
use cubesat_space_protocol.Base.{ℕ, ◌≡◌, List, [], ◌∷◌, replicate, refl}
use cubesat_space_protocol.Sha1.{sha1_memory, compress, done, process, init}

abbrev abc : List ℕ
abc = 0x61 ∷ 0x62 ∷ 0x63 ∷ []

abc_digest :
    sha1_memory (replicate 64 0) abc
    ≡ 0xa9 ∷ 0x99 ∷ 0x3e ∷ 0x36 ∷ 0x47 ∷ 0x06 ∷ 0x81 ∷ 0x6a ∷ 0xba ∷ 0x3e ∷ 0x25 ∷ 0x71 ∷ 0x78
      ∷ 0x50 ∷ 0xc2 ∷ 0x6c ∷ 0x9c ∷ 0xd0 ∷ 0xd8 ∷ 0x9d ∷ []
unfolding sha1_memory compress done process init
abc_digest = refl
