-- ===== src/Xtea/Key.antt =====
-- libCSP/trunk/src/crypto/csp_xtea.c: the key, which is derived with SHA1.
use cubesat_space_protocol.Base.{
  ℕ, ◌+◌, ◌*◌, ◌/◌, ◌%◌, ◌^◌, ◌<◌, ◌≡◌, List, [], ◌∷◌, ◌++◌, take, Bool, true, false, if◌then◌else◌,
  refl, ap, ◌∙◌, arith,
}
use cubesat_space_protocol.Sha1.{Sha1, init, process, sha1_memory, done, store32}
use cubesat_space_protocol.Xtea.{memory_bytes}

-- XTEA_KEY_LENGTH
abbrev key_length : ℕ
key_length = 16

-- Bytes in memory as the host reads them as a `uint32_t`.
abbrev word_of : Bool → ℕ → ℕ → ℕ → ℕ → ℕ
word_of big a b c d =
    if big then a * 2 ^ 24 + b * 2 ^ 16 + c * 2 ^ 8 + d else d * 2 ^ 24 + c * 2 ^ 16 + b * 2 ^ 8 + a

abbrev words_of : Bool → List ℕ → List ℕ
words_of big (a ∷ b ∷ c ∷ d ∷ bs) = word_of big a b c d ∷ words_of big bs
words_of big bs = []

-- `csp_xtea_set_key`: the words of `csp_xtea_key` afterwards; `stack` is what the state of SHA1 holds at
-- first.
pub set_key : Bool → List ℕ → List ℕ → List ℕ
unfolding sha1_memory
set_key big stack key = words_of big (take key_length (sha1_memory stack key))

-- The words of a key as bytes.
abbrev key_bytes : Bool → List ℕ → List ℕ
key_bytes big [] = []
key_bytes big (w ∷ ws) = memory_bytes big w ++ key_bytes big ws

word-bytes :
    (big : Bool) (a b c d : ℕ)
    → a < 256
    → b < 256
    → c < 256
    → d < 256
    → memory_bytes big (word_of big a b c d) ≡ a ∷ b ∷ c ∷ d ∷ []
unfolding memory_bytes
word-bytes true a b c d ha hb hc hd =
    let w = word_of true a b c d in
    let first : w / 2 ^ 24 % 256 ≡ a = omega arith in
    let second : w / 2 ^ 16 % 256 ≡ b = omega arith in
    let third : w / 2 ^ 8 % 256 ≡ c = omega arith in
    let fourth : w % 256 ≡ d = omega arith in rw (first, second, third, fourth) refl
word-bytes false a b c d ha hb hc hd =
    let w = word_of false a b c d in
    let first : w % 256 ≡ a = omega arith in
    let second : w / 2 ^ 8 % 256 ≡ b = omega arith in
    let third : w / 2 ^ 16 % 256 ≡ c = omega arith in
    let fourth : w / 2 ^ 24 % 256 ≡ d = omega arith in rw (first, second, third, fourth) refl

stored-bytes :
    (big : Bool) (x : ℕ) (bs : List ℕ)
    → key_bytes big (words_of big (store32 x ++ bs)) ≡ store32 x ++ key_bytes big (words_of big bs)
stored-bytes big x bs =
    ap (λ l. l ++ key_bytes big (words_of big bs))
      (word-bytes big (x / 2 ^ 24 % 256) (x / 2 ^ 16 % 256) (x / 2 ^ 8 % 256) (x % 256)
        (omega arith) (omega arith) (omega arith) (omega arith))

-- Four words of the digest.
digest-bytes :
    (big : Bool) (a b c d : ℕ)
    → let bs = store32 a ++ (store32 b ++ (store32 c ++ store32 d)) in
      key_bytes big (words_of big bs) ≡ bs
digest-bytes big a b c d =
    stored-bytes big a (store32 b ++ (store32 c ++ store32 d))
    ∙ ap (λ l. store32 a ++ l)
        (stored-bytes big b (store32 c ++ store32 d)
          ∙ ap (λ l. store32 b ++ l)
              (stored-bytes big c (store32 d) ∙ ap (λ l. store32 c ++ l) (stored-bytes big d [])))

done-bytes :
    (big : Bool) (s : Sha1)
    → key_bytes big (words_of big (take key_length (done s))) ≡ take key_length (done s)
unfolding done
done-bytes big s = digest-bytes big _ _ _ _

-- The bytes of the key in memory are the first 16 of the digest, on every host.
pub set_key-bytes :
    (big : Bool) (stack key : List ℕ)
    → key_bytes big (set_key big stack key) ≡ take key_length (sha1_memory stack key)
unfolding set_key sha1_memory
set_key-bytes big stack key = done-bytes big (process (init stack) key)
