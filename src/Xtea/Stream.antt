-- ===== src/Xtea/Stream.antt =====
-- What the loops of csp_xtea.c do to each byte of the buffer.
use cubesat_space_protocol.Base.{
  ℕ, zero, suc, ◌+◌, ◌-◌, ◌*◌, ◌/◌, ◌%◌, ◌^◌, ◌≤◌, ◌<◌, ◌≡◌, ◌⊎◌, inl, List, [], ◌∷◌, length,
  get_or, set, length-set, get_or-set_self, get_or-set_ne, bit_xor, ltb, if◌then◌else◌, Bool, true,
  false, refl, ap, subst, ◌∙◌, arith,
}
use cubesat_space_protocol.Xtea.{blocksize, xor_byte, stream_block, crypt_blocks}
use native.Mathlib.Decide.{dec_lt}

pub length-stream_block :
    (big : Bool) (key : List ℕ) (a b : ℕ) → length (stream_block big key a b) ≡ 8
unfolding stream_block
length-stream_block true key a b = refl
length-stream_block false key a b = refl

pub length-xor_byte :
    (buf : List ℕ) (i : ℕ) (src : List ℕ) (n : ℕ) → length (xor_byte buf i src n) ≡ length buf
unfolding xor_byte
length-xor_byte buf i src zero = refl
length-xor_byte buf i [] (suc n) = refl
length-xor_byte buf i (b ∷ src) (suc n) =
    length-xor_byte (set buf i (bit_xor (get_or buf i 0) b)) (suc i) src n ∙ length-set buf i _

-- A byte outside the run is left alone.
pub xor_byte_outside :
    (buf : List ℕ) (i : ℕ) (src : List ℕ) (n j : ℕ)
    → (j < i) ⊎ (i + n ≤ j)
    → get_or (xor_byte buf i src n) j 0 ≡ get_or buf j 0
unfolding xor_byte
xor_byte_outside buf i src zero j h = refl
xor_byte_outside buf i [] (suc n) j h = refl
xor_byte_outside buf i (b ∷ src) (suc n) j h =
    xor_byte_outside (set buf i _) (suc i) src n j (omega arith)
    ∙ get_or-set_ne buf i j _ 0 (omega arith)

-- A byte inside the run is combined with that of the source.
pub xor_byte_inside :
    (buf : List ℕ) (i : ℕ) (src : List ℕ) (n k : ℕ)
    → k < n
    → n ≤ length src
    → i + n ≤ length buf
    → get_or (xor_byte buf i src n) (i + k) 0 ≡ bit_xor (get_or buf (i + k) 0) (get_or src k 0)
unfolding xor_byte
xor_byte_inside buf i src zero k h s l = absurd (omega arith)
xor_byte_inside buf i [] (suc n) k h s l = absurd (omega arith)
xor_byte_inside buf i (b ∷ src) (suc n) zero h s l =
    let at : i + 0 ≡ i = omega arith in
    rw at (
      xor_byte_outside (set buf i _) (suc i) src n i (inl (omega arith))
      ∙ get_or-set_self buf i _ 0 (omega arith))
xor_byte_inside buf i (b ∷ src) (suc n) (suc k) h s l =
    let at : i + suc k ≡ suc i + k = omega arith in
    rw at (
      xor_byte_inside (set buf i _) (suc i) src n k (omega arith) (omega arith)
        (rw length-set (omega arith))
      ∙ ap (λ (t : ℕ). bit_xor t (get_or src k 0))
          (get_or-set_ne buf i (suc i + k) _ 0 (omega arith)))

-- Byte `j` of the stream for the initial vector.
abbrev pub stream_byte : Bool → List ℕ → ℕ → ℕ → ℕ → ℕ
stream_byte big key iv0 iv1 j = get_or (stream_block big key iv0 ((iv1 + j / 8) % 2 ^ 32)) (j % 8) 0

module _ (big : Bool) (key : List ℕ) (len iv0 iv1 : ℕ) where
  pub length-crypt_blocks :
      (n i counter : ℕ) (buf : List ℕ)
      → length (crypt_blocks big key n i len iv0 counter buf).0 ≡ length buf
  unfolding crypt_blocks
  length-crypt_blocks zero i counter buf = refl
  length-crypt_blocks (suc n) i counter buf =
      length-crypt_blocks n (i + 1) _ _ ∙ length-xor_byte buf _ _ _

  -- The buffer after the round for block `i`.
  abbrev round : ℕ → ℕ → List ℕ → List ℕ
  round i counter buf =
      let remain = len - i * blocksize in
      xor_byte buf (len - remain) (stream_block big key iv0 counter)
        (if ltb remain blocksize then remain else blocksize)

  -- How many bytes the round combines.
  abbrev width : ℕ → ℕ
  width i = if ltb (len - i * blocksize) blocksize then len - i * blocksize else blocksize

  round_start :
      (i counter : ℕ) (buf : List ℕ)
      → i * 8 < len
      → round i counter buf ≡ xor_byte buf (i * 8) (stream_block big key iv0 counter) (width i)
  round_start i counter buf inside =
      ap (λ (t : ℕ). xor_byte buf t (stream_block big key iv0 counter) (width i)) (omega arith)

  round_outside :
      (i counter j : ℕ) (buf : List ℕ)
      → i * 8 < len
      → (j < i * 8) ⊎ (i * 8 + 8 ≤ j) ⊎ (len ≤ j)
      → get_or (round i counter buf) j 0 ≡ get_or buf j 0
  round_outside i counter j buf inside h =
      ap (λ t. get_or t j 0) (round_start i counter buf inside)
      ∙ xor_byte_outside buf (i * 8) (stream_block big key iv0 counter) (width i) j (ground arith)

  round_inside :
      (i counter j : ℕ) (buf : List ℕ)
      → counter ≡ (iv1 + i) % 2 ^ 32
      → len ≤ length buf
      → i * 8 ≤ j
      → j < i * 8 + 8
      → j < len
      → get_or (round i counter buf) j 0 ≡ bit_xor (get_or buf j 0) (stream_byte big key iv0 iv1 j)
  round_inside i counter j buf e fits lo hi end =
      ap (λ t. get_or t j 0) (round_start i counter buf (omega arith))
      ∙ subst
          (λ t.
            get_or (xor_byte buf (i * 8) block (width i)) t 0
            ≡ bit_xor (get_or buf t 0) (get_or block (j % 8) 0))
          place
          (xor_byte_inside buf (i * 8) block (width i) (j % 8) (ground arith)
            (ground (arith, length-stream_block big key iv0 counter)) (ground arith))
      ∙ ap (λ (t : ℕ). bit_xor (get_or buf j 0) (get_or (stream_block big key iv0 t) (j % 8) 0))
          (e ∙ ap (λ (t : ℕ). (iv1 + t) % 2 ^ 32) (omega arith))
    where
      block : List ℕ
      block = stream_block big key iv0 counter

      place : i * 8 + j % 8 ≡ j
      place = omega arith

  next_counter :
      (i counter : ℕ)
      → counter ≡ (iv1 + i) % 2 ^ 32
      → (counter + 1) % 2 ^ 32 ≡ (iv1 + (i + 1)) % 2 ^ 32
  next_counter i counter e = omega arith

  pub crypt_blocks_outside :
      (n i counter j : ℕ) (buf : List ℕ)
      → i + n ≡ (len + 7) / 8
      → (j < i * 8) ⊎ (len ≤ j)
      → get_or (crypt_blocks big key n i len iv0 counter buf).0 j 0 ≡ get_or buf j 0
  unfolding crypt_blocks
  crypt_blocks_outside zero i counter j buf e h = refl
  crypt_blocks_outside (suc n) i counter j buf e h =
      crypt_blocks_outside n (i + 1) _ j (round i counter buf) (omega arith) (omega arith)
      ∙ round_outside i counter j buf (omega arith) (omega arith)

  pub crypt_blocks_inside :
      (n i counter j : ℕ) (buf : List ℕ)
      → i + n ≡ (len + 7) / 8
      → counter ≡ (iv1 + i) % 2 ^ 32
      → len ≤ length buf
      → i * 8 ≤ j
      → j < len
      → get_or (crypt_blocks big key n i len iv0 counter buf).0 j 0
        ≡ bit_xor (get_or buf j 0) (stream_byte big key iv0 iv1 j)
  unfolding crypt_blocks
  crypt_blocks_inside zero i counter j buf e c fits lo hi = absurd (omega arith)
  crypt_blocks_inside (suc n) i counter j buf e c fits lo hi = elim (dec_lt j (i * 8 + 8)) [
    | yes here ↦
        crypt_blocks_outside n (i + 1) _ j (round i counter buf) (omega arith) (omega arith)
        ∙ round_inside i counter j buf c fits lo here hi
    | no later ↦
        crypt_blocks_inside n (i + 1) _ j (round i counter buf) (omega arith)
          (next_counter i counter c) (rw length-xor_byte fits) (omega arith) hi
        ∙ ap (λ (t : ℕ). bit_xor t (stream_byte big key iv0 iv1 j))
            (round_outside i counter j buf (omega arith) (omega arith))
  ]
