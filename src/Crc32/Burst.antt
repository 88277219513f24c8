-- ===== src/Crc32/Burst.antt =====
-- The checksum detects every corruption of a single byte.
use cubesat_space_protocol.Base.{
  ℕ, ◌/◌, ◌%◌, ◌^◌, ◌<◌, ◌≡◌, ◌≢◌, List, [], ◌∷◌, ◌++◌, bit_and, bit_xor, refl, ap, sym, ◌∙◌, arith,
}
use cubesat_space_protocol.Base.Bits.{
  and_low, xor-lt, xor-zero, xor-div, xor-mod, xor_inj_left, xor_inj_right,
}
use cubesat_space_protocol.Crc32.{step, run, memory_crc}
use cubesat_space_protocol.Crc32.Table.{table, table-lt, table_top_inj}

abbrev pub IsBytes : List ℕ → Type 0
IsBytes [] = Unit
IsBytes (b ∷ bs) = (b < 256) × IsBytes bs

-- The entry that a round looks up.
abbrev index : ℕ → ℕ → ℕ
index crc byte = bit_and (bit_xor crc byte) 0xff

index_lem : (crc byte : ℕ) → byte < 256 → index crc byte ≡ bit_xor (crc % 2 ^ 8) byte
index_lem crc byte h =
    and_low 8 (bit_xor crc byte) ∙ xor-mod 8 crc byte ∙ ap (bit_xor (crc % 2 ^ 8)) (omega arith)

index-lt : (crc byte : ℕ) → index crc byte < 256
index-lt crc byte = omega (arith, and_low 8 (bit_xor crc byte))

step_lem : (crc byte : ℕ) → step crc byte ≡ bit_xor (table (index crc byte)) (crc / 2 ^ 8)
unfolding step
step_lem crc byte = refl

step-lt : (crc byte : ℕ) → crc < 2 ^ 32 → step crc byte < 2 ^ 32
step-lt crc byte h =
    let e = step_lem crc byte in
    omega (
      arith,
      e,
      xor-lt 32 (table (index crc byte)) (crc / 2 ^ 8)
          (table-lt (index crc byte) (index-lt crc byte)) (omega arith),
    )

-- The highest byte of the new state tells which entry was looked up.
step_top : (crc byte : ℕ) → crc < 2 ^ 32 → step crc byte / 2 ^ 24 ≡ table (index crc byte) / 2 ^ 24
step_top crc byte h =
    ap (λ (t : ℕ). t / 2 ^ 24) (step_lem crc byte)
    ∙ xor-div 24 (table (index crc byte)) (crc / 2 ^ 8)
    ∙ ap (bit_xor (table (index crc byte) / 2 ^ 24)) (omega arith)
    ∙ xor-zero (table (index crc byte) / 2 ^ 24)

same_index : (c d a b : ℕ) → c < 2 ^ 32 → d < 2 ^ 32 → step c a ≡ step d b → index c a ≡ index d b
same_index c d a b hc hd e =
    table_top_inj (index c a) (index d b) (index-lt c a) (index-lt d b)
      (sym (step_top c a hc) ∙ ap (λ (t : ℕ). t / 2 ^ 24) e ∙ step_top d b hd)

-- A round loses nothing of the state.
step_inj : (c d b : ℕ) → c < 2 ^ 32 → d < 2 ^ 32 → b < 256 → step c b ≡ step d b → c ≡ d
step_inj c d b hc hd hb e = omega (arith, high, low)
  where
    at : index c b ≡ index d b
    at = same_index c d b b hc hd e

    high : c / 2 ^ 8 ≡ d / 2 ^ 8
    high =
        xor_inj_left (table (index d b)) (c / 2 ^ 8) (d / 2 ^ 8)
          (ap (λ t. bit_xor (table t) (c / 2 ^ 8)) (sym at) ∙ sym (step_lem c b) ∙ e ∙ step_lem d b)

    low : c % 2 ^ 8 ≡ d % 2 ^ 8
    low = xor_inj_right (c % 2 ^ 8) (d % 2 ^ 8) b (sym (index_lem c b hb) ∙ at ∙ index_lem d b hb)

-- Different bytes lead from one state to different states.
step-ne : (c a b : ℕ) → c < 2 ^ 32 → a < 256 → b < 256 → a ≢ b → step c a ≢ step c b
step-ne c a b hc ha hb ne e = ne (
    xor_inj_left (c % 2 ^ 8) a b
      (sym (index_lem c a ha) ∙ same_index c c a b hc hc e ∙ index_lem c b hb))

run_inj :
    (c d : ℕ) (bs : List ℕ) → c < 2 ^ 32 → d < 2 ^ 32 → IsBytes bs → c ≢ d → run c bs ≢ run d bs
unfolding run
run_inj c d [] hc hd h ne = ne
run_inj c d (b ∷ bs) hc hd h ne =
    run_inj (step c b) (step d b) bs (step-lt c b hc) (step-lt d b hd) h.1
      (λ e. ne (step_inj c d b hc hd h.0 e))

run_differs :
    (c : ℕ) (front : List ℕ) (a b : ℕ) (rest : List ℕ)
    → c < 2 ^ 32
    → a < 256
    → b < 256
    → IsBytes rest
    → a ≢ b
    → run c (front ++ (a ∷ rest)) ≢ run c (front ++ (b ∷ rest))
unfolding run
run_differs c [] a b rest hc ha hb h ne =
    run_inj (step c a) (step c b) rest (step-lt c a hc) (step-lt c b hc) h
      (step-ne c a b hc ha hb ne)
run_differs c (x ∷ front) a b rest hc ha hb h ne =
    run_differs (step c x) front a b rest (step-lt c x hc) ha hb h ne

-- Data that differ in exactly one byte, wherever it is and however long they are, have different
-- checksums.
pub memory_crc-detects :
    (front : List ℕ) (a b : ℕ) (rest : List ℕ)
    → a < 256
    → b < 256
    → IsBytes rest
    → a ≢ b
    → memory_crc (front ++ (a ∷ rest)) ≢ memory_crc (front ++ (b ∷ rest))
unfolding memory_crc
memory_crc-detects front a b rest ha hb h ne e =
    run_differs 0xFFFFFFFF front a b rest (omega arith) ha hb h ne (xor_inj_right _ _ 0xFFFFFFFF e)
