-- ===== src/Crc32/Packets.antt =====
-- Appending and checking the checksum of a packet.
use cubesat_space_protocol.Base.{
  ℕ, ◌+◌, ◌-◌, ◌%◌, ◌^◌, ◌≤◌, ◌<◌, ◌≡◌, ◌↔◌, List, [], ◌∷◌, length, take, drop, blit, length-blit,
  take-blit, take-drop-blit, drop-take, take_shorter, ap₂, ltb-false, lt→ltb, if◌then◌else◌,
  Bool-cases, inl, inr, true, bytes32, refl, ap, ◌∙◌, sym, arith,
}
use cubesat_space_protocol.Crc32.{
  memory_crc, append, stripped, failed, out_of_bounds, same_bytes, covered, verify,
}

pub same_bytes_refl : (bs : List ℕ) → same_bytes bs bs ≡ true
same_bytes_refl [] = refl
same_bytes_refl (b ∷ bs) = ground (arith, same_bytes_refl bs)

pub same_bytes_eq : (as' bs : List ℕ) → same_bytes as' bs ≡ true → as' ≡ bs
same_bytes_eq [] [] h = refl
same_bytes_eq [] (b ∷ bs) h = ground arith
same_bytes_eq (a ∷ r) [] h = ground arith
same_bytes_eq (a ∷ r) (b ∷ bs) h = ground (arith, same_bytes_eq r bs)

pub covered_lem : (n : ℕ) → 4 ≤ n → n < 2 ^ 16 → covered n ≡ n - 4
covered_lem n h k = omega arith

verify_lem :
    (memory : List ℕ) (n : ℕ)
    → 4 ≤ n
    → n < 2 ^ 16
    → n ≤ length memory
    → verify memory n ≡ (
        if same_bytes (take 4 (drop (n - 4) memory)) (bytes32 (memory_crc (take (n - 4) memory)))
        then stripped (n - 4)
        else failed)
unfolding verify
verify_lem memory n four small fits =
    rw (covered_lem n four small, ltb-false (length memory) (n - 4) (omega arith))

pub last_same :
    (m m' : List ℕ) (n : ℕ)
    → 4 ≤ n
    → take n m ≡ take n m'
    → take 4 (drop (n - 4) m) ≡ take 4 (drop (n - 4) m')
last_same m m' n four e =
    let whole : n - 4 + 4 ≡ n = omega arith in
    sym (drop-take (n - 4) 4 m)
    ∙ ap (λ k. drop (n - 4) (take k m)) whole
    ∙ ap (drop (n - 4)) e
    ∙ ap (λ k. drop (n - 4) (take k m')) (sym whole)
    ∙ drop-take (n - 4) 4 m'

pub accepts :
    (m : ℕ) (xs ys : List ℕ)
    → ((if same_bytes xs ys then stripped m else failed) ≡ stripped m) ↔ (xs ≡ ys)
accepts m xs ys = elim (Bool-cases (same_bytes xs ys)) [
  | inl e ↦ rw e (λ _. same_bytes_eq xs ys e, λ _. refl)
  | inr e ↦ rw e (
    λ (h : failed ≡ stripped m). absurd (cc h),
    λ (h : xs ≡ ys). absurd (cc (e, same_bytes_refl xs, h)),
  )
]

-- `csp_crc32_verify` accepts a packet of at least four bytes exactly when its last four are the
-- checksum of the others, and then strips them.
pub verify_iff :
    (memory : List ℕ) (n : ℕ)
    → 4 ≤ n
    → n < 2 ^ 16
    → n ≤ length memory
    → (verify memory n ≡ stripped (n - 4))
      ↔ (take 4 (drop (n - 4) memory) ≡ bytes32 (memory_crc (take (n - 4) memory)))
verify_iff memory n four small fits =
    rw (verify_lem memory n four small fits)
      (accepts (n - 4) (take 4 (drop (n - 4) memory)) (bytes32 (memory_crc (take (n - 4) memory))))

verify_sum :
    (memory : List ℕ) (n : ℕ)
    → n + 4 ≤ length memory
    → n + 4 < 2 ^ 16
    → take 4 (drop n memory) ≡ bytes32 (memory_crc (take n memory))
    → verify memory ((n + 4) % 2 ^ 16) ≡ stripped n
verify_sum memory n fits small e =
    ap (verify memory) length_eq
    ∙ (verify_iff memory (n + 4) (omega arith) small fits).1 (rw back e)
    ∙ ap stripped back
  where
    length_eq : (n + 4) % 2 ^ 16 ≡ n + 4
    length_eq = omega arith

    back : n + 4 - 4 ≡ n
    back = omega arith

-- A packet with room for the checksum passes `csp_crc32_verify` after `csp_crc32_append`, and has its
-- length and its bytes back.
pub verify-append :
    (memory : List ℕ) (n : ℕ)
    → n + 4 ≤ length memory
    → n + 4 < 2 ^ 16
    → let (memory', n') = append memory n in
      (verify memory' n' ≡ stripped n) × (take n memory' ≡ take n memory)
unfolding append
verify-append memory n fits small =
    let sum = bytes32 (memory_crc (take n memory)) in
    let kept : take n (blit memory n sum) ≡ take n memory =
      take-blit memory n n sum (omega arith) in
    (
      verify_sum (blit memory n sum) n (omega (arith, length-blit memory n sum, fits)) small (
          take-drop-blit memory n sum fits
          ∙ ap (λ (bs : List ℕ). bytes32 (memory_crc bs)) (sym kept)),
      kept,
    )

-- `csp_crc32_verify` reads outside the data area for every packet shorter than a checksum.
pub verify_short :
    (memory : List ℕ) (n : ℕ) → n < 4 → length memory < 2 ^ 16 → verify memory n ≡ out_of_bounds
unfolding verify
verify_short memory n h k = rw (lt→ltb (length memory) (covered n) (omega arith))

-- The verdict depends on the packet alone, not on what lies behind it.
pub verify-same :
    (m m' : List ℕ) (n : ℕ)
    → 4 ≤ n
    → n < 2 ^ 16
    → n ≤ length m
    → n ≤ length m'
    → take n m ≡ take n m'
    → verify m n ≡ verify m' n
verify-same m m' n four small h h' e =
    verify_lem m n four small h
    ∙ ap₂
        (λ (xs ys : List ℕ).
          if same_bytes xs (bytes32 (memory_crc ys)) then stripped (n - 4) else failed)
        (last_same m m' n four e) (take_shorter (n - 4) n m m' (omega arith) e)
    ∙ sym (verify_lem m' n four small h')

pub append-length : (m : List ℕ) (n : ℕ) → n + 4 < 2 ^ 16 → (append m n).1 ≡ n + 4
unfolding append
append-length m n h = omega arith

pub length-append_crc : (m : List ℕ) (n : ℕ) → length (append m n).0 ≡ length m
unfolding append
length-append_crc m n = length-blit m n (bytes32 (memory_crc (take n m)))
