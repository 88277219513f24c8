-- ===== src/Hmac/Packets.antt =====
-- libCSP/trunk/src/crypto/csp_hmac.c: appending and checking the code of a packet.
use cubesat_space_protocol.Base.{
  ℕ, ◌+◌, ◌-◌, ◌%◌, ◌^◌, ◌≤◌, ◌<◌, ◌≡◌, ◌↔◌, List, ◌∷◌, length, take, drop, blit, length-blit,
  take-blit, take-drop-blit, take_shorter, ap₂, ltb-false, if◌then◌else◌, refl, ap, ◌∙◌, sym, subst,
  arith,
}
use cubesat_space_protocol.Crc32.{stripped, failed, same_bytes}
use cubesat_space_protocol.Crc32.Packets.{covered_lem, accepts, last_same}
use cubesat_space_protocol.Hmac.{
  hmac_memory, hmac_init, hmac_process, hmac_done, tag, hmac_append, hmac_verify,
}
use cubesat_space_protocol.Sha1.{done}

-- With a key there is a code, and the packet carries four bytes of it.
length-tag :
    (stack hmac : List ℕ) (k : ℕ) (ks bytes : List ℕ) → length (tag stack hmac (k ∷ ks) bytes) ≡ 4
unfolding hmac_memory hmac_init hmac_process hmac_done done
length-tag stack hmac k ks bytes = refl

hmac_verify_lem :
    (stack hmac key memory : List ℕ) (n : ℕ)
    → 4 ≤ n
    → n < 2 ^ 16
    → n ≤ length memory
    → hmac_verify stack hmac key memory n ≡ (
        if same_bytes (take 4 (drop (n - 4) memory)) (tag stack hmac key (take (n - 4) memory))
        then stripped (n - 4)
        else failed)
unfolding hmac_verify
hmac_verify_lem stack hmac key memory n four small fits =
    rw (covered_lem n four small, ltb-false (length memory) (n - 4) (omega arith)) refl

-- `csp_hmac_verify` accepts a packet of at least four bytes exactly when its last four are those of the code of the others, and then strips them.
pub hmac_verify_iff :
    (stack hmac key memory : List ℕ) (n : ℕ)
    → 4 ≤ n
    → n < 2 ^ 16
    → n ≤ length memory
    → (hmac_verify stack hmac key memory n ≡ stripped (n - 4))
      ↔ (take 4 (drop (n - 4) memory) ≡ tag stack hmac key (take (n - 4) memory))
hmac_verify_iff stack hmac key memory n four small fits =
    rw (hmac_verify_lem stack hmac key memory n four small fits)
      (accepts (n - 4) (take 4 (drop (n - 4) memory)) (tag stack hmac key (take (n - 4) memory)))

verify_tag :
    (stack hmac key memory : List ℕ) (n : ℕ)
    → n + 4 ≤ length memory
    → n + 4 < 2 ^ 16
    → take 4 (drop n memory) ≡ tag stack hmac key (take n memory)
    → hmac_verify stack hmac key memory ((n + 4) % 2 ^ 16) ≡ stripped n
verify_tag stack hmac key memory n fits small e =
    ap (hmac_verify stack hmac key memory) length_eq
    ∙ (hmac_verify_iff stack hmac key memory (n + 4) (omega arith) small fits).1 (rw back e)
    ∙ ap stripped back
  where
    length_eq : (n + 4) % 2 ^ 16 ≡ n + 4
    length_eq = omega arith

    back : n + 4 - 4 ≡ n
    back = omega arith

-- With a key, a packet with room for the code passes `csp_hmac_verify` after `csp_hmac_append` and has its length and its bytes back.
pub hmac_verify-append :
    (stack hmac : List ℕ) (k : ℕ) (ks memory : List ℕ) (n : ℕ)
    → n + 4 ≤ length memory
    → n + 4 < 2 ^ 16
    → let (memory', n') = hmac_append stack hmac (k ∷ ks) memory n in
      (hmac_verify stack hmac (k ∷ ks) memory' n' ≡ stripped n) × (take n memory' ≡ take n memory)
unfolding hmac_append
hmac_verify-append stack hmac k ks memory n fits small =
    let code = tag stack hmac (k ∷ ks) (take n memory) in
    let four = length-tag stack hmac k ks (take n memory) in
    let kept : take n (blit memory n code) ≡ take n memory =
      take-blit memory n n code (omega arith) in
    (
      verify_tag stack hmac (k ∷ ks) (blit memory n code) n
          (omega (arith, length-blit memory n code, fits)) small
          (subst (λ m. take m (drop n (blit memory n code)) ≡ code) four
              (take-drop-blit memory n code (omega (arith, four, fits)))
            ∙ ap (tag stack hmac (k ∷ ks)) (sym kept)),
      kept,
    )

-- The verdict depends on the packet alone, not on what lies behind it.
pub hmac_verify-same :
    (stack hmac key m m' : List ℕ) (n : ℕ)
    → 4 ≤ n
    → n < 2 ^ 16
    → n ≤ length m
    → n ≤ length m'
    → take n m ≡ take n m'
    → hmac_verify stack hmac key m n ≡ hmac_verify stack hmac key m' n
hmac_verify-same stack hmac key m m' n four small h h' e =
    hmac_verify_lem stack hmac key m n four small h
    ∙ ap₂
        (λ (xs ys : List ℕ).
          if same_bytes xs (tag stack hmac key ys) then stripped (n - 4) else failed)
        (last_same m m' n four e) (take_shorter (n - 4) n m m' (omega arith) e)
    ∙ sym (hmac_verify_lem stack hmac key m' n four small h')

pub hmac_append-length :
    (stack hmac key m : List ℕ) (n : ℕ)
    → n + 4 < 2 ^ 16
    → (hmac_append stack hmac key m n).1 ≡ n + 4
unfolding hmac_append
hmac_append-length stack hmac key m n h = omega arith

pub length-hmac_append :
    (stack hmac key m : List ℕ) (n : ℕ) → length (hmac_append stack hmac key m n).0 ≡ length m
unfolding hmac_append
length-hmac_append stack hmac key m n = length-blit m n (tag stack hmac key (take n m))
