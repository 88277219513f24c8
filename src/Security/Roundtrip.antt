-- ===== src/Security/Roundtrip.antt =====
-- What `csp_send_direct` adds to a packet, `csp_route_security_check` takes away again.
use cubesat_space_protocol.Base.{
  ℕ, ◌+◌, ◌-◌, ◌%◌, ◌^◌, ◌≤◌, ◌<◌, ◌≡◌, List, [], ◌∷◌, length, take, drop, blit, length-blit,
  take-blit, take-drop-blit, take_shorter, if◌then◌else◌, Bool, Bool-cases, true, false, inl, inr,
  ltb, ltb-false, ◌||◌, bytes32, word32, word32-bytes32, refl, ap, ◌∙◌, arith,
}
use cubesat_space_protocol.Header.{has, fhmac, fcrc32, fxtea, so_hmacreq, so_crc32req, so_xteareq}
use cubesat_space_protocol.Error.{err_crc32, err_hmac, err_xtea}
use cubesat_space_protocol.Endian.{hton32, ntoh32}
use cubesat_space_protocol.Endian.Swap.{ntoh-hton, hton32-lt}
use cubesat_space_protocol.Crc32.{append, verify, stripped}
use cubesat_space_protocol.Crc32.Packets.{
  verify-append, verify-same, append-length, length-append_crc,
}
use cubesat_space_protocol.Hmac.{hmac_append, hmac_verify}
use cubesat_space_protocol.Hmac.Packets.{
  hmac_verify-append, hmac_verify-same, hmac_append-length, length-hmac_append,
}
use cubesat_space_protocol.Xtea.{encrypt, decrypt}
use cubesat_space_protocol.Xtea.Modes.{length-encrypt, decrypt-encrypt, drop-encrypt}
use cubesat_space_protocol.Security.{
  Crypto, Area, Errors, counted, Checked, passed, rejected, overrun, step_of, then_with, add_hmac,
  add_crc, add_xtea, protect, check_xtea, check_crc, check_hmac, check, security_check,
}

-- The receiver requires nothing that the flags do not say.
pub record IsMet (opts flags : ℕ) : Type 0 where
  pub xtea : has flags fxtea ≡ false → has opts so_xteareq ≡ false
  pub crc : has flags fcrc32 ≡ false → has opts so_crc32req ≡ false
  pub hmac : has flags fhmac ≡ false → has opts so_hmacreq ≡ false

-- The packet of `n` bytes is there again, in an area of the same size.
abbrev pub Restored : Checked → List ℕ → ℕ → Type 0
Restored (rejected e) memory n = ⊥
Restored overrun memory n = ⊥
Restored (passed m n') memory n = (n' ≡ n) × (take n m ≡ take n memory) × (length m ≡ length memory)

-- What one step leaves: a length within the area, the packet in front, and an area of the same size.
abbrev Grown : Area → List ℕ → ℕ → Type 0
Grown (m, n') memory n =
    (n ≤ n') × (n' ≤ n + 4) × (take n m ≡ take n memory) × (length m ≡ length memory)

hmac_key-passes :
    (stack hmac key memory : List ℕ) (n : ℕ)
    → 1 ≤ length key
    → n + 4 ≤ length memory
    → n + 4 < 2 ^ 16
    → let (memory', n') = hmac_append stack hmac key memory n in
      (hmac_verify stack hmac key memory' n' ≡ stripped n) × (take n memory' ≡ take n memory)
hmac_key-passes stack hmac [] memory n keyed fits small = absurd (omega arith)
hmac_key-passes stack hmac (b ∷ bs) memory n keyed fits small =
    hmac_verify-append stack hmac b bs memory n fits small

module _ (k : Crypto) where
  add_crc-Grown :
      (flags n : ℕ) (memory : List ℕ)
      → n + 4 ≤ length memory
      → n + 4 < 2 ^ 16
      → Grown (add_crc k flags (memory, n)) memory n
  unfolding add_crc
  add_crc-Grown flags n memory fits small = elim (Bool-cases (has flags fcrc32)) [
    | inl e ↦ rw e (
      omega (arith, append-length memory n small),
      omega (arith, append-length memory n small),
      (verify-append memory n fits small).1,
      length-append_crc memory n,
    )
    | inr e ↦ rw e (omega arith, omega arith, refl, refl)
  ]

  -- The step for a flag that is set or not.
  crc_flag :
      (set : Bool) (opts n : ℕ) (memory m : List ℕ)
      → n + 4 ≤ length memory
      → n + 4 < 2 ^ 16
      → (set ≡ false → has opts so_crc32req ≡ false)
      → let (m', n') = (if set then append memory n else (memory, n)) in
        take n' m ≡ take n' m'
        → length m ≡ length memory
        → (if set
            then step_of (verify m n') err_crc32 m
            else if has opts so_crc32req
            then rejected err_crc32
            else passed m n')
          ≡ passed m n
  crc_flag false opts n memory m fits small met same size = rw (met refl) refl
  crc_flag true opts n memory m fits small met same size =
      let len = append-length memory n small in
      ap (λ r. step_of r err_crc32 m)
        (verify-same m (append memory n).0 (append memory n).1 (omega (arith, len))
            (omega (arith, len, small)) (omega (arith, len, size, fits))
            (omega (arith, len, length-append_crc memory n, fits)) same
          ∙ (verify-append memory n fits small).0)

  check_crc-add_crc :
      (opts flags n : ℕ) (memory m : List ℕ)
      → n + 4 ≤ length memory
      → n + 4 < 2 ^ 16
      → IsMet opts flags
      → let (m', n') = add_crc k flags (memory, n) in
        take n' m ≡ take n' m' → length m ≡ length memory → check_crc k opts flags m n' ≡ passed m n
  unfolding add_crc check_crc
  check_crc-add_crc opts flags n memory m fits small v same size =
      crc_flag (has flags fcrc32) opts n memory m fits small v.crc same size

  add_hmac-Grown :
      (flags n : ℕ) (memory : List ℕ)
      → n + 4 ≤ length memory
      → n + 4 < 2 ^ 16
      → 1 ≤ length k.keys.hmac_key
      → Grown (add_hmac k flags (memory, n)) memory n
  unfolding add_hmac
  add_hmac-Grown flags n memory fits small keyed = elim (Bool-cases (has flags fhmac)) [
    | inl e ↦ rw e (
      omega (arith, hmac_append-length k.stack k.hmac k.keys.hmac_key memory n small),
      omega (arith, hmac_append-length k.stack k.hmac k.keys.hmac_key memory n small),
      (hmac_key-passes k.stack k.hmac k.keys.hmac_key memory n keyed fits small).1,
      length-hmac_append k.stack k.hmac k.keys.hmac_key memory n,
    )
    | inr e ↦ rw e (omega arith, omega arith, refl, refl)
  ]

  hmac_flag :
      (set : Bool) (opts n : ℕ) (memory m : List ℕ)
      → n + 4 ≤ length memory
      → n + 4 < 2 ^ 16
      → 1 ≤ length k.keys.hmac_key
      → (set ≡ false → has opts so_hmacreq ≡ false)
      → let (m', n') =
          (if set then hmac_append k.stack k.hmac k.keys.hmac_key memory n else (memory, n)) in
        take n' m ≡ take n' m'
        → length m ≡ length memory
        → (if set
            then step_of (hmac_verify k.stack k.hmac k.keys.hmac_key m n') err_hmac m
            else if has opts so_hmacreq
            then rejected err_hmac
            else passed m n')
          ≡ passed m n
  hmac_flag false opts n memory m fits small keyed met same size = rw (met refl) refl
  hmac_flag true opts n memory m fits small keyed met same size =
      let a = hmac_append k.stack k.hmac k.keys.hmac_key memory n in
      let len = hmac_append-length k.stack k.hmac k.keys.hmac_key memory n small in
      ap (λ r. step_of r err_hmac m)
        (hmac_verify-same k.stack k.hmac k.keys.hmac_key m a.0 a.1 (omega (arith, len))
            (omega (arith, len, small)) (omega (arith, len, size, fits))
            (omega (arith, len, length-hmac_append k.stack k.hmac k.keys.hmac_key memory n, fits))
            same
          ∙ (hmac_key-passes k.stack k.hmac k.keys.hmac_key memory n keyed fits small).0)

  check_hmac-add_hmac :
      (opts flags n : ℕ) (memory m : List ℕ)
      → n + 4 ≤ length memory
      → n + 4 < 2 ^ 16
      → 1 ≤ length k.keys.hmac_key
      → IsMet opts flags
      → let (m', n') = add_hmac k flags (memory, n) in
        take n' m ≡ take n' m'
        → length m ≡ length memory
        → check_hmac k opts flags m n' ≡ passed m n
  unfolding add_hmac check_hmac
  check_hmac-add_hmac opts flags n memory m fits small keyed v same size =
      hmac_flag (has flags fhmac) opts n memory m fits small keyed v.hmac same size

  -- The packet as it is sent, if it is encrypted.
  sealed : ℕ → List ℕ → ℕ → List ℕ
  sealed nonce memory n =
      (encrypt false k.keys.xtea_key (blit memory n (bytes32 (hton32 false nonce))) n nonce 1).0

  nonce_back :
      (nonce n : ℕ) (memory : List ℕ)
      → n + 4 ≤ length memory
      → nonce < 2 ^ 32
      → ntoh32 false (word32 (take 4 (drop n (sealed nonce memory n)))) ≡ nonce
  unfolding sealed
  nonce_back nonce n memory fits h =
      let bytes = bytes32 (hton32 false nonce) in
      ap (λ xs. ntoh32 false (word32 (take 4 xs)))
        (drop-encrypt false k.keys.xtea_key (blit memory n bytes) n nonce 1
          (omega (arith, length-blit memory n bytes)) (omega arith))
      ∙ ap (λ xs. ntoh32 false (word32 xs)) (take-drop-blit memory n bytes fits)
      ∙ ap (ntoh32 false) (word32-bytes32 (hton32 false nonce) (hton32-lt false nonce h))
      ∙ (ntoh-hton false nonce 0 h (omega arith)).0

  opened_again :
      (nonce n : ℕ) (memory : List ℕ)
      → n + 4 ≤ length memory
      → (decrypt false k.keys.xtea_key (sealed nonce memory n) n nonce 1).0
        ≡ blit memory n (bytes32 (hton32 false nonce))
  unfolding sealed
  opened_again nonce n memory fits =
      let bytes = bytes32 (hton32 false nonce) in
      decrypt-encrypt false k.keys.xtea_key (blit memory n bytes) n nonce 1
        (omega (arith, length-blit memory n bytes)) (omega arith)

  length-sealed : (nonce n : ℕ) (memory : List ℕ) → length (sealed nonce memory n) ≡ length memory
  unfolding sealed
  length-sealed nonce n memory =
      let bytes = bytes32 (hton32 false nonce) in
      length-encrypt false k.keys.xtea_key (blit memory n bytes) n nonce 1
      ∙ length-blit memory n bytes

  unsealed : List ℕ → ℕ → Checked
  unsealed m n' =
      let nonce = ntoh32 false (word32 (take 4 (drop (n' - 4) m))) in
      if ltb n' 4 || ltb (length m) n'
      then overrun
      else passed (decrypt false k.keys.xtea_key m (n' - 4) nonce 1).0 (n' - 4)

  unsealed-sealed :
      (nonce n : ℕ) (memory : List ℕ)
      → n + 4 ≤ length memory
      → nonce < 2 ^ 32
      → unsealed (sealed nonce memory n) (n + 4)
        ≡ passed (blit memory n (bytes32 (hton32 false nonce))) n
  unfolding unsealed
  unsealed-sealed nonce n memory fits h =
      let back : n + 4 - 4 ≡ n = omega arith in
      rw
        (
          ltb-false (n + 4) 4 (omega arith),
          ltb-false (length (sealed nonce memory n)) (n + 4)
              (omega (arith, length-sealed nonce n memory)),
          back,
          nonce_back nonce n memory fits h,
          opened_again nonce n memory fits,
        )
        refl

  xtea_flag :
      (set : Bool) (opts nonce n : ℕ) (memory : List ℕ)
      → n + 4 ≤ length memory
      → n + 4 < 2 ^ 16
      → nonce < 2 ^ 32
      → (set ≡ false → has opts so_xteareq ≡ false)
      → let r : Area = if set then (sealed nonce memory n, (n + 4) % 2 ^ 16) else (memory, n) in
        Restored
          (if set
            then unsealed r.0 r.1
            else if has opts so_xteareq
            then rejected err_xtea
            else passed r.0 r.1)
          memory
          n
  xtea_flag false opts nonce n memory fits small h met = rw (met refl) (refl, refl, refl)
  xtea_flag true opts nonce n memory fits small h met =
      let bytes = bytes32 (hton32 false nonce) in
      let len : (n + 4) % 2 ^ 16 ≡ n + 4 = omega arith in
      rw (len, unsealed-sealed nonce n memory fits h)
        (refl, take-blit memory n n bytes (omega arith), length-blit memory n bytes)

  check_xtea-add_xtea :
      (opts flags nonce n : ℕ) (memory : List ℕ)
      → n + 4 ≤ length memory
      → n + 4 < 2 ^ 16
      → nonce < 2 ^ 32
      → IsMet opts flags
      → let (m', n') = add_xtea k flags nonce (memory, n) in
        Restored (check_xtea k opts flags m' n') memory n
  unfolding add_xtea check_xtea sealed unsealed
  check_xtea-add_xtea opts flags nonce n memory fits small h v =
      xtea_flag (has flags fxtea) opts nonce n memory fits small h v.xtea

  -- The steps behind decryption, on what it has left.
  behind :
      (opts flags n : ℕ) (memory : List ℕ) (r : Checked)
      → n + 12 ≤ length memory
      → n + 12 < 2 ^ 16
      → 1 ≤ length k.keys.hmac_key
      → IsMet opts flags
      → let a = add_hmac k flags (memory, n) in
        let b = add_crc k flags a in
        Restored r b.0 b.1
        → Restored
            (then_with r λ m' n'.
              then_with (check_crc k opts flags m' n') λ m'' n''. check_hmac k opts flags m'' n'')
            memory
            n
  behind opts flags n memory (passed m n') fits small keyed v (e, same, size) =
      let a = add_hmac k flags (memory, n) in
      let b = add_crc k flags a in
      let (ha, ha', ta, la) =
        add_hmac-Grown flags n memory (omega (arith, fits)) (omega (arith, small)) keyed in
      let fits' : a.1 + 4 ≤ length a.0 = omega (arith, fits, ha', la) in
      let small' : a.1 + 4 < 2 ^ 16 = omega (arith, small, ha') in
      let (hb, hb', tb, lb) = add_crc-Grown flags a.1 a.0 fits' small' in
      let crc_ok = check_crc-add_crc opts flags a.1 a.0 m fits' small' v same (size ∙ lb) in
      let same' = take_shorter a.1 b.1 m b.0 hb same ∙ tb in
      let hmac_ok =
        check_hmac-add_hmac opts flags n memory m (omega (arith, fits)) (omega (arith, small)) keyed
          v same' (size ∙ lb ∙ la) in
      rw (e, crc_ok, hmac_ok) (refl, take_shorter n a.1 m a.0 ha same' ∙ ta, size ∙ lb ∙ la)
  behind opts flags n memory (rejected e) fits small keyed v h = h
  behind opts flags n memory overrun fits small keyed v h = h

  counted-Restored :
      (r : Checked) (c : Errors) (memory : List ℕ) (n : ℕ) → Restored r memory n → counted r c ≡ c
  counted-Restored (passed m n') c memory n h = refl
  counted-Restored (rejected e) c memory n h = elim h [ ]
  counted-Restored overrun c memory n h = elim h [ ]

  -- A node with an HMAC key passes what it has made of a packet itself.
  pub security_check-own :
      (opts flags nonce n : ℕ) (memory : List ℕ) (c : Errors)
      → n + 12 ≤ length memory
      → n + 12 < 2 ^ 16
      → nonce < 2 ^ 32
      → 1 ≤ length k.keys.hmac_key
      → IsMet opts flags
      → let (m', n') = protect k flags nonce (memory, n) in
        let (r, c') = security_check k opts flags c m' n' in Restored r memory n × (c' ≡ c)
  unfolding protect security_check check
  security_check-own opts flags nonce n memory c fits small h keyed v =
      let a = add_hmac k flags (memory, n) in
      let b = add_crc k flags a in
      let sent = add_xtea k flags nonce b in
      let (ha, ha', ta, la) =
        add_hmac-Grown flags n memory (omega (arith, fits)) (omega (arith, small)) keyed in
      let (hb, hb', tb, lb) =
        add_crc-Grown flags a.1 a.0 (omega (arith, fits, ha', la)) (omega (arith, small, ha')) in
      let opened =
        check_xtea-add_xtea opts flags nonce b.1 b.0 (omega (arith, fits, ha', hb', la, lb))
          (omega (arith, small, ha', hb')) h v in
      let whole =
        behind opts flags n memory (check_xtea k opts flags sent.0 sent.1) fits small keyed v
          opened in
      (whole, counted-Restored (check k opts flags sent.0 sent.1) c memory n whole)
