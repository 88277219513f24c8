-- ===== src/Security/Nodes.antt =====
-- The security of packets between two nodes that share their keys and nothing else: each has its own
-- stack.
use cubesat_space_protocol.Base.{
  ℕ, ◌+◌, ◌≤◌, ◌<◌, ◌≡◌, ◌^◌, List, length, refl, ap, subst, if◌then◌else◌,
}
use cubesat_space_protocol.Error.{err_hmac}
use cubesat_space_protocol.Header.{has, fhmac, so_hmacreq}
use cubesat_space_protocol.Crc32.{Verdict}
use cubesat_space_protocol.Sha1.{blocksize}
use cubesat_space_protocol.Hmac.Stack.{hmac_verify-stack}
use cubesat_space_protocol.Security.{
  Keys, Crypto, Errors, Checked, passed, rejected, overrun, counted, step_of, then_with, protect,
  check_xtea, check_crc, check_hmac, check, security_check,
}
use cubesat_space_protocol.Security.Roundtrip.{IsMet, Restored, security_check-own}

-- The keys of two nodes are the same; on the stack of each there is a block for SHA1.
pub record Share (k k' : Crypto) : Type 0 where
  pub keys : k.keys ≡ k'.keys
  pub block : length k.stack ≡ blocksize
  pub block' : length k'.stack ≡ blocksize

then_with-same :
    (r : Checked) (f g : List ℕ → ℕ → Checked)
    → ((m : List ℕ) (n : ℕ) → f m n ≡ g m n)
    → then_with r f ≡ then_with r g
then_with-same (passed m n) f g h = h m n
then_with-same (rejected e) f g h = refl
then_with-same overrun f g h = refl

module _ (ks : Keys) (b b' h h' : List ℕ) where
  abbrev one : Crypto
  one = record { keys = ks; stack = b; hmac = h }

  abbrev other : Crypto
  other = record { keys = ks; stack = b'; hmac = h' }

  check_hmac-same :
      (opts flags n : ℕ) (m : List ℕ)
      → length b ≡ blocksize
      → length b' ≡ blocksize
      → 1 ≤ length ks.hmac_key
      → check_hmac one opts flags m n ≡ check_hmac other opts flags m n
  unfolding check_hmac
  check_hmac-same opts flags n m size size' keyed =
      ap
        (λ (v : Verdict).
          if has flags fhmac
          then step_of v err_hmac m
          else if has opts so_hmacreq
          then rejected err_hmac
          else passed m n)
        (hmac_verify-stack b b' size size' h h' ks.hmac_key m n keyed)

  check-same :
      (opts flags n : ℕ) (m : List ℕ)
      → length b ≡ blocksize
      → length b' ≡ blocksize
      → 1 ≤ length ks.hmac_key
      → check one opts flags m n ≡ check other opts flags m n
  unfolding check check_xtea check_crc
  check-same opts flags n m size size' keyed =
      then_with-same (check_xtea one opts flags m n) _ _ λ m' n'.
        then_with-same (check_crc one opts flags m' n') _ _
          λ m'' n''. check_hmac-same opts flags n'' m'' size size' keyed

  Restored-same :
      (opts flags n n' : ℕ) (c : Errors) (m memory : List ℕ)
      → length b ≡ blocksize
      → length b' ≡ blocksize
      → 1 ≤ length ks.hmac_key
      → let (r, c') = security_check one opts flags c m n in
        Restored r memory n' × (c' ≡ c)
        → let (r, c') = security_check other opts flags c m n in Restored r memory n' × (c' ≡ c)
  unfolding security_check
  Restored-same opts flags n n' c m memory size size' keyed =
      subst (λ r. Restored r memory n' × (counted r c ≡ c))
        (check-same opts flags n m size size' keyed)

-- What the check of one node comes to, that of the other one does.
Restored-Share :
    (k k' : Crypto) (opts flags n n' : ℕ) (c : Errors) (m memory : List ℕ)
    → Share k k'
    → 1 ≤ length k.keys.hmac_key
    → let (r, c') = security_check k opts flags c m n in
      Restored r memory n' × (c' ≡ c)
      → let (r, c') = security_check k' opts flags c m n in Restored r memory n' × (c' ≡ c)
Restored-Share k k' opts flags n n' c m memory v keyed passes =
    subst
      (λ ks.
        let there : Crypto = record { keys = ks; stack = k'.stack; hmac = k'.hmac } in
        let (r, c') = security_check there opts flags c m n in Restored r memory n' × (c' ≡ c))
      v.keys
      (Restored-same k.keys k.stack k'.stack k.hmac k'.hmac opts flags n n' c m memory v.block
        v.block' keyed passes)

-- A sender and a receiver with the same keys, an HMAC key among them, each with a stack of its own that holds anything; a packet with room for 12 bytes more; and whatever of authentication, checksum and encryption the flags ask for: if the receiver requires nothing else, its check passes what the sender makes of the packet, gives back its length and its bytes, and counts no error.
pub security_check-protect :
    (k k' : Crypto) (opts flags nonce n : ℕ) (memory : List ℕ) (c : Errors)
    → Share k k'
    → n + 12 ≤ length memory
    → n + 12 < 2 ^ 16
    → nonce < 2 ^ 32
    → 1 ≤ length k.keys.hmac_key
    → IsMet opts flags
    → let (m', n') = protect k flags nonce (memory, n) in
      let (r, c') = security_check k' opts flags c m' n' in Restored r memory n × (c' ≡ c)
security_check-protect k k' opts flags nonce n memory c v fits small h keyed met =
    let (m', n') = protect k flags nonce (memory, n) in
    Restored-Share k k' opts flags n' n c m' memory v keyed
      (security_check-own k opts flags nonce n memory c fits small h keyed met)
