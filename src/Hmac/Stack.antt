-- ===== src/Hmac/Stack.antt =====
-- libCSP/trunk/src/crypto/csp_hmac.c: what the arrays on the stack hold before they are written does not
-- matter, so that two nodes with the same key agree on every code.
use cubesat_space_protocol.Base.{
  ℕ, ◌-◌, ◌≤◌, ◌≡◌, List, [], ◌∷◌, ◌++◌, take, drop, length, ltb, replicate, ap, ◌∙◌, arith,
  if◌then◌else◌,
}
use cubesat_space_protocol.Crc32.{out_of_bounds, stripped, failed, same_bytes, covered}
use cubesat_space_protocol.Sha1.{Sha1, blocksize, init, process, done}
use cubesat_space_protocol.Sha1.Stack.{
  Agree, Agree-size, init-Agree, process-Agree, done-Agree, sha1_memory-same,
}
use cubesat_space_protocol.Hmac.{
  digestsize, key_length, hmac_length, xor_all, block_key, hmac_init, hmac_process, hmac_done,
  hmac_memory, set_key, hmac_verify,
}

module _ (stack stack' : List ℕ) (h : length stack ≡ blocksize)
    (h' : length stack' ≡ blocksize) where
  block_key-same : (key : List ℕ) → block_key stack key ≡ block_key stack' key
  unfolding block_key
  block_key-same key =
      ap
        (λ l.
          if ltb blocksize (length key)
          then l ++ replicate (blocksize - digestsize) 0
          else key ++ replicate (blocksize - length key) 0)
        (sha1_memory-same stack stack' key h h')

  hmac_done-same :
      (md md' : Sha1) (key : List ℕ)
      → Agree md md'
      → hmac_done (record { md = md; key = key }) ≡ hmac_done (record { md = md'; key = key })
  unfolding hmac_done
  hmac_done-same md md' key same =
      let (size, size') = Agree-size md md' same in
      let outer = init-Agree md.buf md'.buf size size' in
      let keyed = process-Agree _ _ (xor_all key 0x5C) outer in
      ap (λ isha. take digestsize (done (process (process (init md.buf) (xor_all key 0x5C)) isha)))
        (done-Agree md md' same)
      ∙ ap (take digestsize) (done-Agree _ _ (process-Agree _ _ (done md') keyed))

  hmac_memory-same :
      (k : ℕ) (ks bytes hmac hmac' : List ℕ)
      → hmac_memory stack (k ∷ ks) bytes hmac ≡ hmac_memory stack' (k ∷ ks) bytes hmac'
  unfolding hmac_memory hmac_init hmac_process
  hmac_memory-same k ks bytes hmac hmac' =
      let first = block_key stack (k ∷ ks) in
      let started = process-Agree _ _ (xor_all first 0x36) (init-Agree stack stack' h h') in
      hmac_done-same _ _ first (process-Agree _ _ bytes started)
      ∙ ap
          (λ b.
            hmac_done
              (record { md = process (process (init stack') (xor_all b 0x36)) bytes; key = b }))
          (block_key-same (k ∷ ks))

  -- The key of a password is the same on two nodes.
  set_key-same : (key : List ℕ) → set_key stack key ≡ set_key stack' key
  unfolding set_key
  set_key-same key = ap (take key_length) (sha1_memory-same stack stack' key h h')

  pub hmac_verify-stack :
      (hmac hmac' key memory : List ℕ) (n : ℕ)
      → 1 ≤ length key
      → hmac_verify stack hmac key memory n ≡ hmac_verify stack' hmac' key memory n
  unfolding hmac_verify
  hmac_verify-stack hmac hmac' [] memory n keyed = absurd (omega arith)
  hmac_verify-stack hmac hmac' (k ∷ ks) memory n keyed =
      ap
        (λ code.
          if ltb (length memory) (covered n)
          then out_of_bounds
          else if same_bytes (take hmac_length (drop (n - hmac_length) memory))
              (take hmac_length code)
          then stripped (n - hmac_length)
          else failed)
        (hmac_memory-same k ks (take (covered n) memory) hmac hmac')
