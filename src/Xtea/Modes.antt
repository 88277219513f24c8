-- ===== src/Xtea/Modes.antt =====
-- Counter mode: what encryption does to a buffer, and that decryption undoes it.
use cubesat_space_protocol.Base.{
  ℕ, ◌+◌, ◌-◌, ◌/◌, ◌^◌, ◌≤◌, ◌<◌, ◌≡◌, inr, List, length, get_or, get_or_ext, get_or-drop, drop,
  length-drop, sym, bit_xor, ltb, lt→ltb, ltb-false, if◌then◌else◌, Bool, ap, ◌∙◌, arith,
}
use cubesat_space_protocol.Base.Bits.{xor_cancel}
use cubesat_space_protocol.Xtea.{encrypt, decrypt}
use cubesat_space_protocol.Xtea.Stream.{
  stream_byte, length-crypt_blocks, crypt_blocks_inside, crypt_blocks_outside,
}
use native.Mathlib.Decide.{dec_lt}

module _ (big : Bool) (key : List ℕ) where
  pub length-encrypt :
      (buf : List ℕ) (len iv0 iv1 : ℕ) → length (encrypt big key buf len iv0 iv1).0 ≡ length buf
  unfolding encrypt
  length-encrypt buf len iv0 iv1 =
      length-crypt_blocks big key len iv0 iv1 ((len + 8 - 1) / 8) 0 iv1 buf

  -- `csp_xtea_encrypt` combines byte `j` of the first `len` with byte `j` of the stream that the key
  -- and the initial vector give, and leaves every byte behind them alone.
  pub encrypt_byte :
      (buf : List ℕ) (len iv0 iv1 j : ℕ)
      → len ≤ length buf
      → iv1 < 2 ^ 32
      → get_or (encrypt big key buf len iv0 iv1).0 j 0 ≡ (
          if ltb j len
          then bit_xor (get_or buf j 0) (stream_byte big key iv0 iv1 j)
          else get_or buf j 0)
  unfolding encrypt
  encrypt_byte buf len iv0 iv1 j fits small = elim (dec_lt j len) [
    | yes h ↦ rw (lt→ltb j len h) (
        crypt_blocks_inside big key len iv0 iv1 ((len + 8 - 1) / 8) 0 iv1 j buf (omega arith)
          (omega arith) fits (omega arith) h)
    | no h ↦ rw (ltb-false j len (omega arith)) (
        crypt_blocks_outside big key len iv0 iv1 ((len + 8 - 1) / 8) 0 iv1 j buf (omega arith)
          (inr (omega arith)))
  ]

  -- `csp_xtea_decrypt` with the same key and initial vector gives back the buffer from before
  -- `csp_xtea_encrypt`.
  pub decrypt-encrypt :
      (buf : List ℕ) (len iv0 iv1 : ℕ)
      → len ≤ length buf
      → iv1 < 2 ^ 32
      → (decrypt big key (encrypt big key buf len iv0 iv1).0 len iv0 iv1).0 ≡ buf
  unfolding decrypt
  decrypt-encrypt buf len iv0 iv1 fits small =
      get_or_ext 0 (encrypt big key cipher len iv0 iv1).0 buf
        (length-encrypt cipher len iv0 iv1 ∙ length-encrypt buf len iv0 iv1)
        λ j.
          encrypt_byte cipher len iv0 iv1 j (rw length-encrypt fits) small
          ∙ ap (λ (t : ℕ). if ltb j len then bit_xor t (stream_byte big key iv0 iv1 j) else t)
              (encrypt_byte buf len iv0 iv1 j fits small)
          ∙ twice (get_or buf j 0) (stream_byte big key iv0 iv1 j) j
    where
      cipher : List ℕ
      cipher = (encrypt big key buf len iv0 iv1).0

      twice :
          (x m j : ℕ)
          → (let y = if ltb j len then bit_xor x m else x in if ltb j len then bit_xor y m else y)
            ≡ x
      twice x m j = ground (arith, xor_cancel x m)

  -- What lies behind the part that is encrypted is kept.
  pub drop-encrypt :
      (buf : List ℕ) (len iv0 iv1 : ℕ)
      → len ≤ length buf
      → iv1 < 2 ^ 32
      → drop len (encrypt big key buf len iv0 iv1).0 ≡ drop len buf
  drop-encrypt buf len iv0 iv1 fits small =
      get_or_ext 0 (drop len (encrypt big key buf len iv0 iv1).0) (drop len buf)
        (length-drop len (encrypt big key buf len iv0 iv1).0
          ∙ ap (λ m. m - len) (length-encrypt buf len iv0 iv1)
          ∙ sym (length-drop len buf))
        λ j.
          get_or-drop len j (encrypt big key buf len iv0 iv1).0 0
          ∙ encrypt_byte buf len iv0 iv1 (len + j) fits small
          ∙ ap
              (λ b.
                if b
                then bit_xor (get_or buf (len + j) 0) (stream_byte big key iv0 iv1 (len + j))
                else get_or buf (len + j) 0)
              (ltb-false (len + j) len (omega arith))
          ∙ sym (get_or-drop len j buf 0)
