-- ===== src/Sha1/Stack.antt =====
-- libCSP/trunk/src/crypto/csp_sha1.c: what `buf` holds before it is written does not matter.
use cubesat_space_protocol.Base.{
  ℕ, zero, suc, ◌+◌, ◌-◌, ◌*◌, ◌%◌, ◌^◌, ◌≤◌, ◌<◌, ◌≡◌, List, [], ◌∷◌, ◌++◌, take, drop, blit,
  length, length-blit, length-take, take_add-blit, replicate, length-replicate, min, leb, ltb, ◌==◌,
  ==_iff, ◌&&◌, Bool-cases, inl, inr, refl, sym, ap, ◌∙◌, subst, arith, if◌then◌else◌,
}
use cubesat_space_protocol.Sha1.{
  Sha1, Words, blocksize, compress, store32, store64, init, full_block, padded, spill, process_step,
  process_on, process, done, sha1_memory,
}

-- Two states that differ at most in the part of `buf` that is still to be written.
pub data Agree : Sha1 → Sha1 → Type 0 where
  agree :
      (n : ℕ) (w : Words) (k : ℕ) (b b' : List ℕ)
      → k < blocksize
      → length b ≡ blocksize
      → length b' ≡ blocksize
      → take k b ≡ take k b'
      → Agree
          (record { length = n; state = w; curlen = k; buf = b })
          (record { length = n; state = w; curlen = k; buf = b' })

written :
    (k n : ℕ) (b b' vs : List ℕ)
    → length vs ≡ n
    → k + n ≤ blocksize
    → length b ≡ blocksize
    → length b' ≡ blocksize
    → take k b ≡ take k b'
    → take (k + n) (blit b k vs) ≡ take (k + n) (blit b' k vs)
written k n b b' vs size fits h h' e =
    take_add-blit k n b vs size (omega (arith, fits, h))
    ∙ ap (λ l. l ++ vs) e
    ∙ sym (take_add-blit k n b' vs size (omega (arith, fits, h')))

take_whole : (n : ℕ) (b : List ℕ) → length b ≡ n → take n b ≡ b
take_whole zero [] h = refl
take_whole zero (x ∷ b) h = absurd (omega arith)
take_whole (suc n) [] h = refl
take_whole (suc n) (x ∷ b) h = ap (◌∷◌ x) (take_whole n b (omega (arith, h)))

filled :
    (k n : ℕ) (b b' vs : List ℕ)
    → length vs ≡ n
    → k + n ≡ blocksize
    → length b ≡ blocksize
    → length b' ≡ blocksize
    → take k b ≡ take k b'
    → blit b k vs ≡ blit b' k vs
filled k n b b' vs size full h h' e =
    let same = written k n b b' vs size (omega (arith, full)) h h' e in
    sym (take_whole blocksize (blit b k vs) (length-blit b k vs ∙ h))
    ∙ subst (λ m. take m (blit b k vs) ≡ take m (blit b' k vs)) full same
    ∙ take_whole blocksize (blit b' k vs) (length-blit b' k vs ∙ h')

-- A full block.
full-Agree :
    (n k : ℕ) (w : Words) (b b' : List ℕ)
    → b ≡ b'
    → length b ≡ blocksize
    → Agree
        (full_block (record { length = n; state = w; curlen = k; buf = b }))
        (full_block (record { length = n; state = w; curlen = k; buf = b' }))
unfolding full_block
full-Agree n k w b b' e h =
    subst
      (λ c.
        Agree (full_block (record { length = n; state = w; curlen = k; buf = b }))
          (full_block (record { length = n; state = w; curlen = k; buf = c })))
      e (agree _ (compress w b) 0 b b (omega arith) h h refl)

copied-Agree :
    (n k m : ℕ) (w : Words) (b b' vs : List ℕ)
    → length vs ≡ m
    → k + m ≤ blocksize
    → length b ≡ blocksize
    → length b' ≡ blocksize
    → take k b ≡ take k b'
    → let s : Sha1 = record { length = n; state = w; curlen = k + m; buf = blit b k vs } in
      let s' : Sha1 = record { length = n; state = w; curlen = k + m; buf = blit b' k vs } in
      Agree
        (if s.curlen == blocksize then full_block s else s)
        (if s'.curlen == blocksize then full_block s' else s')
copied-Agree n k m w b b' vs size fits h h' e = elim (Bool-cases (k + m == blocksize)) [
  | inl q ↦ rw q (
      full-Agree n (k + m) w (blit b k vs) (blit b' k vs)
        (filled k m b b' vs size ((==_iff (k + m) blocksize).0 q) h h' e) (length-blit b k vs ∙ h))
  | inr q ↦ rw q (
      agree n w (k + m) (blit b k vs) (blit b' k vs) (ground (arith, q, fits))
        (length-blit b k vs ∙ h) (length-blit b' k vs ∙ h') (written k m b b' vs size fits h h' e))
]

step-Agree :
    (s s' : Sha1) (input : List ℕ)
    → Agree s s'
    → Agree (process_step s input).0 (process_step s' input).0
      × ((process_step s input).1 ≡ (process_step s' input).1)
unfolding process_step
step-Agree _ _ input (agree n w k b b' lt h h' e) =
    let m = min (length input) (blocksize - k) in
    elim (Bool-cases ((k == 0) && leb blocksize (length input))) [
      | inl q ↦ rw q (agree _ _ k b b' lt h h' e, refl)
      | inr q ↦ rw q (
        copied-Agree n k m w b b' (take m input) (omega (arith, length-take m input))
            (omega (arith, lt)) h h' e,
        refl,
      )
    ]

process_on-Agree :
    (fuel : ℕ) (s s' : Sha1) (input : List ℕ)
    → Agree s s'
    → Agree (process_on fuel s input) (process_on fuel s' input)
unfolding process_on
process_on-Agree fuel s s' [] h = h
process_on-Agree zero s s' (b ∷ bs) h = h
process_on-Agree (suc fuel) s s' (b ∷ bs) h =
    let (next, took) = step-Agree s s' (b ∷ bs) h in
    let x = process_step s (b ∷ bs) in
    let x' = process_step s' (b ∷ bs) in
    subst
      (λ n.
        Agree (process_on fuel x.0 (drop x.1 (b ∷ bs))) (process_on fuel x'.0 (drop n (b ∷ bs))))
      took (process_on-Agree fuel x.0 x'.0 (drop x.1 (b ∷ bs)) next)

pub process-Agree :
    (s s' : Sha1) (input : List ℕ) → Agree s s' → Agree (process s input) (process s' input)
unfolding process
process-Agree s s' input h = process_on-Agree (length input) s s' input h

-- The last block and the digest.
abbrev digest : Words → List ℕ
digest r = store32 r.a ++ (store32 r.b ++ (store32 r.c ++ (store32 r.d ++ store32 r.e)))

last_block :
    (l : ℕ) (w : Words) (b b' : List ℕ)
    → length b ≡ blocksize
    → length b' ≡ blocksize
    → take 56 b ≡ take 56 b'
    → digest (compress w (blit b 56 (store64 l))) ≡ digest (compress w (blit b' 56 (store64 l)))
last_block l w b b' h h' e =
    ap (λ c. digest (compress w c)) (filled 56 8 b b' (store64 l) refl refl h h' e)

padded-same :
    (k m : ℕ) (b b' : List ℕ)
    → k ≤ m
    → m ≤ blocksize
    → length b ≡ blocksize
    → length b' ≡ blocksize
    → take k b ≡ take k b'
    → take m (blit b k (replicate (m - k) 0)) ≡ take m (blit b' k (replicate (m - k) 0))
padded-same k m b b' le fits h h' e =
    let zeros : List ℕ = replicate (m - k) 0 in
    let up_to : k + (m - k) ≡ m = omega (arith, le) in
    subst (λ j. take j (blit b k zeros) ≡ take j (blit b' k zeros)) up_to
      (written k (m - k) b b' zeros (length-replicate (m - k) 0) (omega (arith, le, fits)) h h' e)

pub done-Agree : (s s' : Sha1) → Agree s s' → done s ≡ done s'
unfolding done spill padded
done-Agree _ _ (agree n w k b b' lt h h' e) =
    let c = blit b k (0x80 ∷ []) in
    let c' = blit b' k (0x80 ∷ []) in
    let l = (n + k * 8) % 2 ^ 64 in
    let size : length c ≡ blocksize = length-blit b k (0x80 ∷ []) ∙ h in
    let size' : length c' ≡ blocksize = length-blit b' k (0x80 ∷ []) ∙ h' in
    let same = written k 1 b b' (0x80 ∷ []) refl (omega (arith, lt)) h h' e in
    elim (Bool-cases (ltb 56 (k + 1))) [
      | inl q ↦ rw q (
          let zeros : List ℕ = replicate (blocksize - (k + 1)) 0 in
          ap
            (λ d.
              digest (compress (compress w d) (blit (blit d 0 (replicate 56 0)) 56 (store64 l))))
            (filled (k + 1) (blocksize - (k + 1)) c c' zeros
              (length-replicate (blocksize - (k + 1)) 0) (omega (arith, lt)) size size' same))
      | inr q ↦ rw q (
          let zeros : List ℕ = replicate (56 - (k + 1)) 0 in
          last_block l w (blit c (k + 1) zeros) (blit c' (k + 1) zeros)
            (length-blit c (k + 1) zeros ∙ size) (length-blit c' (k + 1) zeros ∙ size')
            (padded-same (k + 1) 56 c c' (ground (arith, q)) (omega arith) size size' same))
    ]

pub init-Agree :
    (b b' : List ℕ) → length b ≡ blocksize → length b' ≡ blocksize → Agree (init b) (init b')
unfolding init
init-Agree b b' h h' = agree _ _ 0 b b' (omega arith) h h' refl

-- The digest of a message is the same whatever the stack held.
pub sha1_memory-same :
    (b b' msg : List ℕ)
    → length b ≡ blocksize
    → length b' ≡ blocksize
    → sha1_memory b msg ≡ sha1_memory b' msg
unfolding sha1_memory
sha1_memory-same b b' msg h h' =
    done-Agree _ _ (process-Agree (init b) (init b') msg (init-Agree b b' h h'))

pub Agree-size :
    (s s' : Sha1) → Agree s s' → (length s.buf ≡ blocksize) × (length s'.buf ≡ blocksize)
Agree-size _ _ (agree n w k b b' lt h h' e) = (h, h')
