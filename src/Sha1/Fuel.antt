-- ===== src/Sha1/Fuel.antt =====
-- libCSP/trunk/src/crypto/csp_sha1.c: the loop of `csp_sha1_process` ends, on any input.
use cubesat_space_protocol.Base.{
  ℕ, zero, suc, ◌+◌, ◌-◌, ◌≤◌, ◌<◌, ◌≡◌, List, [], ◌∷◌, length, length-drop, drop, min, leb, ◌==◌,
  ◌&&◌, inl, inr, Bool-cases, refl, arith,
}
use cubesat_space_protocol.Sha1.{Sha1, blocksize, process_step, process_on, full_block}

-- A round takes a byte at least, and leaves room in the block.
process_step-takes :
    (s : Sha1) (input : List ℕ)
    → s.curlen < blocksize
    → 1 ≤ length input
    → (1 ≤ (process_step s input).1) × ((process_step s input).0.curlen < blocksize)
unfolding process_step full_block
process_step-takes s input h some_left =
    elim (Bool-cases ((s.curlen == 0) && leb blocksize (length input))) [
      | inl e ↦ rw e (omega arith, h)
      | inr e ↦ rw e (
        omega (arith, h, some_left),
        elim (Bool-cases (s.curlen + min (length input) (blocksize - s.curlen) == blocksize)) [
          | inl q ↦ rw q (omega arith)
          | inr q ↦ rw q (ground (arith, h))
        ],
      )
    ]

-- Any fuel from the length of the input on gives the same.
pub process_on_enough :
    (fuel more : ℕ) (s : Sha1) (input : List ℕ)
    → s.curlen < blocksize
    → length input ≤ fuel
    → length input ≤ more
    → process_on fuel s input ≡ process_on more s input
unfolding process_on
process_on_enough fuel more s [] h f m = refl
process_on_enough zero more s (b ∷ bs) h f m = absurd (omega arith)
process_on_enough (suc fuel) zero s (b ∷ bs) h f m = absurd (omega arith)
process_on_enough (suc fuel) (suc more) s (b ∷ bs) h f m =
    let (took, room) = process_step-takes s (b ∷ bs) h (omega arith) in
    let (s', n) = process_step s (b ∷ bs) in
    process_on_enough fuel more s' (drop n (b ∷ bs)) room (omega (arith, length-drop n (b ∷ bs), f))
      (omega (arith, length-drop n (b ∷ bs), m))
