-- ===== src/Buffer/Free.antt =====
-- `csp_buffer_free` and `csp_buffer_remaining`: elements go back, and are counted.
use cubesat_space_protocol.Base.{
  ℕ, zero, suc, ◌+◌, ◌*◌, ◌/◌, ◌≤◌, ◌<◌, ◌≡◌, List, [], ◌∷◌, get_or, set, length, length-set,
  get_or-set_self, get_or-set_ne, ◌==◌, refl, ap, sym, ◌∙◌, some, if◌then◌else◌, arith,
}
use cubesat_space_protocol.Buffer.{
  State, free, used, Pool, IsPool, get, freed_index, put_back, remaining_in, remaining,
}
use cubesat_space_protocol.Buffer.Search.{state_of}
use cubesat_space_protocol.Buffer.Get.{Granted, get-Granted}
use native.Mathlib.Nat.{mul-add-div_right, div-eq_of_lt}

-- A pointer into element `i` is taken for that element.
index_of : (size i k : ℕ) → k < size → (i * size + k) / size ≡ i
index_of size i k h = omega (arith, mul-add-div_right {m = size} (omega arith) i k, div-eq_of_lt h)

freed_index-in :
    (p : Pool) (i k : ℕ) → k < p.size → i < p.count → freed_index p (i * p.size + k) ≡ some i
unfolding freed_index
freed_index-in p i k hk hi = ground (arith, index_of p.size i k hk)

-- `csp_buffer_free` of any pointer into element `i` makes that element free, changes the state of
-- no other and keeps the pool set up.
pub put_back_lem :
    (p : Pool) (i k j : ℕ)
    → IsPool p
    → i < p.count
    → k < p.size
    → let p' = put_back p (i * p.size + k) in
      (state_of p' j ≡ (if j == i then free else state_of p j)) × IsPool p'
unfolding put_back
put_back_lem p i k j v hi hk =
    rw (freed_index-in p i k hk hi, put_back)
      (ground
        (arith, get_or-set_self p.list i free used, get_or-set_ne p.list i j free used, sizes))
  where
    sizes : (length (set p.list i free) ≡ p.count) × (length p.list ≡ p.count)
    sizes = (length-set p.list i free ∙ v.listed, v.listed)

set_back : (l : List State) (i : ℕ) → get_or l i used ≡ free → set (set l i used) i free ≡ l
set_back [] i h = refl
set_back (s ∷ l) zero h = ap (λ t. t ∷ l) (sym h)
set_back (s ∷ l) (suc i) h = ap (◌∷◌ s) (set_back l i h)

-- Freeing the pointer that `csp_buffer_get` returned gives back the states from before the call.
put_back-get :
    {p : Pool} (n : ℕ) {offset : ℕ} {p' : Pool}
    → IsPool p
    → get p n ≡ (some offset, p')
    → (put_back p' offset).list ≡ p.list
unfolding put_back
put_back-get {p} n {offset} {p'} v e =
    let g = get-Granted n v e in
    rw (there g, put_back)
      (ap (λ l. set l g.slot free) g.marked ∙ set_back p.list g.slot g.was_free)
  where
    there : (g : Granted p offset p') → freed_index p' offset ≡ some g.slot
    there g =
        let same : p'.count ≡ p.count =
          omega
            (arith, v.listed, g.valid.listed, ap length g.marked, length-set p.list g.slot used) in
        let at_start : offset ≡ g.slot * p'.size + 0 =
          omega (arith, g.starts, ap (λ (t : ℕ). g.slot * t) g.same_size) in
        ap (freed_index p') at_start
        ∙ freed_index-in p' g.slot 0 g.valid.some_bytes (omega (arith, same, g.in_range))

remaining_in-set :
    (l : List State) (i : ℕ)
    → get_or l i used ≡ free
    → remaining_in (set l i used) + 1 ≡ remaining_in l
unfolding remaining_in
remaining_in-set [] i h = ground arith
remaining_in-set (s ∷ l) zero h = ground arith
remaining_in-set (s ∷ l) (suc i) h = omega (arith, remaining_in-set l i h)

-- A successful `csp_buffer_get` lowers `csp_buffer_remaining` by one.
pub remaining-get :
    {p : Pool} (n : ℕ) {offset : ℕ} {p' : Pool}
    → IsPool p
    → get p n ≡ (some offset, p')
    → remaining p' + 1 ≡ remaining p
unfolding remaining
remaining-get {p} n {offset} {p'} v e =
    let g = get-Granted n v e in
    ap (λ l. remaining_in l + 1) g.marked ∙ remaining_in-set p.list g.slot g.was_free

-- The guard of `csp_buffer_free` lets the first pointer behind the pool pass: the index that is
-- then written is no index of the list.
pub freed_index-past_end :
    {p : Pool} (k : ℕ)
    → IsPool p
    → k < p.size
    → (freed_index p (p.count * p.size + k) ≡ some p.count) × (length p.list ≤ p.count)
unfolding freed_index
freed_index-past_end {p} k v h =
    (ground (arith, index_of p.size p.count k h), omega (arith, v.listed))
