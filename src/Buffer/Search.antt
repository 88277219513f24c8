-- ===== src/Buffer/Search.antt =====
-- The search loop of `csp_buffer_get_isr`: it ends, and it finds a free element if any but the last
-- one given is free.
use cubesat_space_protocol.Base.{
  ℕ, zero, suc, ◌≤◌, ◌<◌, ◌≡◌, ◌≢◌, inl, inr, get_or, ◌==◌, ==_iff, Bool-cases, true, false, refl,
  arith,
}
use cubesat_space_protocol.Base.Cycle.{
  next, distance, next-lt, distance-next, distance-lt, distance_inj,
}
use native.Mathlib.Decide.{ℕ_discrete as dec_eq}
use cubesat_space_protocol.Buffer.{
  State, free, used, Pool, IsPool, is_free, Found, at, nowhere, spent, search,
}

-- The state of element `j`; there is nothing free outside the list.
abbrev pub state_of : Pool → ℕ → State
state_of p j = get_or p.list j used

-- What a search from `i` may come to.
abbrev pub Outcome : Pool → ℕ → Found → Type 0
Outcome p i (at k) = (k < p.count) × (k ≢ p.last_given) × (state_of p k ≡ free)
Outcome p i nowhere =
    (j : ℕ)
    → j < p.count
    → distance p.count p.last_given j ≤ distance p.count p.last_given i
    → j ≢ p.last_given
    → state_of p j ≡ used
Outcome p i spent = ⊥

not_free : (s : State) → is_free s ≡ false → s ≡ used
not_free free h = ground arith
not_free used h = refl

is_free→free : (s : State) → is_free s ≡ true → s ≡ free
is_free→free free h = refl
is_free→free used h = ground arith

later :
    {p : Pool} (i : ℕ) (r : Found)
    → IsPool p
    → i < p.count
    → i ≢ p.last_given
    → state_of p i ≡ used
    → Outcome p (next p.count i) r
    → Outcome p i r
later i (at k) v hi ne u h = h
later {p} i nowhere v hi ne u h =
    λ j hj d jne. elim (dec_eq j i) [ yes e ↦ rw e u | no ji ↦ h j hj (closer j hj d ji) jne ]
  where
    closer :
        (j : ℕ)
        → j < p.count
        → distance p.count p.last_given j ≤ distance p.count p.last_given i
        → j ≢ i
        → distance p.count p.last_given j ≤ distance p.count p.last_given (next p.count i)
    closer j hj d ji = omega (
      arith,
      distance-next p.count p.last_given i hi v.given_in ne,
      λ (e : distance p.count p.last_given j ≡ distance p.count p.last_given i).
          ji (distance_inj p.count p.last_given j i hj hi v.given_in e),
    )
later i spent v hi ne u h = h

at_last :
    {p : Pool} (i j : ℕ)
    → IsPool p
    → i ≡ p.last_given
    → j < p.count
    → distance p.count p.last_given j ≤ distance p.count p.last_given i
    → j ≢ p.last_given
    → state_of p j ≡ used
at_last {p} i j v e hj d ne =
    absurd (
      ne (distance_inj p.count p.last_given j p.last_given hj v.given_in v.given_in (ground arith)))

-- With more fuel than steps to the last element the loop ends.
pub search-Outcome :
    (fuel : ℕ) {p : Pool} (i : ℕ)
    → IsPool p
    → i < p.count
    → distance p.count p.last_given i < fuel
    → Outcome p i (search fuel p i)
unfolding search
search-Outcome zero i v hi d = absurd (omega arith)
search-Outcome (suc fuel) {p} i v hi d = elim (Bool-cases (i == p.last_given)) [
  | inl e ↦ rw e (λ j hj dj ne. at_last i j v ((==_iff i p.last_given).0 e) hj dj ne)
  | inr e ↦ rw e (elim (Bool-cases (is_free (state_of p i))) [
    | inl f ↦ rw f (hi, not_last e, is_free→free (state_of p i) f)
    | inr f ↦ rw f (
        later i (search fuel p (next p.count i)) v hi (not_last e) (not_free (state_of p i) f)
          (search-Outcome fuel (next p.count i) v (next-lt p.count i hi) (one_less e)))
  ])
]
  where
    not_last : (i == p.last_given) ≡ false → i ≢ p.last_given
    not_last e = ground arith

    one_less : (i == p.last_given) ≡ false → distance p.count p.last_given (next p.count i) < fuel
    one_less e = omega (arith, distance-next p.count p.last_given i hi v.given_in (not_last e))

-- So the fuel that `get` gives is enough, and its search covers the whole pool.
pub search_pool :
    {p : Pool}
    → IsPool p
    → Outcome p (next p.count p.last_given) (search p.count p (next p.count p.last_given))
search_pool {p} v =
    let first = next-lt p.count p.last_given v.given_in in
    search-Outcome p.count (next p.count p.last_given) v first
      (distance-lt p.count p.last_given (next p.count p.last_given) first v.given_in)
