-- ===== src/Buffer/Get.antt =====
-- What `csp_buffer_get` promises: the element that it hands out, and when it hands out none.
use cubesat_space_protocol.Base.{
  ℕ, ◌*◌, ◌≤◌, ◌<◌, ◌≡◌, ◌≢◌, ◌⊎◌, inl, inr, ◌↔◌, set, length-set, ltb, Bool-cases, refl, subst,
  Option, none, some, arith,
}
use cubesat_space_protocol.Base.Cycle.{next, distance-after}
use cubesat_space_protocol.Buffer.{
  free, used, Pool, IsPool, Found, at, nowhere, spent, take_element, get, add_size, packet_overhead,
}
use cubesat_space_protocol.Buffer.Search.{state_of, Outcome, search_pool}

-- `p'` is `p` with the free element `slot`, at distance `offset`, marked as used.
pub record Granted (p : Pool) (offset : ℕ) (p' : Pool) : Type 0 where
  pub slot : ℕ
  pub starts : offset ≡ slot * p.size
  pub in_range : slot < p.count
  pub not_last : slot ≢ p.last_given
  pub was_free : state_of p slot ≡ free
  pub marked : p'.list ≡ set p.list slot used
  pub same_size : p'.size ≡ p.size
  pub valid : IsPool p'

-- No element other than the last one given is free.
abbrev pub OthersUsed : Pool → Type 0
OthersUsed p = (j : ℕ) → j < p.count → j ≢ p.last_given → state_of p j ≡ used

abbrev pub TooLarge : Pool → ℕ → Type 0
TooLarge p n = p.size < add_size n packet_overhead

-- What a call of `get` may answer.
abbrev pub Answer : Pool → ℕ → Option ℕ × Pool → Type 0
Answer p n (some offset, p') = Granted p offset p' × (add_size n packet_overhead ≤ p.size)
Answer p n (none, p') = (p' ≡ p) × (TooLarge p n ⊎ OthersUsed p)

take-Answer :
    (p : Pool) (n : ℕ) (r : Found)
    → IsPool p
    → add_size n packet_overhead ≤ p.size
    → Outcome p (next p.count p.last_given) r
    → Answer p n (take_element p r)
unfolding take_element
take-Answer p n (at i) v fits h = (
  record {
    slot = i;
    starts = refl;
    in_range = h.0;
    not_last = h.1;
    was_free = h.2;
    marked = refl;
    same_size = refl;
    valid = record {
      some_elements = v.some_elements;
      some_bytes = v.some_bytes;
      listed = ground (arith, length-set p.list i used);
      given_in = omega arith;
    };
  },
  fits,
)
take-Answer p n nowhere v fits h =
    (refl, inr (λ j hj ne. h j hj (distance-after p.count p.last_given j hj v.given_in) ne))
take-Answer p n spent v fits h = absurd h

-- `csp_buffer_get` either hands out a free element, marks it, keeps the pool set up, and the
-- request and the packet overhead fit its size; or it changes nothing, and the request is too large
-- or no element except the last one given is free. Its search always ends.
pub get-Answer : {p : Pool} (n : ℕ) → IsPool p → Answer p n (get p n)
unfolding get
get-Answer {p} n v = elim (Bool-cases (ltb p.size (add_size n packet_overhead))) [
  | inl large ↦ rw large (refl, inl (ground arith))
  | inr fits ↦ rw fits (take-Answer p n _ v (ground arith) (search_pool v))
]

-- `csp_buffer_get` returns NULL exactly when the request is too large or no element except the last
-- one given is free; whether that one is free makes no difference.
pub get-none_iff :
    {p : Pool} (n : ℕ) → IsPool p → ((get p n).0 ≡ none) ↔ (TooLarge p n ⊎ OthersUsed p)
get-none_iff {p} n v =
    (none_only (get p n) (get-Answer n v), λ w. nothing (get p n) (get-Answer n v) w)
  where
    none_only : (r : Option ℕ × Pool) → Answer p n r → r.0 ≡ none → TooLarge p n ⊎ OthersUsed p
    none_only (none, p') a e = a.1
    none_only (some x, p') a e = absurd (cc e)

    nothing : (r : Option ℕ × Pool) → Answer p n r → TooLarge p n ⊎ OthersUsed p → r.0 ≡ none
    nothing (none, p') a w = refl
    nothing (some x, p') a (inl large) = absurd (omega (arith, a.1))
    nothing (some x, p') a (inr others) =
        absurd (cc (a.0.was_free, others a.0.slot a.0.in_range a.0.not_last))

-- What a successful call did.
pub get-Granted :
    {p : Pool} (n : ℕ) {offset : ℕ} {p' : Pool}
    → IsPool p
    → get p n ≡ (some offset, p')
    → Granted p offset p'
get-Granted {p} n v e = (subst (Answer p n) e (get-Answer n v)).0
