-- ===== src/Base/Cycle.antt =====
-- Walking round an array: `i = (i + 1) % count`, and how far the walk is from its end.
use cubesat_space_protocol.Base.{
  ℕ, ◌+◌, ◌-◌, ◌%◌, ◌≤◌, ◌<◌, ◌≡◌, ◌≢◌, ◌⊎◌, inl, inr, ltb, if◌then◌else◌, arith,
}
use native.Mathlib.Nat.{mod-eq_of_lt, mod_self}
use native.Mathlib.Decide.{dec_lt}

abbrev pub next : ℕ → ℕ → ℕ
next count i = (i + 1) % count

pub next_cases :
    (count i : ℕ)
    → i < count
    → ((i + 1 < count) × (next count i ≡ i + 1)) ⊎ ((i + 1 ≡ count) × (next count i ≡ 0))
next_cases count i h = elim (dec_lt (i + 1) count) [
  | yes p ↦ inl (p, mod-eq_of_lt p)
  | no p ↦ let last : i + 1 ≡ count = omega arith in inr (last, rw last (mod_self count))
]

pub next-lt : (count i : ℕ) → i < count → next count i < count
next-lt count i h = omega arith

-- The steps from `i` to `last`.
abbrev pub distance : ℕ → ℕ → ℕ → ℕ
distance count last i = if ltb last i then last + count - i else last - i

pub distance-next :
    (count last i : ℕ)
    → i < count
    → last < count
    → i ≢ last
    → distance count last (next count i) + 1 ≡ distance count last i
distance-next count last i hi hl ne = ground (arith, next_cases count i hi)

pub distance-lt : (count last i : ℕ) → i < count → last < count → distance count last i < count
distance-lt count last i hi hl = ground arith

pub distance_inj :
    (count last i j : ℕ)
    → i < count
    → j < count
    → last < count
    → distance count last i ≡ distance count last j
    → i ≡ j
distance_inj count last i j hi hj hl e = ground arith

-- The walk that starts after `last` has the whole array before it.
pub distance-after :
    (count last j : ℕ)
    → j < count
    → last < count
    → distance count last j ≤ distance count last (next count last)
distance-after count last j hj hl = ground (arith, next_cases count last hl)
