-- ===== src/Conn/Pool/Find.antt =====
-- libCSP/trunk/src/csp_conn.c: what `csp_conn_find` comes to on any array.
use cubesat_space_protocol.Base.{
  ℕ, zero, suc, ◌+◌, ◌<◌, ◌≡◌, inl, inr, List, [], ◌∷◌, Option, none, some, get_elem?, length,
  Bool-cases, Bool, true, false, refl, arith,
}
use cubesat_space_protocol.Conn.{Conn}
use cubesat_space_protocol.Conn.Pool.{matches, find_from, find}

-- Whether the connection at `j` is one that the search is for.
abbrev pub matches_at : List Conn → ℕ → ℕ → ℕ → Bool
matches_at cs j id mask = elim (get_elem? cs j) [ none ↦ false | some c ↦ matches c id mask ]

-- The first match, counted from `k`.
abbrev pub First : List Conn → ℕ → ℕ → ℕ → Option ℕ → Type 0
First cs k id mask none = (j : ℕ) → matches_at cs j id mask ≡ false
First cs k id mask (some r) =
    (i : ℕ) × (r ≡ k + i)
    × (i < length cs)
    × (matches_at cs i id mask ≡ true)
    × ((j : ℕ) → j < i → matches_at cs j id mask ≡ false)

skip :
    (c : Conn) (cs : List Conn) (k id mask : ℕ) (r : Option ℕ)
    → matches c id mask ≡ false
    → First cs (suc k) id mask r
    → First (c ∷ cs) k id mask r
skip c cs k id mask none e h = λ j. by_index j
  where
    by_index : (j : ℕ) → matches_at (c ∷ cs) j id mask ≡ false
    by_index zero = e
    by_index (suc j) = h j
skip c cs k id mask (some r) e (i, at, lt, m, before) =
    (suc i, omega arith, omega arith, m, λ j. by_index j)
  where
    by_index : (j : ℕ) → j < suc i → matches_at (c ∷ cs) j id mask ≡ false
    by_index zero lt' = e
    by_index (suc j) lt' = before j (omega arith)

find_from-First : (cs : List Conn) (k id mask : ℕ) → First cs k id mask (find_from cs k id mask)
unfolding find_from
find_from-First [] k id mask = λ j. refl
find_from-First (c ∷ cs) k id mask = elim (Bool-cases (matches c id mask)) [
  | inl e ↦ rw e (0, omega arith, omega arith, e, λ j h. absurd (omega arith))
  | inr e ↦
      rw e
        (skip c cs k id mask (find_from cs (suc k) id mask) e (find_from-First cs (suc k) id mask))
]

-- A search of the connections gives the first open connection whose incoming identifier agrees with the given one on the mask; if it gives none, no connection does.
pub find-First : (cs : List Conn) (id mask : ℕ) → First cs 0 id mask (find cs id mask)
unfolding find
find-First cs id mask = find_from-First cs 0 id mask
