-- ===== src/Crc32/Table.antt =====
-- Facts about `crc_tab`, by evaluation: its entries are words of 32 bits, and their highest bytes
-- are all different.
use cubesat_space_protocol.Base.{
  ℕ, ◌+◌, ◌/◌, ◌^◌, ◌<◌, ◌≡◌, List, [], ◌∷◌, get_or, ltb, ltb→lt, ◌==◌, ==_iff, if◌then◌else◌, true,
  refl, sym, ap, ◌∙◌,
}
use cubesat_space_protocol.Base.Checked.{passes, passes_at}
use cubesat_space_protocol.Crc32.{crc_tab}

abbrev pub table : ℕ → ℕ
table x = get_or crc_tab x 0

-- The place of the first entry, from `i` on, with this highest byte.
place : ℕ → ℕ → List ℕ → ℕ
place top i [] = i
place top i (e ∷ es) = if e / 2 ^ 24 == top then i else place top (i + 1) es

words : passes (λ x. ltb (table x) (2 ^ 32)) 256 ≡ true
unfolding passes crc_tab
words = refl

places : passes (λ x. place (table x / 2 ^ 24) 0 crc_tab == x) 256 ≡ true
unfolding passes crc_tab place
places = refl

pub table-lt : (x : ℕ) → x < 256 → table x < 2 ^ 32
table-lt x h = ltb→lt _ _ (passes_at (λ y. ltb (table y) (2 ^ 32)) 256 x h words)

pub table_top_inj : (x y : ℕ) → x < 256 → y < 256 → table x / 2 ^ 24 ≡ table y / 2 ^ 24 → x ≡ y
table_top_inj x y hx hy e = sym (at x hx) ∙ ap (λ (t : ℕ). place t 0 crc_tab) e ∙ at y hy
  where
    at : (z : ℕ) → z < 256 → place (table z / 2 ^ 24) 0 crc_tab ≡ z
    at z h =
        (==_iff _ z).0 (passes_at (λ t. place (table t / 2 ^ 24) 0 crc_tab == t) 256 z h places)
