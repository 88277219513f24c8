-- ===== src/Transport/Sequence.antt =====
-- libCSP/trunk/src/transport/csp_rdp.c: the comparison of sequence numbers and times that wrap.
use cubesat_space_protocol.Base.{ℕ, ◌+◌, ◌-◌, ◌%◌, ◌^◌, ◌≤◌, ◌<◌, ◌≡◌, ◌↔◌, Bool, true, leb, arith}

-- The difference in w bits.
abbrev pub wrap_sub : ℕ → ℕ → ℕ → ℕ
wrap_sub w a b = (a % 2 ^ w + 2 ^ w - b % 2 ^ w) % 2 ^ w

-- `csp_rdp_seq_between`
unfoldable pub seq_between : ℕ → ℕ → ℕ → Bool
seq_between seq start end = leb (wrap_sub 16 seq start) (wrap_sub 16 end start)

-- `csp_rdp_seq_before`
unfoldable pub seq_before : ℕ → ℕ → Bool
seq_before seq cmp = leb (2 ^ 15) (wrap_sub 16 seq cmp)

-- `csp_rdp_seq_after`
unfoldable pub seq_after : ℕ → ℕ → Bool
unfolding seq_before
seq_after seq cmp = seq_before cmp seq

-- `csp_rdp_time_between`
pub time_between : ℕ → ℕ → ℕ → Bool
time_between time start end = leb (wrap_sub 32 time start) (wrap_sub 32 end start)

-- `csp_rdp_time_before`
unfoldable pub time_before : ℕ → ℕ → Bool
time_before time cmp = leb (2 ^ 31) (wrap_sub 32 time cmp)

-- `csp_rdp_time_after`
unfoldable pub time_after : ℕ → ℕ → Bool
unfolding time_before
time_after time cmp = time_before cmp time

-- Numbers that started from `n` in unbounded counting and are no more than half the range apart are compared as if they never wrapped.
pub seq_before_iff :
    (m n : ℕ)
    → m < n + 2 ^ 15
    → n < m + 2 ^ 15
    → (seq_before (m % 2 ^ 16) (n % 2 ^ 16) ≡ true) ↔ (m < n)
unfolding seq_before
seq_before_iff m n h k = (λ e. ground (arith, e, h, k), λ lt. ground (arith, lt, h, k))

-- A window of unbounded numbers, no longer than the range: being in it is decided from the wrapped numbers.
pub seq_between_iff :
    (start len m : ℕ)
    → len < 2 ^ 16
    → start ≤ m
    → m < start + 2 ^ 16
    → (seq_between (m % 2 ^ 16) (start % 2 ^ 16) ((start + len) % 2 ^ 16) ≡ true)
      ↔ (m ≤ start + len)
unfolding seq_between
seq_between_iff start len m h k l =
    (λ e. ground (arith, e, h, k, l), λ le. ground (arith, le, h, k, l))
