-- ===== src/Base/Bits.antt =====
-- Laws of `&`, `|` and `^` at variables, from the recursion on binary digits that the native
-- operations stand for.
mod Digits
use Digits.{and_digit, or_digit, xor_digit}
use mathlib.Core.Path.{◌≡◌, refl, sym, ap, ap₂, ◌∙◌}
use Prim.Native.Nat.{
  ℕ, zero, suc, ◌+◌, ◌-◌, ◌*◌, ◌/◌, ◌%◌, ◌^◌, ◌≤◌, ◌<◌, bit_and, bit_or, bit_xor, bit_or-bitwise,
  bit_xor-bitwise,
}
use native.Mathlib.Nat.{
  pow-suc, one-le-pow, div-div-eq-div-mul, div-add-mod, mod-lt, mul-add-mod_self_left, mod-eq_of_lt,
  mul-add-mod_self_right, mul-add-div_right, div-eq_of_lt, mul-div_cancel, mul-mod_left,
}
use native.Mathlib.Omega.{arith}

xor_half : (a b : ℕ) → bit_xor a b / 2 ≡ bit_xor (a / 2) (b / 2)
xor_half a b = omega (arith, xor_digit a b)

-- Every law goes from the halves to the numbers, so it is an induction on a bound.
xor_cancel_below : (n a b : ℕ) → a ≤ n → b ≤ n → bit_xor (bit_xor a b) b ≡ a
xor_cancel_below zero zero zero p q = refl
xor_cancel_below zero (suc a) b p q = absurd (omega arith)
xor_cancel_below zero zero (suc b) p q = absurd (omega arith)
xor_cancel_below (suc n) a b p q = omega (
  arith,
  xor_digit a b,
  xor_digit (bit_xor a b) b,
  ap (λ (t : ℕ). bit_xor t (b / 2)) (xor_half a b),
  xor_cancel_below n (a / 2) (b / 2) (omega arith) (omega arith),
)

-- `x ^ y ^ y` is `x`.
pub xor_cancel : (a b : ℕ) → bit_xor (bit_xor a b) b ≡ a
xor_cancel a b = xor_cancel_below (a + b) a b (omega arith) (omega arith)

-- `^` of two words of `k` bits has `k` bits.
pub xor-lt : (k a b : ℕ) → a < 2 ^ k → b < 2 ^ k → bit_xor a b < 2 ^ k
xor-lt zero zero zero p q = omega arith
xor-lt zero zero (suc b) p q = absurd (omega arith)
xor-lt zero (suc a) b p q = absurd (omega arith)
xor-lt (suc k) a b p q =
    let double = pow-suc 2 k in
    omega (arith, double, xor_digit a b, xor-lt k (a / 2) (b / 2) (omega arith) (omega arith))

and-zero_below : (n a : ℕ) → a ≤ n → bit_and a 0 ≡ 0
and-zero_below n zero p = refl
and-zero_below zero (suc a) p = absurd (omega arith)
and-zero_below (suc n) (suc a) p =
    omega (arith, and_digit (suc a) 0, and-zero_below n (suc a / 2) (omega arith))

pub and-zero : (a : ℕ) → bit_and a 0 ≡ 0
and-zero a = and-zero_below a a (omega arith)

or-zero_below : (n a : ℕ) → a ≤ n → bit_or a 0 ≡ a
or-zero_below n zero p = refl
or-zero_below zero (suc a) p = absurd (omega arith)
or-zero_below (suc n) (suc a) p =
    omega (arith, or_digit (suc a) 0, or-zero_below n (suc a / 2) (omega arith))

pub or-zero : (a : ℕ) → bit_or a 0 ≡ a
or-zero a = or-zero_below a a (omega arith)

double_pow : (m s : ℕ) → m * 2 ^ suc s ≡ 2 * (m * 2 ^ s)
double_pow m s = omega (arith, ap (λ (t : ℕ). m * t) (pow-suc 2 s))

half_of_double : (m s : ℕ) → m * 2 ^ suc s / 2 ≡ m * 2 ^ s
half_of_double m s = omega (arith, double_pow m s)

div-pow-suc : (a s : ℕ) → a / 2 / 2 ^ s ≡ a / 2 ^ suc s
div-pow-suc a s =
    div-div-eq-div-mul a 2 (2 ^ s) ∙ ap (λ (t : ℕ). a / t) (omega (arith, pow-suc 2 s))

-- A mask that is shifted to bit `s` selects from there on.
pub and_shifted : (s a m : ℕ) → bit_and a (m * 2 ^ s) ≡ bit_and (a / 2 ^ s) m * 2 ^ s
and_shifted zero a m =
    let unshifted : a / 1 ≡ a = omega arith in
    omega (arith, ap (λ (t : ℕ). bit_and a t) (mul_one m), ap (λ (t : ℕ). bit_and t m) unshifted)
  where
    mul_one : (t : ℕ) → t * 1 ≡ t
    mul_one t = omega arith
and_shifted (suc s) a m = omega (
  arith,
  and_digit a (m * 2 ^ suc s),
  double_pow m s,
  ap (λ (t : ℕ). bit_and (a / 2) t) (half_of_double m s),
  and_shifted s (a / 2) m,
  ap (λ (t : ℕ). bit_and t m * 2 ^ s) (div-pow-suc a s),
  double_pow (bit_and (a / 2 ^ suc s) m) s,
)

mod-pow-suc : (k a : ℕ) → a % 2 ^ suc k ≡ (a / 2 % 2 ^ k) * 2 + a % 2
mod-pow-suc k a =
    ap (λ (t : ℕ). t % 2 ^ suc k) split
    ∙ mul-add-mod_self_left (2 ^ suc k) (a / 2 / 2 ^ k) _
    ∙ mod-eq_of_lt fits
  where
    below : a / 2 % 2 ^ k < 2 ^ k
    below = mod-lt (a / 2) (one-le-pow k 2 (omega arith))

    fits : (a / 2 % 2 ^ k) * 2 + a % 2 < 2 ^ suc k
    fits = omega (arith, below, pow-suc 2 k)

    split : a ≡ 2 ^ suc k * (a / 2 / 2 ^ k) + ((a / 2 % 2 ^ k) * 2 + a % 2)
    split =
        omega
          (arith, div-add-mod (a / 2) (2 ^ k), ap (λ (t : ℕ). t * (a / 2 / 2 ^ k)) (pow-suc 2 k))

-- A mask of `k` low bits is the remainder by `2 ^ k`.
pub and_low : (k a : ℕ) → bit_and a (2 ^ k - 1) ≡ a % 2 ^ k
and_low zero a = omega (arith, and-zero a)
and_low (suc k) a = omega (
  arith,
  and_digit a (2 ^ suc k - 1),
  pow-suc 2 k,
  one-le-pow k 2,
  ap (λ (t : ℕ). bit_and (a / 2) t) low_half,
  and_low k (a / 2),
  mod-pow-suc k a,
)
  where
    low_half : (2 ^ suc k - 1) / 2 ≡ 2 ^ k - 1
    low_half = omega (arith, pow-suc 2 k, one-le-pow k 2)

-- A field of `k` bits at bit `s`, selected by its mask.
pub and_field : (s k a : ℕ) → bit_and a ((2 ^ k - 1) * 2 ^ s) ≡ (a / 2 ^ s % 2 ^ k) * 2 ^ s
and_field s k a = and_shifted s a (2 ^ k - 1) ∙ ap (λ (t : ℕ). t * 2 ^ s) (and_low k (a / 2 ^ s))

-- `|` of a high and a low part that do not meet is their sum.
pub or_sum : (k q r : ℕ) → r < 2 ^ k → bit_or (q * 2 ^ k) r ≡ q * 2 ^ k + r
or_sum zero q r fits =
    let empty : r ≡ 0 = omega arith in
    omega (arith, ap (λ (t : ℕ). bit_or (q * 1) t) empty, or-zero (q * 1))
or_sum (suc k) q r fits = omega (
  arith,
  or_digit (q * 2 ^ suc k) r,
  double_pow q k,
  ap (λ (t : ℕ). bit_or t (r / 2)) (half_of_double q k),
  or_sum k q (r / 2) (omega (arith, pow-suc 2 k)),
)

-- `|` works on the bits from `k` on and on the `k` bits below apart.
pub or_split :
    (k a b : ℕ)
    → bit_or a b ≡ bit_or (a / 2 ^ k) (b / 2 ^ k) * 2 ^ k + bit_or (a % 2 ^ k) (b % 2 ^ k)
or_split zero a b =
    let whole : (t : ℕ) → t / 1 ≡ t = λ t. omega arith in
    let rest : (t : ℕ) → t % 1 ≡ 0 = λ t. omega arith in
    rw (whole a, whole b, rest a, rest b) (omega (arith, or-zero 0))
or_split (suc k) a b = omega (
  arith,
  or_digit a b,
  or_split k (a / 2) (b / 2),
  ap₂ (λ (s t : ℕ). bit_or s t * 2 ^ k) (div-pow-suc a k) (div-pow-suc b k),
  double_pow (bit_or (a / 2 ^ suc k) (b / 2 ^ suc k)) k,
  or_digit (a % 2 ^ suc k) (b % 2 ^ suc k),
  mod-pow-suc k a,
  mod-pow-suc k b,
  ap₂ (λ (s t : ℕ). bit_or s t) (half_mod a) (half_mod b),
)
  where
    half_mod : (t : ℕ) → t % 2 ^ suc k / 2 ≡ t / 2 % 2 ^ k
    half_mod t = omega (arith, mod-pow-suc k t)

pub zero-or : (b : ℕ) → bit_or 0 b ≡ b
zero-or b = bit_or-bitwise 0 b

-- A part of `k` bits goes into a gap that starts at bit `s`.
pub or_insert :
    (s k q r c : ℕ)
    → r < 2 ^ s
    → c < 2 ^ k
    → bit_or (q * 2 ^ k * 2 ^ s + r) (c * 2 ^ s) ≡ (q * 2 ^ k + c) * 2 ^ s + r
or_insert s k q r c hr hc =
    or_split s (q * 2 ^ k * 2 ^ s + r) (c * 2 ^ s)
    ∙ ap₂ (λ (t u : ℕ). t * 2 ^ s + u)
        (ap₂ bit_or (quotient (q * 2 ^ k) r hr) (mul-div_cancel c pos) ∙ or_sum k q c hc)
        (ap₂ bit_or (remainder (q * 2 ^ k) r hr) (mul-mod_left c (2 ^ s)) ∙ or-zero r)
  where
    pos : 0 < 2 ^ s
    pos = omega (arith, one-le-pow s 2)

    quotient : (t u : ℕ) → u < 2 ^ s → (t * 2 ^ s + u) / 2 ^ s ≡ t
    quotient t u h = omega (arith, mul-add-div_right pos t u, div-eq_of_lt h)

    remainder : (t u : ℕ) → u < 2 ^ s → (t * 2 ^ s + u) % 2 ^ s ≡ u
    remainder t u h = mul-add-mod_self_right t (2 ^ s) u ∙ mod-eq_of_lt h

-- `|` of a low and a high part that do not meet is their sum.
pub or_low_high : (k q r : ℕ) → r < 2 ^ k → bit_or r (q * 2 ^ k) ≡ q * 2 ^ k + r
or_low_high k q r h = ap (λ (t : ℕ). bit_or t (q * 2 ^ k)) nothing_above ∙ above
  where
    nothing_above : r ≡ 0 * 2 ^ 0 * 2 ^ k + r
    nothing_above = omega arith

    pos : 0 < 2 ^ k
    pos = omega (arith, one-le-pow k 2)

    above : bit_or (0 * 2 ^ 0 * 2 ^ k + r) (q * 2 ^ k) ≡ q * 2 ^ k + r
    above =
        or_split k (0 * 2 ^ 0 * 2 ^ k + r) (q * 2 ^ k)
        ∙ ap₂ (λ (t u : ℕ). t * 2 ^ k + u)
            (ap₂ bit_or (ap (λ (t : ℕ). t / 2 ^ k) (sym nothing_above) ∙ div-eq_of_lt h)
                (mul-div_cancel q pos)
              ∙ zero-or q)
            (ap₂ bit_or (ap (λ (t : ℕ). t % 2 ^ k) (sym nothing_above) ∙ mod-eq_of_lt h)
                (mul-mod_left q (2 ^ k))
              ∙ or-zero r)

xor_comm_below : (n a b : ℕ) → a ≤ n → b ≤ n → bit_xor a b ≡ bit_xor b a
xor_comm_below zero zero zero p q = refl
xor_comm_below zero (suc a) b p q = absurd (omega arith)
xor_comm_below zero zero (suc b) p q = absurd (omega arith)
xor_comm_below (suc n) a b p q = omega (
  arith,
  xor_digit a b,
  xor_digit b a,
  xor_comm_below n (a / 2) (b / 2) (omega arith) (omega arith),
)

pub xor_comm : (a b : ℕ) → bit_xor a b ≡ bit_xor b a
xor_comm a b = xor_comm_below (a + b) a b (omega arith) (omega arith)

pub xor-zero : (a : ℕ) → bit_xor a 0 ≡ a
xor-zero a = xor_comm a 0 ∙ bit_xor-bitwise 0 a

-- `^` by one word is injective.
pub xor_inj_right : (a b m : ℕ) → bit_xor a m ≡ bit_xor b m → a ≡ b
xor_inj_right a b m e = sym (xor_cancel a m) ∙ ap (λ (t : ℕ). bit_xor t m) e ∙ xor_cancel b m

pub xor_inj_left : (m a b : ℕ) → bit_xor m a ≡ bit_xor m b → a ≡ b
xor_inj_left m a b e = xor_inj_right a b m (xor_comm a m ∙ e ∙ xor_comm m b)

-- `^` works on the bits from `k` on and on the `k` bits below apart.
pub xor-div : (k a b : ℕ) → bit_xor a b / 2 ^ k ≡ bit_xor (a / 2 ^ k) (b / 2 ^ k)
xor-div zero a b =
    let whole : (t : ℕ) → t / 1 ≡ t = λ t. omega arith in
    rw (whole a, whole b) (whole (bit_xor a b))
xor-div (suc k) a b =
    sym (div-pow-suc (bit_xor a b) k)
    ∙ ap (λ (t : ℕ). t / 2 ^ k) (xor_half a b)
    ∙ xor-div k (a / 2) (b / 2)
    ∙ ap₂ bit_xor (div-pow-suc a k) (div-pow-suc b k)

pub xor-mod : (k a b : ℕ) → bit_xor a b % 2 ^ k ≡ bit_xor (a % 2 ^ k) (b % 2 ^ k)
xor-mod zero a b =
    let nothing : (t : ℕ) → t % 1 ≡ 0 = λ t. omega arith in
    rw (nothing a, nothing b) (nothing (bit_xor a b))
xor-mod (suc k) a b = omega (
  arith,
  mod-pow-suc k (bit_xor a b),
  ap (λ (t : ℕ). t % 2 ^ k) (xor_half a b),
  xor-mod k (a / 2) (b / 2),
  xor_digit a b,
  xor_digit (a % 2 ^ suc k) (b % 2 ^ suc k),
  mod-pow-suc k a,
  mod-pow-suc k b,
  ap₂ bit_xor (half_of_mod a) (half_of_mod b),
)
  where
    half_of_mod : (t : ℕ) → t % 2 ^ suc k / 2 ≡ t / 2 % 2 ^ k
    half_of_mod t = omega (arith, mod-pow-suc k t)

-- `&` works on the bits from `k` on and on the `k` bits below apart.
pub and_split :
    (k a b : ℕ)
    → bit_and a b ≡ bit_and (a / 2 ^ k) (b / 2 ^ k) * 2 ^ k + bit_and (a % 2 ^ k) (b % 2 ^ k)
and_split zero a b =
    let whole : (t : ℕ) → t / 1 ≡ t = λ t. omega arith in
    let rest : (t : ℕ) → t % 1 ≡ 0 = λ t. omega arith in
    rw (whole a, whole b, rest a, rest b) (omega (arith, and-zero 0))
and_split (suc k) a b = omega (
  arith,
  and_digit a b,
  and_split k (a / 2) (b / 2),
  ap₂ (λ (s t : ℕ). bit_and s t * 2 ^ k) (div-pow-suc a k) (div-pow-suc b k),
  double_pow (bit_and (a / 2 ^ suc k) (b / 2 ^ suc k)) k,
  and_digit (a % 2 ^ suc k) (b % 2 ^ suc k),
  mod-pow-suc k a,
  mod-pow-suc k b,
  ap₂ (λ (s t : ℕ). bit_and s t) (half_mod a) (half_mod b),
)
  where
    half_mod : (t : ℕ) → t % 2 ^ suc k / 2 ≡ t / 2 % 2 ^ k
    half_mod t = omega (arith, mod-pow-suc k t)
