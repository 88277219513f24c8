-- ===== src/Base/Bits/Digits.antt =====
-- One equation for the lowest binary digit of each native operation, with the fuel dropped.
use Prim.Native.Nat.{ℕ, zero, suc, ◌+◌, ◌-◌, ◌*◌, ◌/◌, ◌%◌, ◌≤◌, min, max, digits, differ}
use Prim.Native.Nat.{bit_and, bit_or, bit_xor, bit_and-bitwise, bit_or-bitwise, bit_xor-bitwise}
use mathlib.Core.Path.{◌≡◌, refl, ap}
use native.Mathlib.Omega.{arith}

module _ (last : ℕ → ℕ) (op : ℕ → ℕ → ℕ) where
  -- Fuel beyond the left number is not used.
  spare_fuel : (k n a b : ℕ) → a ≤ n → n ≤ k → digits last op k a b ≡ digits last op n a b
  spare_fuel zero zero a b small le = refl
  spare_fuel zero (suc n) a b small le = absurd (omega arith)
  spare_fuel (suc k) zero zero b small le = refl
  spare_fuel (suc k) zero (suc a) b small le = absurd (omega arith)
  spare_fuel (suc k) (suc n) zero b small le = refl
  spare_fuel (suc k) (suc n) (suc a) b small le =
      ap (λ t. t * 2 + op (suc a % 2) (b % 2))
        (spare_fuel k n (suc a / 2) (b / 2) (omega arith) (omega arith))

  lowest_digit :
      (a b : ℕ)
      → digits last op (suc a) (suc a) b
        ≡ digits last op (suc a / 2) (suc a / 2) (b / 2) * 2 + op (suc a % 2) (b % 2)
  lowest_digit a b =
      ap (λ t. t * 2 + op (suc a % 2) (b % 2))
        (spare_fuel a (suc a / 2) (suc a / 2) (b / 2) (omega arith) (omega arith))

pub and_digit : (a b : ℕ) → bit_and a b ≡ bit_and (a / 2) (b / 2) * 2 + min (a % 2) (b % 2)
and_digit zero b = simp bit_and-bitwise (omega arith)
and_digit (suc a) b = simp bit_and-bitwise (lowest_digit (λ _. 0) min a b)

pub or_digit : (a b : ℕ) → bit_or a b ≡ bit_or (a / 2) (b / 2) * 2 + max (a % 2) (b % 2)
or_digit zero b = simp bit_or-bitwise (omega arith)
or_digit (suc a) b = simp bit_or-bitwise (lowest_digit (λ y. y) max a b)

differ-sum : (x y : ℕ) → differ x y ≡ (x - y) + (y - x)
differ-sum zero y = omega arith
differ-sum (suc x) zero = omega arith
differ-sum (suc x) (suc y) = omega (arith, differ-sum x y)

pub xor_digit : (a b : ℕ) → bit_xor a b ≡ bit_xor (a / 2) (b / 2) * 2 + (a + b) % 2
xor_digit zero b = simp bit_xor-bitwise (omega arith)
xor_digit (suc a) b = omega (arith, twice, differ-sum (suc a % 2) (b % 2))
  where
    twice : bit_xor (suc a) b ≡ bit_xor (suc a / 2) (b / 2) * 2 + differ (suc a % 2) (b % 2)
    twice = simp bit_xor-bitwise (lowest_digit (λ y. y) differ a b)
