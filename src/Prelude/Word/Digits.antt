-- ===== src/Prelude/Word/Digits.antt =====
-- `bit_and` and `bit_or` by their lowest digit. The native operations are defined by a recursion
-- on binary digits with fuel; the fuel is dropped here.
use Prim.Native.Nat.{
  ℕ, zero, suc, ◌+◌, ◌*◌, ◌/◌, ◌%◌, ◌≤◌, min, max, bit_and, bit_or, bitwise, digits,
  bit_and-bitwise, bit_or-bitwise,
}
use mathlib.Core.Path.{◌≡◌, refl}
use native.Mathlib.Omega.{arith}

module _ (at_zero : ℕ → ℕ) (digit : ℕ → ℕ → ℕ) where
  -- More fuel than the number needs makes no difference.
  fuel_irrelevant :
      (n a b m : ℕ) → a ≤ n → a ≤ m → digits at_zero digit n a b ≡ digits at_zero digit m a b
  fuel_irrelevant zero zero b zero p q = refl
  fuel_irrelevant zero zero b (suc m) p q = refl
  fuel_irrelevant zero (suc a) b m p q = absurd (omega arith)
  fuel_irrelevant (suc n) zero b zero p q = refl
  fuel_irrelevant (suc n) zero b (suc m) p q = refl
  fuel_irrelevant (suc n) (suc a) b zero p q = absurd (omega arith)
  fuel_irrelevant (suc n) (suc a) b (suc m) p q =
      rw (fuel_irrelevant n (suc a / 2) (b / 2) m (omega arith) (omega arith))

  lowest_digit :
      (a b : ℕ)
      → bitwise at_zero digit (suc a) b
        ≡ bitwise at_zero digit (suc a / 2) (b / 2) * 2 + digit (suc a % 2) (b % 2)
  lowest_digit a b =
      omega (arith, fuel_irrelevant a (suc a / 2) (b / 2) (suc a / 2) (omega arith) (omega arith))

-- The lowest digit of a conjunction, and of a disjunction.
pub bit_and-low : (x y : ℕ) → min (x % 2) (y % 2) + 2 * bit_and (x / 2) (y / 2) ≡ bit_and x y
bit_and-low zero y = simp bit_and-bitwise (omega arith)
bit_and-low (suc x) y =
    let low = lowest_digit (λ z. 0) min x y in simp bit_and-bitwise (omega arith)

pub bit_or-low : (x y : ℕ) → max (x % 2) (y % 2) + 2 * bit_or (x / 2) (y / 2) ≡ bit_or x y
bit_or-low zero y = simp bit_or-bitwise (omega arith)
bit_or-low (suc x) y = let low = lowest_digit (λ z. z) max x y in simp bit_or-bitwise (omega arith)
