-- ===== src/Prelude/Word.antt =====
-- `u32` as a native number below 2 ^ 32, the bit operations of the program on it, and their
-- arithmetic: a mask of high bits rounds down to a multiple, and a clear bit is set by adding it.
mod Digits
use Digits.{bit_and-low, bit_or-low}
use Prim.Native.Nat.{ℕ, zero, suc, ◌+◌, ◌-◌, ◌*◌, ◌/◌, ◌%◌, ◌^◌, ◌≤◌, ◌<◌, bit_and, bit_or}
use mathlib.Core.Path.{◌≡◌, refl, ap}
use native.Mathlib.Nat.{pow-suc, one-le-pow, div-add-mod', div-div-eq-div-mul}
use native.Mathlib.Omega.{arith}

abbrev pub u32_mod : ℕ
u32_mod = 2 ^ 32

-- `!x`
abbrev pub not32 : ℕ → ℕ
not32 x = u32_mod - 1 - x

-- `1u32 << k`, for k < 32
abbrev pub bit32 : ℕ → ℕ
bit32 k = 2 ^ k % u32_mod

-- The two operations on a number and zero, by halving the number.
with_zero : (bound a : ℕ) → a < bound → (bit_and a 0 ≡ 0) × (bit_or a 0 ≡ a)
with_zero zero a lt = absurd (omega arith)
with_zero (suc bound) zero lt = (refl, refl)
with_zero (suc bound) (suc a) lt =
    let (conj, disj) = with_zero bound (suc a / 2) (omega arith) in
    (omega (arith, bit_and-low (suc a) 0), omega (arith, bit_or-low (suc a) 0))

bit_and-nil : (a : ℕ) → bit_and a 0 ≡ 0
bit_and-nil a = (with_zero (suc a) a (omega arith)).0

bit_or-nil : (a : ℕ) → bit_or a 0 ≡ a
bit_or-nil a = (with_zero (suc a) a (omega arith)).1

-- One more zero at the end of a number doubles it.
pub mul-two-pow-suc : (n zeros : ℕ) → n * 2 ^ suc zeros ≡ 2 * (n * 2 ^ zeros)
mul-two-pow-suc n zeros = let power = pow-suc 2 zeros in omega (arith, ap (◌*◌ n) power)

pub div-two-pow-suc : (a k : ℕ) → a / 2 ^ suc k ≡ a / 2 / 2 ^ k
div-two-pow-suc a k =
    rw (div-div-eq-div-mul a 2 (2 ^ k)) (ap (λ (t : ℕ). a / t) (omega (arith, pow-suc 2 k)))

-- A mask of ones above `k` zeros.
pub bit_and-shifted : (k a m : ℕ) → bit_and a (m * 2 ^ k) ≡ bit_and (a / 2 ^ k) m * 2 ^ k
bit_and-shifted zero a m = ground arith
bit_and-shifted (suc k) a m = ground (
  arith,
  bit_and-low a (m * 2 ^ suc k),
  mul-two-pow-suc m k,
  mul-two-pow-suc (bit_and (a / 2 ^ suc k) m) k,
  div-two-pow-suc a k,
  bit_and-shifted k (a / 2) m,
)

pub bit_and-low_mask : (p a : ℕ) → bit_and a (2 ^ p - 1) ≡ a % 2 ^ p
bit_and-low_mask zero a = omega (arith, bit_and-nil a)
bit_and-low_mask (suc p) a = ground (
  arith,
  bit_and-low a (2 ^ suc p - 1),
  pow-suc 2 p,
  one-le-pow p 2,
  div-two-pow-suc a p,
  bit_and-low_mask p (a / 2),
  div-add-mod' (a / 2) (2 ^ p),
  div-add-mod' a (2 ^ suc p),
  mul-two-pow-suc (a / 2 ^ suc p) p,
)

-- Setting a bit that is clear, with zeros below it, adds it.
pub bit_or-clear : (k q : ℕ) → bit_or (q * 2 ^ suc k) (2 ^ k) ≡ q * 2 ^ suc k + 2 ^ k
bit_or-clear zero q = ground (arith, bit_or-low (q * 2) 1, bit_or-nil q)
bit_or-clear (suc k) q = ground (
  arith,
  bit_or-low (q * 2 ^ suc (suc k)) (2 ^ suc k),
  mul-two-pow-suc q (suc k),
  pow-suc 2 k,
  bit_or-clear k q,
)
