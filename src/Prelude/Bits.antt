-- ===== src/Prelude/Bits.antt =====
-- `&` on numbers of any size, one binary digit at a time.
use Prim.Native.Nat.{ℕ, zero, suc, ◌+◌, ◌*◌, ◌/◌, ◌%◌, ◌≤◌, min, bit_and, digits, bit_and-bitwise}
use mathlib.Core.Path.{◌≡◌, refl}
use native.Mathlib.Omega.{arith}

-- The digit recursion that `bit_and` stands for, with `n` digits at most.
abbrev conj : ℕ → ℕ → ℕ → ℕ
conj n x y = digits (λ _. zero) min n x y

-- Any two bounds on the digits that are large enough agree.
conj_bounds : (x y n k : ℕ) → x ≤ k → x ≤ n → conj n x y ≡ conj k x y
conj_bounds zero y zero zero h g = refl
conj_bounds zero y zero (suc k) h g = refl
conj_bounds zero y (suc n) zero h g = refl
conj_bounds zero y (suc n) (suc k) h g = refl
conj_bounds (suc x) y zero k h g = absurd (omega arith)
conj_bounds (suc x) y (suc n) zero h g = absurd (omega arith)
conj_bounds (suc x) y (suc n) (suc k) h g =
    omega (arith, conj_bounds (suc x / 2) (y / 2) n k (omega arith) (omega arith))

pub bit_and_halves : (x y : ℕ) → bit_and x y ≡ 2 * bit_and (x / 2) (y / 2) + min (x % 2) (y % 2)
bit_and_halves zero y = omega (arith, bit_and-bitwise 0 y, bit_and-bitwise 0 (y / 2))
bit_and_halves (suc x) y = omega (
  arith,
  bit_and-bitwise (suc x) y,
  bit_and-bitwise (suc x / 2) (y / 2),
  conj_bounds (suc x / 2) (y / 2) x (suc x / 2) (omega arith) (omega arith),
)

bit_and_self_below : (n x : ℕ) → x ≤ n → bit_and x x ≡ x
bit_and_self_below n zero h = refl
bit_and_self_below zero (suc x) h = absurd (omega arith)
bit_and_self_below (suc n) (suc x) h =
    omega (arith, bit_and_halves (suc x) (suc x), bit_and_self_below n (suc x / 2) (omega arith))

pub bit_and_self : (x : ℕ) → bit_and x x ≡ x
bit_and_self x = bit_and_self_below x x (omega arith)
