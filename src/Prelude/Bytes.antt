-- ===== src/Prelude/Bytes.antt =====
-- Fixed-width words as bytes, in both orders.
use Prim.Native.Nat.{ℕ, ◌+◌, ◌*◌, ◌/◌, ◌%◌, ◌^◌, ◌<◌}
use mathlib.Core.Path.{◌≡◌}
use mathlib.Core.List.{List, [], ◌∷◌}
use native.Mathlib.Omega.{arith}

abbrev pub IsByte : ℕ → Type 0
IsByte b = b < 256

-- `u16::to_be_bytes` and `u32::to_be_bytes`, of a value below 2^16 and 2^32.
abbrev pub u16_be : ℕ → List ℕ
u16_be n = (n / 256 % 256) ∷ (n % 256) ∷ []

abbrev pub u32_be : ℕ → List ℕ
u32_be n = (n / 16777216 % 256) ∷ (n / 65536 % 256) ∷ (n / 256 % 256) ∷ (n % 256) ∷ []

abbrev pub u16_of_be : ℕ → ℕ → ℕ
u16_of_be a b = a * 256 + b

abbrev pub u32_of_be : ℕ → ℕ → ℕ → ℕ → ℕ
u32_of_be a b c d = a * 16777216 + b * 65536 + c * 256 + d

-- `u32::to_le_bytes`.
abbrev pub u32_le : ℕ → List ℕ
u32_le n = (n % 256) ∷ (n / 256 % 256) ∷ (n / 65536 % 256) ∷ (n / 16777216 % 256) ∷ []

abbrev pub u32_of_le : ℕ → ℕ → ℕ → ℕ → ℕ
u32_of_le a b c d = u32_of_be d c b a

pub u16_of_be-u16_be : (n : ℕ) → n < 2 ^ 16 → u16_of_be (n / 256 % 256) (n % 256) ≡ n
u16_of_be-u16_be n h = omega arith

pub u32_of_be-u32_be :
    (n : ℕ)
    → n < 2 ^ 32
    → u32_of_be (n / 16777216 % 256) (n / 65536 % 256) (n / 256 % 256) (n % 256) ≡ n
u32_of_be-u32_be n h = omega arith
