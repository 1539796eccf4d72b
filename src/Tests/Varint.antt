-- ===== src/Tests/Varint.antt =====
-- Bitcoin's variable-length integers, to show that the interface of Ledger/Consensus can be met.
use bhwi.Prelude.{
  ℕ, ◌+◌, ◌*◌, ◌/◌, ◌%◌, ◌^◌, ◌≤◌, ◌<◌, ◌≡◌, arith, List, [], ◌∷◌, ◌++◌, Option, none, some, ltb,
  ◌==◌, if◌then◌else◌, length, ==_refl,
}
use mathlib.Core.List.{append-nil}
use bhwi.Ledger.Consensus.{Consensus}

low4 : ℕ → List ℕ → List ℕ
low4 n rest = (n % 256) ∷ (n / 2 ^ 8 % 256) ∷ (n / 2 ^ 16 % 256) ∷ (n / 2 ^ 24 % 256) ∷ rest

unfoldable pub serialize : ℕ → List ℕ
unfolding low4
serialize n =
    if ltb n 0xFD
    then n ∷ []
    else if ltb n 0x10000
    then 0xFD ∷ (n % 256) ∷ (n / 2 ^ 8 % 256) ∷ []
    else if ltb n 0x100000000
    then 0xFE ∷ low4 n []
    else 0xFF ∷ low4 n (low4 (n / 2 ^ 32) [])

from4 : ℕ → ℕ → ℕ → ℕ → ℕ
from4 a b c d = a + b * 2 ^ 8 + c * 2 ^ 16 + d * 2 ^ 24

minimal : ℕ → ℕ → ℕ → Option (ℕ × ℕ)
minimal least n size = if ltb n least then none else some (n, size)

read_two : List ℕ → Option (ℕ × ℕ)
unfolding minimal
read_two (a ∷ b ∷ rest) = minimal 0xFD (a + b * 2 ^ 8) 3
read_two _ = none

read_four : List ℕ → Option (ℕ × ℕ)
unfolding minimal from4
read_four (a ∷ b ∷ c ∷ d ∷ rest) = minimal 0x10000 (from4 a b c d) 5
read_four _ = none

read_eight : List ℕ → Option (ℕ × ℕ)
unfolding minimal from4
read_eight (a ∷ b ∷ c ∷ d ∷ e ∷ f ∷ g ∷ h ∷ rest) =
    minimal 0x100000000 (from4 a b c d + from4 e f g h * 2 ^ 32) 9
read_eight _ = none

unfoldable pub deserialize_partial : List ℕ → Option (ℕ × ℕ)
unfolding read_two read_four read_eight
deserialize_partial [] = none
deserialize_partial (x ∷ rest) =
    if ltb x 0xFD
    then some (x, 1)
    else if x == 0xFD
    then read_two rest
    else if x == 0xFE
    then read_four rest
    else read_eight rest

all_read : ℕ → Option (ℕ × ℕ) → Option ℕ
all_read size none = none
all_read size (some (n, read)) = if read == size then some n else none

unfoldable pub deserialize : List ℕ → Option ℕ
unfolding deserialize_partial all_read
deserialize bytes = all_read (length bytes) (deserialize_partial bytes)

split4 :
    (n : ℕ)
    → n < 2 ^ 32
    → from4 (n % 256) (n / 2 ^ 8 % 256) (n / 2 ^ 16 % 256) (n / 2 ^ 24 % 256) ≡ n
unfolding from4
split4 n h = omega arith

two_bound :
    (bytes : List ℕ) (n read : ℕ) → read_two bytes ≡ some (n, read) → read ≤ 1 + length bytes
unfolding read_two minimal
two_bound (a ∷ b ∷ rest) n read h = ground arith
two_bound (a ∷ []) n read h = absurd cc
two_bound [] n read h = absurd cc

four_bound :
    (bytes : List ℕ) (n read : ℕ) → read_four bytes ≡ some (n, read) → read ≤ 1 + length bytes
unfolding read_four minimal
four_bound (a ∷ b ∷ c ∷ d ∷ rest) n read h = ground arith
four_bound (a ∷ b ∷ c ∷ []) n read h = absurd cc
four_bound (a ∷ b ∷ []) n read h = absurd cc
four_bound (a ∷ []) n read h = absurd cc
four_bound [] n read h = absurd cc

eight_bound :
    (bytes : List ℕ) (n read : ℕ) → read_eight bytes ≡ some (n, read) → read ≤ 1 + length bytes
unfolding read_eight minimal
eight_bound (a ∷ b ∷ c ∷ d ∷ e ∷ f ∷ g ∷ h' ∷ rest) n read h = ground arith
eight_bound (a ∷ b ∷ c ∷ d ∷ e ∷ f ∷ g ∷ []) n read h = absurd cc
eight_bound (a ∷ b ∷ c ∷ d ∷ e ∷ f ∷ []) n read h = absurd cc
eight_bound (a ∷ b ∷ c ∷ d ∷ e ∷ []) n read h = absurd cc
eight_bound (a ∷ b ∷ c ∷ d ∷ []) n read h = absurd cc
eight_bound (a ∷ b ∷ c ∷ []) n read h = absurd cc
eight_bound (a ∷ b ∷ []) n read h = absurd cc
eight_bound (a ∷ []) n read h = absurd cc
eight_bound [] n read h = absurd cc

pub deserialize_partial-serialize :
    (n : ℕ) (rest : List ℕ)
    → n < 2 ^ 64
    → deserialize_partial (serialize n ++ rest) ≡ some (n, length (serialize n))
unfolding deserialize_partial serialize
deserialize_partial-serialize n rest h = ground arith

pub deserialize_partial_bound :
    (bytes : List ℕ) (n read : ℕ) → deserialize_partial bytes ≡ some (n, read) → read ≤ length bytes
unfolding deserialize_partial
deserialize_partial_bound [] n read h = absurd cc
deserialize_partial_bound (x ∷ rest) n read h =
    ground (arith, two_bound rest n read, four_bound rest n read, eight_bound rest n read)

pub serialize_bounds : (n : ℕ) → (1 ≤ length (serialize n)) × (length (serialize n) ≤ 9)
unfolding serialize
serialize_bounds n = ground arith

pub deserialize-serialize : (n : ℕ) → n < 2 ^ 64 → deserialize (serialize n) ≡ some n
unfolding deserialize
deserialize-serialize n h =
    let whole : deserialize_partial (serialize n) ≡ some (n, length (serialize n)) =
      rw append-nil at (deserialize_partial-serialize n [] h) in
    rw (whole, ==_refl (length (serialize n)))

abbrev pub varints : Consensus
varints = record {
  serialize = serialize;
  deserialize_partial = deserialize_partial;
  deserialize = deserialize;
  deserialize_partial-serialize = deserialize_partial-serialize;
  deserialize-serialize = deserialize-serialize;
  deserialize_partial_bound = deserialize_partial_bound;
  serialize_nonempty = λ n. (serialize_bounds n).0;
  serialize_short = λ n. (serialize_bounds n).1;
}
