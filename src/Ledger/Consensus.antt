-- ===== src/Ledger/Consensus.antt =====
-- What the Ledger code uses of the crate `bitcoin`: the variable-length integers of
-- `bitcoin::consensus::encode`. The crate is not in the repository, so it is an interface here.
use bhwi.Prelude.{ℕ, ◌≤◌, ◌<◌, ◌^◌, ◌≡◌, List, ◌++◌, Option, some, length}

pub record Consensus : Type 0 where
  -- `serialize(&VarInt(n))`
  pub serialize : ℕ → List ℕ
  -- `deserialize_partial`: the value and the number of bytes read.
  pub deserialize_partial : List ℕ → Option (ℕ × ℕ)
  -- `deserialize`, which consumes all its input.
  pub deserialize : List ℕ → Option ℕ
  pub deserialize_partial-serialize :
      (n : ℕ) (rest : List ℕ)
      → n < 2 ^ 64
      → deserialize_partial (serialize n ++ rest) ≡ some (n, length (serialize n))
  pub deserialize-serialize : (n : ℕ) → n < 2 ^ 64 → deserialize (serialize n) ≡ some n
  -- It reads no more than there is.
  pub deserialize_partial_bound :
      (bytes : List ℕ) (n read : ℕ)
      → deserialize_partial bytes ≡ some (n, read)
      → read ≤ length bytes
  pub serialize_nonempty : (n : ℕ) → 1 ≤ length (serialize n)
  pub serialize_short : (n : ℕ) → length (serialize n) ≤ 9
