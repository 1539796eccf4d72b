-- ===== src/Tests/Merkle.antt =====
-- Merkle trees over a few leaves.
use bhwi.Prelude.{ℕ, ◌≡◌, refl, arith, List, [], ◌∷◌, some, ok, ◌>>=◌}
use bhwi.Ledger.Merkle.{
  MerkleTree, pow2, largest_power_of_2_less_than, is_power_of_2, floor_lg, floor_lg_loop, new,
  value, root_hash, get_leaf, get_leaf_proof, get_proof, height,
}
use bhwi.Ledger.Merkle.Build.{IsRoot, new-IsRoot}
use bhwi.Ledger.Merkle.Proofs.{Proves, get_leaf_proof-Proves}
use bhwi.Tests.Primitives.{toy_sha256}

abbrev three : List (List ℕ)
three = (1 ∷ []) ∷ (2 ∷ []) ∷ (3 ∷ []) ∷ []

largest_power_of_5 : largest_power_of_2_less_than 5 ≡ ok 4
unfolding largest_power_of_2_less_than is_power_of_2 floor_lg floor_lg_loop pow2
largest_power_of_5 = refl

new-IsRoot_example :
    (m : MerkleTree) × (d : List ℕ) × (new toy_sha256 three ≡ ok m)
    × (m.leaves ≡ three)
    × (root_hash m ≡ ok d)
    × IsRoot toy_sha256 three d
new-IsRoot_example = new-IsRoot toy_sha256 three (omega arith)

get_leaf_proof-Proves_example :
    (m : MerkleTree) × (x : List ℕ) × (d : List ℕ) × (p : List (List ℕ)) × (new toy_sha256 three
      ≡ ok m)
    × (get_leaf m 2 ≡ some x)
    × (root_hash m ≡ ok d)
    × (get_leaf_proof m 2 ≡ ok (some p))
    × Proves toy_sha256 3 2 x p d
get_leaf_proof-Proves_example = get_leaf_proof-Proves toy_sha256 three 2 (omega arith)

-- The test of the source: the proof of the last of three leaves is the hash over the first two.
last_of_three :
    (new toy_sha256 three >>= λ m. get_leaf_proof m 2)
    ≡ ok (some (toy_sha256 (1 ∷ 1 ∷ 2 ∷ []) ∷ []))
unfolding new largest_power_of_2_less_than is_power_of_2 floor_lg floor_lg_loop pow2 value height
    get_leaf_proof get_proof
last_of_three = refl
