-- ===== src/Ledger/Maps.antt =====
-- bhwi/src/ledger/store.rs: the mappings of a PSBT, and what the device is told of them.
pub mod Sorted
pub mod Known
use bhwi.Prelude.{
  ℕ, ◌≡◌, Bool, true, false, List, [], ◌∷◌, ◌++◌, ltb, if◌then◌else◌, length, Outcome, ok, ◌>>=◌,
}
use bhwi.Ledger.Consensus.{Consensus}
use bhwi.Ledger.Merkle
use bhwi.Ledger.Merkle.{Total}
use bhwi.Ledger.Store.{DelegatedStore, add_known_list}

abbrev pub Pairs : Type 0
Pairs = List (List ℕ × List ℕ)

-- The order of slices, byte by byte.
unfoldable pub bytes_lt : List ℕ → List ℕ → Bool
bytes_lt xs [] = false
bytes_lt [] (y ∷ ys) = true
bytes_lt (x ∷ xs) (y ∷ ys) =
    let rest = bytes_lt xs ys in if ltb x y then true else if ltb y x then false else rest

-- `sort_by` with the keys' order, which keeps the order of equal keys.
unfoldable pub insert_pair : List ℕ × List ℕ → Pairs → Pairs
insert_pair p [] = p ∷ []
insert_pair p (q ∷ qs) =
    let later = q ∷ insert_pair p qs in if bytes_lt q.0 p.0 then later else p ∷ q ∷ qs

unfoldable pub sort_pairs : Pairs → Pairs
sort_pairs [] = []
sort_pairs (p ∷ ps) = insert_pair p (sort_pairs ps)

abbrev pub keys_of : Pairs → List (List ℕ)
keys_of [] = []
keys_of (p ∷ ps) = p.0 ∷ keys_of ps

abbrev pub values_of : Pairs → List (List ℕ)
values_of [] = []
values_of (p ∷ ps) = p.1 ∷ values_of ps

module _ (sha256 : List ℕ → List ℕ) where
  -- The hash of each element behind a zero byte.
  unfoldable pub element_hashes : List (List ℕ) → List (List ℕ)
  element_hashes [] = []
  element_hashes (e ∷ es) = sha256 (0 ∷ e) ∷ element_hashes es

  unfoldable pub add_known_mapping : DelegatedStore → Pairs → Total DelegatedStore
  add_known_mapping s mapping = do
    let sorted = sort_pairs mapping
    (s', keys_root) ← add_known_list sha256 s (keys_of sorted)
    (s'', values_root) ← add_known_list sha256 s' (values_of sorted)
    ok s''

  unfoldable pub get_merkleized_map_commitment : Consensus → Pairs → Total (List ℕ)
  get_merkleized_map_commitment c mapping = do
    let sorted = sort_pairs mapping
    keys_tree ← Merkle.new sha256 (element_hashes (keys_of sorted))
    keys_root ← Merkle.root_hash keys_tree
    values_tree ← Merkle.new sha256 (element_hashes (values_of sorted))
    values_root ← Merkle.root_hash values_tree
    ok (c.serialize (length sorted) ++ (keys_root ++ values_root))
