-- ===== src/Tests/Store.antt =====
-- The client's store on concrete requests.
use bhwi.Prelude.{
  ℕ, ◌≤◌, ◌≡◌, refl, arith, List, [], ◌∷◌, ◌++◌, some, ok, length, take, drop, replicate, Returns,
}
use bhwi.Ledger.Merkle
use bhwi.Ledger.Merkle.{MerkleTree}
use bhwi.Ledger.Merkle.Build.{IsRoot}
use bhwi.Ledger.Store.{
  DelegatedStore, empty, get_more_elements, collect, any_other_length, find_preimage, find_tree,
  get_preimage, execute, add_known_list,
}
use bhwi.Ledger.Store.Answers.{drain, get_preimage_streams}
use bhwi.Ledger.Store.Invariant.{IsSound}
use bhwi.Ledger.Store.Safety.{execute-Returns}
use bhwi.Ledger.Store.Known.{leaf_hashes, add_known_list_lem}
use bhwi.Tests.Primitives.{toy_sha256}
use bhwi.Tests.Varint.{varints}

abbrev queued : DelegatedStore
queued = record empty { queue = (1 ∷ 2 ∷ []) ∷ (3 ∷ 4 ∷ []) ∷ [] }

more_runs : get_more_elements queued ≡ ok (empty, 2 ∷ 2 ∷ 1 ∷ 2 ∷ 3 ∷ 4 ∷ [])
unfolding get_more_elements collect any_other_length
more_runs = refl

abbrev digest : List ℕ
digest = replicate 32 5

abbrev known : DelegatedStore
known = record empty { known_preimages = (digest, replicate 300 8) ∷ [] }

get_preimage_streams_example :
    (s' : DelegatedStore) × (k : ℕ) × (get_preimage varints known (0 ∷ digest)
      ≡ ok (s', varints.serialize 300 ++ (k ∷ take k (replicate 300 8))))
    × (k ≤ 300)
    × (length (varints.serialize 300 ++ (k ∷ take k (replicate 300 8))) ≤ 255)
    × (drain 300 s' ≡ ok (drop k (replicate 300 8)))
get_preimage_streams_example =
    get_preimage_streams varints known digest (replicate 300 8) refl refl
      (unfold find_preimage in refl)

empty-IsSound : IsSound toy_sha256 empty
empty-IsSound = record { hashed = tt; built = tt }

execute-Returns_example : Returns (execute varints empty (0x41 ∷ 1 ∷ 2 ∷ []))
execute-Returns_example = execute-Returns toy_sha256 varints empty (0x41 ∷ 1 ∷ 2 ∷ []) empty-IsSound

abbrev two : List (List ℕ)
two = (1 ∷ []) ∷ (2 ∷ []) ∷ []

add_known_list_example :
    (s' : DelegatedStore) × (root : List ℕ) × (add_known_list toy_sha256 empty two ≡ ok (s', root))
    × IsSound toy_sha256 s'
    × (s'.queue ≡ [])
    × IsRoot toy_sha256 (leaf_hashes toy_sha256 two) root
    × ((m : MerkleTree) × (find_tree s'.trees root ≡ ok (some m)) × (Merkle.root_hash m ≡ ok root))
    × ((front back : List (List ℕ)) (e : List ℕ)
        → two ≡ front ++ (e ∷ back)
        → (q : List ℕ) × (find_preimage s'.known_preimages (toy_sha256 (0 ∷ e)) ≡ some q)
          × (toy_sha256 (0 ∷ e) ≡ toy_sha256 q))
add_known_list_example = add_known_list_lem toy_sha256 empty two empty-IsSound (omega arith)
