-- ===== src/Ledger/Store/Invariant.antt =====
-- What holds of a store between two requests (bhwi/src/ledger/store.rs).
use bhwi.Prelude.{
  ℕ, ◌≤◌, ◌<◌, ◌≡◌, refl, sym, ◌∙◌, ◌⊎◌, arith, List, [], ◌∷◌, Option, none, some, length, All, ok,
  bytes_eq, bytes_eq→eq, Bool-cases, inl, inr, >>=-eq-ok,
}
use bhwi.Ledger.Apdu
use bhwi.Ledger.Apdu.{ClientCommandCode, client_code_of}
use bhwi.Ledger.Merkle
use bhwi.Ledger.Merkle.{MerkleTree, Total}
use bhwi.Ledger.Merkle.Build.{new-IsRoot}
use bhwi.Ledger.Merkle.Proofs.{get_leaf_proof-Proves}
use bhwi.Ledger.Consensus.{Consensus}
use bhwi.Ledger.Store.{
  DelegatedStore, find_tree, more_elements, get_preimage, get_merkle_leaf_proof,
  get_merkle_leaf_index, dispatch, execute,
}

-- The tree was built from its leaves, of which there is one at least.
abbrev pub IsTree : (List ℕ → List ℕ) → MerkleTree → Type 0
IsTree sha256 m = (1 ≤ length m.leaves) × (Merkle.new sha256 m.leaves ≡ ok m)

pub record IsSound (sha256 : List ℕ → List ℕ) (s : DelegatedStore) : Type 0 where
  pub hashed : All (λ known. known.0 ≡ sha256 known.1) s.known_preimages
  pub built : All (IsTree sha256) s.trees

-- The two stores know the same preimages and trees.
abbrev pub SameData : DelegatedStore → DelegatedStore → Type 0
SameData s s' = (s'.known_preimages ≡ s.known_preimages) × (s'.trees ≡ s.trees)

module _ (c : Consensus) (s : DelegatedStore) {s' : DelegatedStore} {response : List ℕ} where
  get_preimage_frame :
      (request : List ℕ) → get_preimage c s request ≡ ok (s', response) → SameData s s'
  unfolding get_preimage
  get_preimage_frame request h = ground arith

  get_merkle_leaf_proof_frame :
      (request : List ℕ) → get_merkle_leaf_proof c s request ≡ ok (s', response) → SameData s s'
  unfolding get_merkle_leaf_proof
  get_merkle_leaf_proof_frame request h = ground arith

  more_elements_frame : (q : List (List ℕ)) → more_elements s q ≡ ok (s', response) → SameData s s'
  unfolding more_elements
  more_elements_frame [] h = ground arith
  more_elements_frame (e ∷ es) h = ground arith

  dispatch_frame :
      (code : ℕ) (request : List ℕ) (command : Option ClientCommandCode)
      → dispatch c s code request command ≡ ok (s', response)
      → SameData s s'
  unfolding dispatch
  dispatch_frame code request (some Apdu.yield) h = ground arith
  dispatch_frame code request (some Apdu.get_preimage) h = get_preimage_frame request h
  dispatch_frame code request (some Apdu.get_merkle_leaf_proof) h =
      get_merkle_leaf_proof_frame request h
  dispatch_frame code request (some Apdu.get_merkle_leaf_index) h =
      let (r, e, k) = >>=-eq-ok (get_merkle_leaf_index c s request) _ h in ground (arith, k)
  dispatch_frame code request (some Apdu.get_more_elements) h = more_elements_frame s.queue h
  dispatch_frame code request none h = ground arith

-- A request changes neither the known preimages nor the trees.
pub execute_frame :
    (c : Consensus) (s s' : DelegatedStore) (command response : List ℕ)
    → execute c s command ≡ ok (s', response)
    → SameData s s'
unfolding execute
execute_frame c s s' [] response h = ground arith
execute_frame c s s' (code ∷ request) response h =
    dispatch_frame c s code request (client_code_of code) h

module _ (sha256 : List ℕ → List ℕ) where
  -- A tree of a sound store has a root hash.
  pub root_hash_total :
      (m : MerkleTree) → IsTree sha256 m → (d : List ℕ) × (Merkle.root_hash m ≡ ok d)
  root_hash_total m (some_leaf, made) =
      let (m', d, made', _, root, _) = new-IsRoot sha256 m.leaves some_leaf in
      let same : ◌≡◌ {A = Total MerkleTree} (ok m') (ok m) = sym made' ∙ made in
      let m'≡m : m' ≡ m = cc in (d, rw m'≡m at root)

  -- The leaf and the proof that the tree of a sound store has at an index.
  pub leaf_proof_total :
      (m : MerkleTree) (i : ℕ)
      → IsTree sha256 m
      → i < length m.leaves
      → (x : List ℕ) × (p : List (List ℕ)) × (Merkle.get_leaf m i ≡ some x)
        × (Merkle.get_leaf_proof m i ≡ ok (some p))
  leaf_proof_total m i (some_leaf, made) hi =
      let (m', x, d, p, made', leaf, _, proof, _) = get_leaf_proof-Proves sha256 m.leaves i hi in
      let same : ◌≡◌ {A = Total MerkleTree} (ok m') (ok m) = sym made' ∙ made in
      let m'≡m : m' ≡ m = cc in (x, p, rw m'≡m at leaf, rw m'≡m at proof)

  -- The search over the trees of a sound store returns, and a tree that it finds has that root.
  pub find_tree_total :
      (trees : List MerkleTree) (root : List ℕ)
      → All (IsTree sha256) trees
      → (find_tree trees root ≡ ok none)
        ⊎ ((m : MerkleTree) × (find_tree trees root ≡ ok (some m))
            × IsTree sha256 m
            × (Merkle.root_hash m ≡ ok root))
  unfolding find_tree
  find_tree_total [] root h = inl refl
  find_tree_total (m ∷ ms) root (hm, hms) =
      let (d, r) = root_hash_total m hm in
      elim (Bool-cases (bytes_eq d root)) [
        | inl found ↦ inr (m, rw (r, found), hm, rw (bytes_eq→eq d root found) at r)
        | inr other ↦ elim (find_tree_total ms root hms) [
          | inl missing ↦ inl (rw (r, other) missing)
          | inr (m', found, h', r') ↦ inr (m', rw (r, other) found, h', r')
        ]
      ]
