-- ===== src/Ledger/Store/Known.antt =====
-- What a store answers about the lists and preimages that were added to it (bhwi/src/ledger/store.rs).
use bhwi.Prelude.{
  ℕ, suc, ◌≤◌, ◌≡◌, refl, sym, ap, ◌∙◌, inl, inr, arith, List, [], ◌∷◌, ◌++◌, some, length, All,
  All-append, ok, panic, bytes_eq, bytes_eq_refl, bytes_eq→eq, Bool-cases,
}
use mathlib.Core.List.{append-nil, append_assoc}
use bhwi.Ledger.Merkle
use bhwi.Ledger.Merkle.{MerkleTree}
use bhwi.Ledger.Merkle.Build.{IsRoot, new-IsRoot, new_empty}
use bhwi.Ledger.Store.{
  DelegatedStore, find_preimage, find_tree, add_known_preimage, add_leaves, add_known_list,
}
use bhwi.Ledger.Store.Invariant.{IsTree, IsSound, root_hash_total}

module _ (sha256 : List ℕ → List ℕ) where
  abbrev pub leaf_preimages : List (List ℕ) → List (List ℕ × List ℕ)
  leaf_preimages [] = []
  leaf_preimages (e ∷ es) = (sha256 (0 ∷ e), 0 ∷ e) ∷ leaf_preimages es

  -- The hash of each element behind a zero byte.
  abbrev pub leaf_hashes : List (List ℕ) → List (List ℕ)
  leaf_hashes [] = []
  leaf_hashes (e ∷ es) = sha256 (0 ∷ e) ∷ leaf_hashes es

  -- A preimage that is known is found, or another one of the same hash.
  find_preimage_total :
      (xs : List (List ℕ × List ℕ)) (h p : List ℕ) (ys : List (List ℕ × List ℕ))
      → All (λ known. known.0 ≡ sha256 known.1) (xs ++ ((h, p) ∷ ys))
      → (q : List ℕ) × (find_preimage (xs ++ ((h, p) ∷ ys)) h ≡ some q) × (h ≡ sha256 q)
  unfolding find_preimage
  find_preimage_total [] h p ys (hp, _) = (p, rw (bytes_eq_refl h), hp)
  find_preimage_total ((g, o) ∷ xs) h p ys (ho, hxs) = elim (Bool-cases (bytes_eq g h)) [
    | inl same ↦ (o, rw same, rw (bytes_eq→eq g h same) at ho)
    | inr other ↦ let (q, found, hq) = find_preimage_total xs h p ys hxs in (q, rw other found, hq)
  ]

  pub add_leaves_lem :
      (s : DelegatedStore) (es leaves : List (List ℕ))
      → add_leaves sha256 s es leaves ≡ (
        record s { known_preimages = s.known_preimages ++ leaf_preimages es },
        leaves ++ leaf_hashes es,
      )
  unfolding add_leaves
  add_leaves_lem s [] leaves = rw (append-nil s.known_preimages, append-nil leaves)
  add_leaves_lem s (e ∷ es) leaves =
      add_leaves_lem (add_known_preimage sha256 s (0 ∷ e)) es (leaves ++ (sha256 (0 ∷ e) ∷ []))
      ∙ rw (append_assoc s.known_preimages _ _, append_assoc leaves _ _)

  pub leaf_preimages_hashed :
      (es : List (List ℕ)) → All (λ known. known.0 ≡ sha256 known.1) (leaf_preimages es)
  leaf_preimages_hashed [] = tt
  leaf_preimages_hashed (e ∷ es) = (refl, leaf_preimages_hashed es)

  leaf_preimages-append :
      (front back : List (List ℕ))
      → leaf_preimages (front ++ back) ≡ leaf_preimages front ++ leaf_preimages back
  leaf_preimages-append [] back = refl
  leaf_preimages-append (e ∷ front) back = rw (leaf_preimages-append front back)

  find_element :
      (known : List (List ℕ × List ℕ)) (front back : List (List ℕ)) (e : List ℕ)
      → All (λ known. known.0 ≡ sha256 known.1) (known ++ leaf_preimages (front ++ (e ∷ back)))
      → (q : List ℕ) × (find_preimage
            (known ++ leaf_preimages (front ++ (e ∷ back)))
            (sha256 (0 ∷ e))
          ≡ some q)
        × (sha256 (0 ∷ e) ≡ sha256 q)
  find_element known front back e h =
      let split : known ++ leaf_preimages (front ++ (e ∷ back))
          ≡ (known ++ leaf_preimages front) ++ ((sha256 (0 ∷ e), 0 ∷ e) ∷ leaf_preimages back) =
        ap (λ t. known ++ t) (leaf_preimages-append front (e ∷ back))
        ∙ sym (append_assoc known (leaf_preimages front) _) in
      rw split (
        find_preimage_total (known ++ leaf_preimages front) (sha256 (0 ∷ e)) (0 ∷ e)
          (leaf_preimages back) (rw split at h))

  pub length-leaf_hashes : (es : List (List ℕ)) → length (leaf_hashes es) ≡ length es
  length-leaf_hashes [] = refl
  length-leaf_hashes (e ∷ es) = ap suc (length-leaf_hashes es)

  -- The tree that was added is found by its root, or an earlier one with the same root.
  find_tree-append :
      (trees : List MerkleTree) (m : MerkleTree) (root : List ℕ)
      → All (IsTree sha256) (trees ++ (m ∷ []))
      → Merkle.root_hash m ≡ ok root
      → (m' : MerkleTree) × (find_tree (trees ++ (m ∷ [])) root ≡ ok (some m'))
        × (Merkle.root_hash m' ≡ ok root)
  unfolding find_tree
  find_tree-append [] m root h r = (m, rw (r, bytes_eq_refl root), r)
  find_tree-append (t ∷ ts) m root (ht, hts) r =
      let (d, rd) = root_hash_total sha256 t ht in
      elim (Bool-cases (bytes_eq d root)) [
        | inl found ↦ (t, rw (rd, found), rw (bytes_eq→eq d root found) at rd)
        | inr other ↦
            let (m', found, r') = find_tree-append ts m root hts r in (m', rw (rd, other) found, r')
      ]

-- To a sound store a list of at least one element can be added. The store stays sound, keeps its queue,
-- and returns the Merkle tree hash of the elements' hashes (each behind a zero byte). It then finds for
-- this root a tree with the root, and for the hash of each element a preimage with the hash.
pub add_known_list_lem :
    (sha256 : List ℕ → List ℕ) (s : DelegatedStore) (elements : List (List ℕ))
    → IsSound sha256 s
    → 1 ≤ length elements
    → (s' : DelegatedStore) × (root : List ℕ) × (add_known_list sha256 s elements ≡ ok (s', root))
      × IsSound sha256 s'
      × (s'.queue ≡ s.queue)
      × IsRoot sha256 (leaf_hashes sha256 elements) root
      × ((m : MerkleTree) × (find_tree s'.trees root ≡ ok (some m))
          × (Merkle.root_hash m ≡ ok root))
      × ((front back : List (List ℕ)) (e : List ℕ)
          → elements ≡ front ++ (e ∷ back)
          → (q : List ℕ) × (find_preimage s'.known_preimages (sha256 (0 ∷ e)) ≡ some q)
            × (sha256 (0 ∷ e) ≡ sha256 q))
unfolding add_known_list
add_known_list_lem sha256 s elements sound h =
    let leaves = leaf_hashes sha256 elements in
    let some_leaf : 1 ≤ length leaves = omega (arith, length-leaf_hashes sha256 elements) in
    let (m, root, made, kept, r, spec) = new-IsRoot sha256 leaves some_leaf in
    let tree : IsTree sha256 m = rw kept (some_leaf, made) in
    let preimages = s.known_preimages ++ leaf_preimages sha256 elements in
    let hashed : All (λ known. known.0 ≡ sha256 known.1) preimages =
      All-append _ s.known_preimages _ sound.hashed (leaf_preimages_hashed sha256 elements) in
    let built : All (IsTree sha256) (s.trees ++ (m ∷ [])) =
      All-append _ s.trees _ sound.built (tree, tt) in
    (
      record s { known_preimages = preimages; trees = s.trees ++ (m ∷ []) },
      root,
      rw (add_leaves_lem sha256 s elements [], made, r),
      record { hashed = hashed; built = built },
      refl,
      spec,
      find_tree-append sha256 s.trees m root built r,
      λ front back e split.
          rw split (find_element sha256 s.known_preimages front back e (rw split at hashed)),
    )

-- Adding a list with no element panics.
pub add_known_list_empty :
    (sha256 : List ℕ → List ℕ) (s : DelegatedStore) → add_known_list sha256 s [] ≡ panic
unfolding add_known_list
add_known_list_empty sha256 s = rw (new_empty sha256)
