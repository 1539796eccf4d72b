-- ===== src/Ledger/Store/Growth.antt =====
-- What a store that only grows goes on knowing (bhwi/src/ledger/store.rs).
use bhwi.Prelude.{
  ℕ, ◌≤◌, ◌≡◌, refl, sym, ap, ◌∙◌, ◌⊎◌, inl, inr, arith, List, [], ◌∷◌, ◌++◌, some, length, All,
  All-append, ok, bytes_eq, bytes_eq_refl, bytes_eq→eq, Bool-cases,
}
use mathlib.Core.List.{append-nil, append_assoc}
use bhwi.Ledger.Merkle
use bhwi.Ledger.Merkle.{MerkleTree}
use bhwi.Ledger.Merkle.Build.{IsRoot, new-IsRoot}
use bhwi.Ledger.Store.{
  DelegatedStore, empty, find_preimage, find_tree, add_known_preimage, add_known_list,
}
use bhwi.Ledger.Store.Invariant.{IsTree, IsSound, root_hash_total}
use bhwi.Ledger.Store.Known.{
  leaf_hashes, leaf_preimages, leaf_preimages_hashed, length-leaf_hashes, add_leaves_lem,
}

-- One of the trees has the root; one of the preimages is known by the hash.
abbrev pub HasTree : List MerkleTree → List ℕ → Type 0
HasTree [] root = ⊥
HasTree (m ∷ ms) root = (Merkle.root_hash m ≡ ok root) ⊎ HasTree ms root

abbrev pub HasPreimage : List (List ℕ × List ℕ) → List ℕ → Type 0
HasPreimage [] hash = ⊥
HasPreimage (known ∷ rest) hash = (known.0 ≡ hash) ⊎ HasPreimage rest hash

HasTree-front :
    (ms ns : List MerkleTree) (root : List ℕ) → HasTree ms root → HasTree (ms ++ ns) root
HasTree-front [] ns root h = absurd h
HasTree-front (m ∷ ms) ns root (inl e) = inl e
HasTree-front (m ∷ ms) ns root (inr h) = inr (HasTree-front ms ns root h)

HasTree-back : (ms ns : List MerkleTree) (root : List ℕ) → HasTree ns root → HasTree (ms ++ ns) root
HasTree-back [] ns root h = h
HasTree-back (m ∷ ms) ns root h = inr (HasTree-back ms ns root h)

HasPreimage-front :
    (xs ys : List (List ℕ × List ℕ)) (hash : List ℕ)
    → HasPreimage xs hash
    → HasPreimage (xs ++ ys) hash
HasPreimage-front [] ys hash h = absurd h
HasPreimage-front (x ∷ xs) ys hash (inl e) = inl e
HasPreimage-front (x ∷ xs) ys hash (inr h) = inr (HasPreimage-front xs ys hash h)

pub HasPreimage-back :
    (xs ys : List (List ℕ × List ℕ)) (hash : List ℕ)
    → HasPreimage ys hash
    → HasPreimage (xs ++ ys) hash
HasPreimage-back [] ys hash h = h
HasPreimage-back (x ∷ xs) ys hash h = inr (HasPreimage-back xs ys hash h)

-- The second store has all that the first one has, in the same order, and the same queue and yields.
pub record Grows (s s' : DelegatedStore) : Type 0 where
  pub preimages : List (List ℕ × List ℕ)
  pub trees : List MerkleTree
  pub known_eq : s'.known_preimages ≡ s.known_preimages ++ preimages
  pub trees_eq : s'.trees ≡ s.trees ++ trees
  pub queue_eq : s'.queue ≡ s.queue
  pub yielded_eq : s'.yielded ≡ s.yielded

pub Grows-refl : (s : DelegatedStore) → Grows s s
Grows-refl s = record {
  preimages = [];
  trees = [];
  known_eq = sym (append-nil s.known_preimages);
  trees_eq = sym (append-nil s.trees);
  queue_eq = refl;
  yielded_eq = refl;
}

pub Grows-trans : {r s t : DelegatedStore} → Grows r s → Grows s t → Grows r t
Grows-trans {r = r} {s = s} {t = t} g h = record {
  preimages = g.preimages ++ h.preimages;
  trees = g.trees ++ h.trees;
  known_eq =
      h.known_eq
      ∙ (ap (λ x. x ++ h.preimages) g.known_eq ∙ append_assoc r.known_preimages g.preimages _);
  trees_eq = h.trees_eq ∙ (ap (λ x. x ++ h.trees) g.trees_eq ∙ append_assoc r.trees g.trees _);
  queue_eq = h.queue_eq ∙ g.queue_eq;
  yielded_eq = h.yielded_eq ∙ g.yielded_eq;
}

pub Grows-tree :
    {s s' : DelegatedStore} (root : List ℕ)
    → Grows s s'
    → HasTree s.trees root
    → HasTree s'.trees root
Grows-tree {s = s} root g h = rw g.trees_eq (HasTree-front s.trees g.trees root h)

pub Grows-preimage :
    {s s' : DelegatedStore} (hash : List ℕ)
    → Grows s s'
    → HasPreimage s.known_preimages hash
    → HasPreimage s'.known_preimages hash
Grows-preimage {s = s} hash g h =
    rw g.known_eq (HasPreimage-front s.known_preimages g.preimages hash h)

All-map :
    {A : Type 0} {P Q : A → Type 0} (f : (a : A) → P a → Q a) (xs : List A) → All P xs → All Q xs
All-map f [] h = tt
All-map f (x ∷ xs) (p, ps) = (f x p, All-map f xs ps)

module _ (sha256 : List ℕ → List ℕ) where
  -- The store has a tree with this root, which is the Merkle tree hash of the elements' hashes (each
  -- element behind a zero byte), and for each of those hashes a preimage.
  pub record CanAnswer (s : DelegatedStore) (elements : List (List ℕ)) (root : List ℕ)
      : Type 0 where
    pub tree : HasTree s.trees root
    pub is_root : IsRoot sha256 (leaf_hashes sha256 elements) root
    pub preimages : All (λ e. HasPreimage s.known_preimages (sha256 (0 ∷ e))) elements

  pub Grows-CanAnswer :
      {s s' : DelegatedStore} (elements : List (List ℕ)) (root : List ℕ)
      → Grows s s'
      → CanAnswer s elements root
      → CanAnswer s' elements root
  Grows-CanAnswer elements root g h = record {
    tree = Grows-tree root g h.tree;
    is_root = h.is_root;
    preimages = All-map (λ e p. Grows-preimage (sha256 (0 ∷ e)) g p) elements h.preimages;
  }

  pub find_tree-HasTree :
      (ms : List MerkleTree) (root : List ℕ)
      → All (IsTree sha256) ms
      → HasTree ms root
      → (m : MerkleTree) × (find_tree ms root ≡ ok (some m)) × (Merkle.root_hash m ≡ ok root)
  unfolding find_tree
  find_tree-HasTree [] root h has = absurd has
  find_tree-HasTree (t ∷ ts) root (ht, hts) (inl r) = (t, rw (r, bytes_eq_refl root), r)
  find_tree-HasTree (t ∷ ts) root (ht, hts) (inr has) =
      let (d, rd) = root_hash_total sha256 t ht in
      elim (Bool-cases (bytes_eq d root)) [
        | inl found ↦ (t, rw (rd, found), rw (bytes_eq→eq d root found) at rd)
        | inr other ↦
            let (m', found, r') = find_tree-HasTree ts root hts has in
            (m', rw (rd, other) found, r')
      ]

  pub find_preimage-HasPreimage :
      (xs : List (List ℕ × List ℕ)) (hash : List ℕ)
      → All (λ known. known.0 ≡ sha256 known.1) xs
      → HasPreimage xs hash
      → (q : List ℕ) × (find_preimage xs hash ≡ some q) × (hash ≡ sha256 q)
  unfolding find_preimage
  find_preimage-HasPreimage [] hash h has = absurd has
  find_preimage-HasPreimage ((g, o) ∷ xs) hash (ho, hxs) (inl e) =
      (o, rw (e, bytes_eq_refl hash), sym e ∙ ho)
  find_preimage-HasPreimage ((g, o) ∷ xs) hash (ho, hxs) (inr has) =
      elim (Bool-cases (bytes_eq g hash)) [
        | inl same ↦ (o, rw same, sym (bytes_eq→eq g hash same) ∙ ho)
        | inr other ↦
            let (q, found, hq) = find_preimage-HasPreimage xs hash hxs has in
            (q, rw other found, hq)
      ]

  HasPreimage-leaves :
      (es : List (List ℕ)) → All (λ e. HasPreimage (leaf_preimages sha256 es) (sha256 (0 ∷ e))) es
  HasPreimage-leaves [] = tt
  HasPreimage-leaves (e ∷ es) = (inl refl, All-map (λ x p. inr p) es (HasPreimage-leaves es))

  pub add_known_list-Grows :
      (s : DelegatedStore) (elements : List (List ℕ))
      → IsSound sha256 s
      → 1 ≤ length elements
      → (s' : DelegatedStore) × (root : List ℕ) × (add_known_list sha256 s elements ≡ ok (s', root))
        × IsSound sha256 s'
        × Grows s s'
        × CanAnswer s' elements root
  unfolding add_known_list
  add_known_list-Grows s elements sound h =
      let leaves = leaf_hashes sha256 elements in
      let some_leaf : 1 ≤ length leaves = omega (arith, length-leaf_hashes sha256 elements) in
      let (m, root, made, kept, r, spec) = new-IsRoot sha256 leaves some_leaf in
      let tree : IsTree sha256 m = rw kept (some_leaf, made) in
      let more = leaf_preimages sha256 elements in
      let hashed : All (λ known. known.0 ≡ sha256 known.1) (s.known_preimages ++ more) =
        All-append _ s.known_preimages _ sound.hashed (leaf_preimages_hashed sha256 elements) in
      let built : All (IsTree sha256) (s.trees ++ (m ∷ [])) =
        All-append _ s.trees _ sound.built (tree, tt) in
      let answered =
        All-map (λ e p. HasPreimage-back s.known_preimages more (sha256 (0 ∷ e)) p) elements
          (HasPreimage-leaves elements) in
      (
        record s { known_preimages = s.known_preimages ++ more; trees = s.trees ++ (m ∷ []) },
        root,
        rw (add_leaves_lem sha256 s elements [], made, r),
        record { hashed = hashed; built = built },
        record {
          preimages = more;
          trees = m ∷ [];
          known_eq = refl;
          trees_eq = refl;
          queue_eq = refl;
          yielded_eq = refl;
        },
        record {
          tree = HasTree-back s.trees (m ∷ []) root (inl r);
          is_root = spec;
          preimages = answered;
        },
      )

  pub add_known_preimage-Grows :
      (s : DelegatedStore) (element : List ℕ)
      → IsSound sha256 s
      → IsSound sha256 (add_known_preimage sha256 s element)
        × Grows s (add_known_preimage sha256 s element)
        × HasPreimage (add_known_preimage sha256 s element).known_preimages (sha256 element)
  unfolding add_known_preimage
  add_known_preimage-Grows s element sound =
      let one : List (List ℕ × List ℕ) = (sha256 element, element) ∷ [] in
      (
        record {
          hashed = All-append _ s.known_preimages one sound.hashed (refl, tt);
          built = sound.built;
        },
        record {
          preimages = one;
          trees = [];
          known_eq = refl;
          trees_eq = sym (append-nil s.trees);
          queue_eq = refl;
          yielded_eq = refl;
        },
        HasPreimage-back s.known_preimages one (sha256 element) (inl refl),
      )

  pub empty-IsSound : IsSound sha256 empty
  empty-IsSound = record { hashed = tt; built = tt }
