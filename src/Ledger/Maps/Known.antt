-- ===== src/Ledger/Maps/Known.antt =====
-- bhwi/src/ledger/store.rs: the store can answer what a commitment to a mapping commits to.
use bhwi.Prelude.{
  ℕ, suc, ◌≤◌, ◌≡◌, refl, sym, ap, ◌∙◌, arith, List, [], ◌∷◌, ◌++◌, length, ok, Bool-cases, inl,
  inr,
}
use mathlib.Core.List.{Permᴰ}
use bhwi.Ledger.Consensus.{Consensus}
use bhwi.Ledger.Maps.Sorted.{InOrder, sort_pairs-InOrder, sort_pairs-Perm}
use bhwi.Ledger.Merkle
use bhwi.Ledger.Merkle.{MerkleTree, Total}
use bhwi.Ledger.Merkle.Build.{new-IsRoot}
use bhwi.Ledger.Store.{DelegatedStore, add_known_list}
use bhwi.Ledger.Store.Invariant.{IsSound}
use bhwi.Ledger.Store.Known.{leaf_hashes, length-leaf_hashes, add_leaves_lem}
use bhwi.Ledger.Store.Growth.{Grows, Grows-trans, CanAnswer, Grows-CanAnswer, add_known_list-Grows}
use bhwi.Ledger.Maps.{
  Pairs, bytes_lt, insert_pair, sort_pairs, keys_of, values_of, element_hashes, add_known_mapping,
  get_merkleized_map_commitment,
}

length-insert_pair :
    (p : List ℕ × List ℕ) (qs : Pairs) → length (insert_pair p qs) ≡ suc (length qs)
unfolding insert_pair
length-insert_pair p [] = refl
length-insert_pair p (q ∷ qs) = elim (Bool-cases (bytes_lt q.0 p.0)) [
  | inl lower ↦ rw lower (ap suc (length-insert_pair p qs))
  | inr upper ↦ rw upper refl
]

pub length-sort_pairs : (ps : Pairs) → length (sort_pairs ps) ≡ length ps
unfolding sort_pairs
length-sort_pairs [] = refl
length-sort_pairs (p ∷ ps) = length-insert_pair p (sort_pairs ps) ∙ ap suc (length-sort_pairs ps)

length-keys_of : (ps : Pairs) → length (keys_of ps) ≡ length ps
length-keys_of [] = refl
length-keys_of (p ∷ ps) = ap suc (length-keys_of ps)

length-values_of : (ps : Pairs) → length (values_of ps) ≡ length ps
length-values_of [] = refl
length-values_of (p ∷ ps) = ap suc (length-values_of ps)

module _ (sha256 : List ℕ → List ℕ) where
  pub element_hashes_eq : (es : List (List ℕ)) → element_hashes sha256 es ≡ leaf_hashes sha256 es
  unfolding element_hashes
  element_hashes_eq [] = refl
  element_hashes_eq (e ∷ es) = ap (λ rest. sha256 (0 ∷ e) ∷ rest) (element_hashes_eq es)

  -- The root of a list is what its store returns.
  pub root_of_list :
      (s : DelegatedStore) (es : List (List ℕ)) (s' : DelegatedStore) (root : List ℕ)
      → 1 ≤ length es
      → add_known_list sha256 s es ≡ ok (s', root)
      → (m : MerkleTree) × (Merkle.new sha256 (leaf_hashes sha256 es) ≡ ok m)
        × (Merkle.root_hash m ≡ ok root)
  unfolding add_known_list
  root_of_list s es s' root some_element h =
      let some_leaf : 1 ≤ length (leaf_hashes sha256 es) =
        omega (arith, length-leaf_hashes sha256 es) in
      let (m, d, made, _, r, _) = new-IsRoot sha256 (leaf_hashes sha256 es) some_leaf in
      let h' = rw (add_leaves_lem sha256 s es [], made, r) at h in
      let d≡root : d ≡ root = cc in (m, made, rw d≡root at r)

  -- It depends on the list alone.
  pub same_root :
      (s t : DelegatedStore) (es : List (List ℕ)) {s' t' : DelegatedStore} {root root' : List ℕ}
      → add_known_list sha256 s es ≡ ok (s', root)
      → add_known_list sha256 t es ≡ ok (t', root')
      → 1 ≤ length es
      → root' ≡ root
  same_root s t es {s' = s'} {t' = t'} {root = root} {root' = root'} h h' some_element =
      let (m, made, r) = root_of_list s es s' root some_element h in
      let (m', made', r') = root_of_list t es t' root' some_element h' in
      let same : ◌≡◌ {A = Total MerkleTree} (ok m) (ok m') = sym made ∙ made' in
      let m≡m' : m ≡ m' = cc in
      let roots : ◌≡◌ {A = Total (List ℕ)} (ok root') (ok root) =
        sym r' ∙ (ap Merkle.root_hash (sym m≡m') ∙ r) in
      cc

  -- The pairs of a mapping can be put in the order of their keys such that the store can answer for the
  -- keys and for the values in that order.
  abbrev pub CanAnswerMapping : DelegatedStore → Pairs → List ℕ → List ℕ → Type 0
  CanAnswerMapping s mapping keys_root values_root =
      (sorted : Pairs) × Permᴰ sorted mapping
      × InOrder sorted
      × CanAnswer sha256 s (keys_of sorted) keys_root
      × CanAnswer sha256 s (values_of sorted) values_root

  pub Grows-CanAnswerMapping :
      {s s' : DelegatedStore} (mapping : Pairs) (keys_root values_root : List ℕ)
      → Grows s s'
      → CanAnswerMapping s mapping keys_root values_root
      → CanAnswerMapping s' mapping keys_root values_root
  Grows-CanAnswerMapping mapping keys_root values_root g (sorted, perm, order, hk, hv) = (
    sorted,
    perm,
    order,
    Grows-CanAnswer sha256 (keys_of sorted) keys_root g hk,
    Grows-CanAnswer sha256 (values_of sorted) values_root g hv,
  )

-- A mapping of at least one pair can be added to a sound store and committed to. The store stays sound
-- and keeps what it knew. The commitment is the number of pairs and two roots, and the store has the
-- trees of these roots and the preimages of their leaves: those of the keys and of the values of the same
-- pairs in an order in which each key is before the next one, as byte strings.
pub add_known_mapping_lem :
    (sha256 : List ℕ → List ℕ) (c : Consensus) (s : DelegatedStore) (mapping : Pairs)
    → IsSound sha256 s
    → 1 ≤ length mapping
    → (s' : DelegatedStore) × (keys_root values_root : List ℕ) × (add_known_mapping sha256 s mapping
        ≡ ok s')
      × (get_merkleized_map_commitment sha256 c mapping
          ≡ ok (c.serialize (length mapping) ++ (keys_root ++ values_root)))
      × IsSound sha256 s'
      × Grows s s'
      × CanAnswerMapping sha256 s' mapping keys_root values_root
unfolding add_known_mapping get_merkleized_map_commitment
add_known_mapping_lem sha256 c s mapping sound h =
    let sorted = sort_pairs mapping in
    let n : length sorted ≡ length mapping = length-sort_pairs mapping in
    let nk : 1 ≤ length (keys_of sorted) = omega (arith, n, length-keys_of sorted) in
    let nv : 1 ≤ length (values_of sorted) = omega (arith, n, length-values_of sorted) in
    let (s₁, kr, added₁, sound₁, grows₁, keys) =
      add_known_list-Grows sha256 s (keys_of sorted) sound nk in
    let (s₂, vr, added₂, sound₂, grows₂, values) =
      add_known_list-Grows sha256 s₁ (values_of sorted) sound₁ nv in
    let (mk, newk, rootk) = root_of_list sha256 s (keys_of sorted) s₁ kr nk added₁ in
    let (mv, newv, rootv) = root_of_list sha256 s₁ (values_of sorted) s₂ vr nv added₂ in
    (
      s₂,
      kr,
      vr,
      rw (added₁, added₂) refl,
      rw
          (
            element_hashes_eq sha256 (keys_of sorted),
            newk,
            rootk,
            element_hashes_eq sha256 (values_of sorted),
            newv,
            rootv,
            n,
          )
          refl,
      sound₂,
      Grows-trans grows₁ grows₂,
      (
        sorted,
        sort_pairs-Perm mapping,
        sort_pairs-InOrder mapping,
        Grows-CanAnswer sha256 (keys_of sorted) kr grows₂ keys,
        values,
      ),
    )
