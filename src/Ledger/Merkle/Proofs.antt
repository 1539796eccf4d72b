-- ===== src/Ledger/Merkle/Proofs.antt =====
-- The proofs that `MerkleTree::get_leaf_proof` returns (bhwi/src/ledger/merkle.rs).
use bhwi.Prelude.{
  ℕ, zero, suc, ◌+◌, ◌-◌, ◌≤◌, ◌<◌, ◌≡◌, refl, arith, List, [], ◌∷◌, ◌++◌, some, none, ok, length,
  ltb, Bool-cases, inl, inr, length-append, get_elem?, leb, false,
}
use bhwi.Prelude.Slices.{get_elem?_total}
use bhwi.Ledger.Merkle.{
  Total, Tree, MerkleTree, pow2, index, value, height, get_proof, new, root_hash, get_leaf,
  get_leaf_proof,
}
use bhwi.Ledger.Merkle.Powers.{pow2_pos, pow2_half}
use bhwi.Ledger.Merkle.Build.{IsBuilt, leaf_built, node_built, height-IsBuilt, new-IsBuilt}

-- What the device checks: `p` leads from the hash `x` of leaf `i` of `n` up to the root `d`. The last
-- element of a proof is the hash of the other half under the root.
pub data Proves (sha256 : List ℕ → List ℕ) : ℕ → ℕ → List ℕ → List (List ℕ) → List ℕ → Type 0 where
  at_leaf :
      {n i : ℕ} {x d : List ℕ} {p : List (List ℕ)}
      → n ≡ 1
      → i ≡ 0
      → p ≡ []
      → d ≡ x
      → Proves sha256 n i x p d
  in_left :
      {n i : ℕ} {x d : List ℕ} {p : List (List ℕ)} (e r : ℕ) (q : List (List ℕ)) (a s : List ℕ)
      → n ≡ pow2 e + r
      → 1 ≤ r
      → r ≤ pow2 e
      → i < pow2 e
      → Proves sha256 (pow2 e) i x q a
      → p ≡ q ++ (s ∷ [])
      → d ≡ sha256 (1 ∷ (a ++ s))
      → Proves sha256 n i x p d
  in_right :
      {n i : ℕ} {x d : List ℕ} {p : List (List ℕ)} (e r : ℕ) (q : List (List ℕ)) (b s : List ℕ)
      → n ≡ pow2 e + r
      → 1 ≤ r
      → r ≤ pow2 e
      → pow2 e ≤ i
      → Proves sha256 r (i - pow2 e) x q b
      → p ≡ q ++ (s ∷ [])
      → d ≡ sha256 (1 ∷ (s ++ b))
      → Proves sha256 n i x p d

-- A proof has at most as many elements as the exponent of a power of two that is not less than the
-- number of leaves.
pub length-Proves :
    {sha256 : List ℕ → List ℕ} {n i : ℕ} {x d : List ℕ} {p : List (List ℕ)} (h : ℕ)
    → n ≤ pow2 h
    → Proves sha256 n i x p d
    → length p ≤ h
length-Proves h hn (at_leaf n1 i0 pe dx) = rw pe (omega arith)
length-Proves zero hn (in_left e r q a s hr r1 re hi pr pe de) =
    absurd (unfold pow2 in omega (arith, pow2_pos e))
length-Proves (suc h) hn (in_left e r q a s hr r1 re hi pr pe de) =
    let le : pow2 e ≤ pow2 h = pow2_half e h (omega arith) in
    rw pe (omega (arith, length-append q (s ∷ []), length-Proves h le pr))
length-Proves zero hn (in_right e r q b s hr r1 re hi pr pe de) =
    absurd (unfold pow2 in omega (arith, pow2_pos e))
length-Proves (suc h) hn (in_right e r q b s hr r1 re hi pr pe de) =
    let le : pow2 e ≤ pow2 h = pow2_half e h (omega arith) in
    rw pe (omega (arith, length-append q (s ∷ []), length-Proves h (omega (arith, le)) pr))

module _ (sha256 : List ℕ → List ℕ) (leaves : List (List ℕ)) where
  get_proof-Proves :
      {start n : ℕ} {t : Tree} (i : ℕ) (x d : List ℕ)
      → i < n
      → IsBuilt sha256 leaves start n t
      → get_elem? leaves (start + i) ≡ some x
      → value leaves t ≡ ok d
      → (p : List (List ℕ)) × (get_proof t leaves i ≡ ok p) × Proves sha256 n i x p d
  unfolding get_proof value
  get_proof-Proves {start} i x d hi (leaf_built hn hs h) hx hv =
      let here : start + i ≡ start = omega arith in
      let hx' : get_elem? leaves start ≡ some x = rw here at hx in
      let found : ◌≡◌ {A = Total (List ℕ)} (ok x) (ok d) = rw (hs, index, hx') at hv in
      ([], refl, at_leaf hn (omega arith) refl (cc))
  get_proof-Proves {start} i x d hi (node_built {l = l} {t = t} e r a b hn h1 hr bl bt va vb hv hh)
        hx vd =
      let top : height l ≡ e = height-IsBuilt sha256 leaves e refl bl in
      elim (Bool-cases (ltb i (pow2 e))) [
        | inl left ↦
            let (q, eq, pr) = get_proof-Proves i x a (ground arith) bl hx va in
            (
              q ++ (b ∷ []),
              rw (top, left, eq, vb),
              in_left e r q a b hn h1 hr (ground arith) pr refl (cc),
            )
        | inr right ↦
            let over : pow2 e ≤ i = ground arith in
            let at : start + i ≡ start + pow2 e + (i - pow2 e) = omega arith in
            let (q, eq, pr) = get_proof-Proves (i - pow2 e) x b (omega arith) bt (rw at at hx) vb in
            (q ++ (a ∷ []), rw (top, right, eq, va), in_right e r q b a hn h1 hr over pr refl (cc))
      ]

-- Over at least one leaf, for each index in range `get_leaf_proof` returns a proof, and this proof leads
-- from the hash that `get_leaf` returns up to the hash that `root_hash` returns.
pub get_leaf_proof-Proves :
    (sha256 : List ℕ → List ℕ) (leaves : List (List ℕ)) (i : ℕ)
    → i < length leaves
    → (m : MerkleTree) × (x : List ℕ) × (d : List ℕ) × (p : List (List ℕ)) × (new sha256 leaves
        ≡ ok m)
      × (get_leaf m i ≡ some x)
      × (root_hash m ≡ ok d)
      × (get_leaf_proof m i ≡ ok (some p))
      × Proves sha256 (length leaves) i x p d
unfolding root_hash get_leaf get_leaf_proof
get_leaf_proof-Proves sha256 leaves i hi =
    let (t, d, q, bt, vd) = new-IsBuilt sha256 leaves (omega arith) in
    let (x, hx, _) = get_elem?_total leaves i hi in
    let start : 0 + i ≡ i = omega arith in
    let (p, ep, pr) = get_proof-Proves sha256 leaves i x d hi bt (rw start hx) vd in
    let inside : leb (length leaves) i ≡ false = ground arith in
    (record { root = t; leaves = leaves }, x, d, p, q, hx, vd, rw (inside, ep), pr)

-- Out of range it returns none.
pub get_leaf_proof_outside :
    (m : MerkleTree) (i : ℕ) → length m.leaves ≤ i → get_leaf_proof m i ≡ ok none
unfolding get_leaf_proof
get_leaf_proof_outside m i h = ground arith
