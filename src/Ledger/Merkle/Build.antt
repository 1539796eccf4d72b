-- ===== src/Ledger/Merkle/Build.antt =====
-- The tree that `MerkleTree::new` builds, and its root (bhwi/src/ledger/merkle.rs).
use bhwi.Prelude.{
  ℕ, zero, suc, ◌+◌, ◌-◌, ◌*◌, ◌≤◌, ◌<◌, ◌≡◌, refl, arith, List, [], ◌∷◌, ◌++◌, ok, panic, false,
  length, Bool-cases, inl, inr, ==→eq, ◌==◌, take_all,
}
use mathlib.Core.Path.{subst}
use bhwi.Prelude.Slices.{slice, slice-add, length-slice, get_elem?_total}
use bhwi.Ledger.Merkle.{
  Total, Tree, leaf, node, MerkleTree, pow2, largest_power_of_2_less_than, index, value, height,
  build, new, root_hash,
}
use bhwi.Ledger.Merkle.Powers.{pow2_pos, pow2_between, largest_power_of_2_less_than_lem}

module _ (sha256 : List ℕ → List ℕ) (leaves : List (List ℕ)) where
  -- A tree over `n` leaves from `start` on: the left part has the largest power of two that leaves
  -- something for the right part.
  pub data IsBuilt : ℕ → ℕ → Tree → Type 0 where
    leaf_built :
        {start n idx : ℕ} → n ≡ 1 → idx ≡ start → start < length leaves → IsBuilt start n (leaf idx)
    node_built :
        {start n h : ℕ} {v : List ℕ} {l t : Tree} (e r : ℕ) (a b : List ℕ)
        → n ≡ pow2 e + r
        → 1 ≤ r
        → r ≤ pow2 e
        → IsBuilt start (pow2 e) l
        → IsBuilt (start + pow2 e) r t
        → value leaves l ≡ ok a
        → value leaves t ≡ ok b
        → v ≡ sha256 (1 ∷ (a ++ b))
        → h ≡ height l + 1
        → IsBuilt start n (node v l t h)

  pub value_total :
      {start n : ℕ} {t : Tree} → IsBuilt start n t → (d : List ℕ) × (value leaves t ≡ ok d)
  unfolding value
  value_total (leaf_built hn hi h) =
      let (x, e, _) = get_elem?_total leaves _ h in (x, rw (hi, index, e))
  value_total (node_built {v = v} e r a b hn h1 hr bl bt va vb hv hh) = (v, refl)

  -- A tree over a power of two of leaves is as high as the exponent.
  pub height-IsBuilt :
      {start n : ℕ} {t : Tree} (e : ℕ) → n ≡ pow2 e → IsBuilt start n t → height t ≡ e
  unfolding height
  height-IsBuilt zero h (leaf_built hn hi hs) = refl
  height-IsBuilt (suc e) h (leaf_built hn hi hs) = absurd (unfold pow2 in omega (arith, pow2_pos e))
  height-IsBuilt e h (node_built e' r a b hn h1 hr bl bt va vb hv hh) =
      omega (arith, pow2_between e' e (omega arith) (omega arith), height-IsBuilt e' refl bl)

  -- One inner node of `Tree::new`, from its parts.
  build_inner :
      (fuel start n e : ℕ) (l t : Tree)
      → (n == 1) ≡ false
      → largest_power_of_2_less_than n ≡ ok (pow2 e)
      → pow2 e < n
      → n ≤ 2 * pow2 e
      → build sha256 fuel leaves start (pow2 e) ≡ ok l
      → build sha256 fuel leaves (start + pow2 e) (n - pow2 e) ≡ ok t
      → IsBuilt start (pow2 e) l
      → IsBuilt (start + pow2 e) (n - pow2 e) t
      → (t : Tree) × (build sha256 (suc fuel) leaves start n ≡ ok t) × IsBuilt start n t
  unfolding build
  build_inner fuel start n e l t more q lo hi ql qt bl bt =
      let (a, va) = value_total bl in
      let (b, vb) = value_total bt in
      (
        node (sha256 (1 ∷ (a ++ b))) l t (height l + 1),
        rw (more, q, ql, qt, va, vb),
        node_built e (n - pow2 e) a b (omega arith) (omega arith) (omega arith) bl bt va vb refl
            refl,
      )

  build_total :
      (fuel start n : ℕ)
      → n ≤ fuel
      → 1 ≤ n
      → start + n ≤ length leaves
      → (t : Tree) × (build sha256 fuel leaves start n ≡ ok t) × IsBuilt start n t
  unfolding build
  build_total zero start n hf h1 hb = absurd (omega arith)
  build_total (suc fuel) start n hf h1 hb = elim (Bool-cases (n == 1)) [
    | inl one ↦ (leaf start, rw one, leaf_built (==→eq _ _ one) refl (omega (arith, ==→eq _ _ one)))
    | inr more ↦
        let (e, q, lo, hi) = largest_power_of_2_less_than_lem n (ground arith) in
        let (l, ql, bl) =
          build_total fuel start (pow2 e) (omega arith) (pow2_pos e) (omega arith) in
        let (t, qt, bt) =
          build_total fuel (start + pow2 e) (n - pow2 e) (omega (arith, pow2_pos e)) (omega arith)
            (omega arith) in
        build_inner fuel start n e l t more q lo hi ql qt bl bt
  ]

-- The Merkle tree hash of RFC 6962 over leaf hashes: a list of one is its element's hash; a longer
-- list is cut behind the largest power of two of elements that is less than its length.
pub data IsRoot (sha256 : List ℕ → List ℕ) : List (List ℕ) → List ℕ → Type 0 where
  single : {xs : List (List ℕ)} {d : List ℕ} → xs ≡ d ∷ [] → IsRoot sha256 xs d
  join :
      {xs : List (List ℕ)} {d : List ℕ} (e : ℕ) (ys zs : List (List ℕ)) (a b : List ℕ)
      → xs ≡ ys ++ zs
      → length ys ≡ pow2 e
      → 1 ≤ length zs
      → length zs ≤ pow2 e
      → IsRoot sha256 ys a
      → IsRoot sha256 zs b
      → d ≡ sha256 (1 ∷ (a ++ b))
      → IsRoot sha256 xs d

module _ (sha256 : List ℕ → List ℕ) (leaves : List (List ℕ)) where
  value-IsRoot :
      {start n : ℕ} {t : Tree} (d : List ℕ)
      → start + n ≤ length leaves
      → IsBuilt sha256 leaves start n t
      → value leaves t ≡ ok d
      → IsRoot sha256 (slice start n leaves) d
  unfolding value
  value-IsRoot d hb (leaf_built hn hi h) hv =
      let (x, e, s) = get_elem?_total leaves _ h in
      let found : ◌≡◌ {A = Total (List ℕ)} (ok x) (ok d) = rw (hi, index, e) at hv in
      let same : x ≡ d = cc in single (rw hn (rw same at s))
  value-IsRoot {start} d hb (node_built e r a b hn h1 hr bl bt va vb hv hh) vd =
      join e (slice start (pow2 e) leaves) (slice (start + pow2 e) r leaves) a b
        (rw hn (slice-add start (pow2 e) r leaves))
        (length-slice start (pow2 e) leaves (omega arith))
        (omega (arith, length-slice (start + pow2 e) r leaves (omega arith)))
        (omega (arith, length-slice (start + pow2 e) r leaves (omega arith)))
        (value-IsRoot a (omega arith) bl va) (value-IsRoot b (omega arith) bt vb) (cc)

pub new-IsBuilt :
    (sha256 : List ℕ → List ℕ) (leaves : List (List ℕ))
    → 1 ≤ length leaves
    → (t : Tree) × (d : List ℕ) × (new sha256 leaves ≡ ok (record { root = t; leaves = leaves }))
      × IsBuilt sha256 leaves 0 (length leaves) t
      × (value leaves t ≡ ok d)
unfolding new
new-IsBuilt sha256 leaves h =
    let (t, q, bt) =
      build_total sha256 leaves (suc (length leaves)) 0 (length leaves) (omega arith) h
        (omega arith) in
    let (d, vd) = value_total sha256 leaves bt in (t, d, rw q, bt, vd)

-- Over at least one leaf `MerkleTree::new` returns a tree that keeps the leaves, and whose root hash is
-- the Merkle tree hash of the leaves.
pub new-IsRoot :
    (sha256 : List ℕ → List ℕ) (leaves : List (List ℕ))
    → 1 ≤ length leaves
    → (m : MerkleTree) × (d : List ℕ) × (new sha256 leaves ≡ ok m)
      × (m.leaves ≡ leaves)
      × (root_hash m ≡ ok d)
      × IsRoot sha256 leaves d
unfolding root_hash
new-IsRoot sha256 leaves h =
    let (t, d, q, bt, vd) = new-IsBuilt sha256 leaves h in
    let whole : slice 0 (length leaves) leaves ≡ leaves =
      take_all (length leaves) leaves (omega arith) in
    (
      record { root = t; leaves = leaves },
      d,
      q,
      refl,
      vd,
      subst (λ xs. IsRoot sha256 xs d) whole (value-IsRoot sha256 leaves d (omega arith) bt vd),
    )

-- Over no leaf it panics.
pub new_empty : (sha256 : List ℕ → List ℕ) → new sha256 [] ≡ panic
unfolding new build largest_power_of_2_less_than
new_empty sha256 = refl
