-- ===== src/Ledger/Merkle.antt =====
-- bhwi/src/ledger/merkle.rs: Merkle trees over a fixed list of leaf hashes. A digest is a list of
-- bytes and SHA-256 is a parameter. `1 << k` is written as `pow2 k`.
pub mod Powers
pub mod Build
pub mod Proofs
use Prim.Native.Nat.{bit_and}
use bhwi.Prelude.{
  ℕ, zero, suc, ◌+◌, ◌-◌, ◌*◌, ◌/◌, Bool, List, [], ◌∷◌, ◌++◌, Option, none, some, ltb, leb, ◌==◌,
  if◌then◌else◌, bytes_eq, length, get_elem?, Outcome, ok, err, panic, diverge, ◌>>=◌, ◌>>◌, check,
}

-- A call that has no error to return.
abbrev pub Total {ℓ} : Type ℓ → Type ℓ
Total A = Outcome ⊥ A

-- Such a call within one that can fail.
abbrev pub infallible {ℓ μ} : {E : Type μ} {A : Type ℓ} → Total A → Outcome E A
infallible (ok a) = ok a
infallible (err e) = absurd e
infallible panic = panic
infallible diverge = diverge

-- `slice[i]`.
abbrev pub index {ℓ} : {A : Type ℓ} → List A → ℕ → Total A
index xs i = elim (get_elem? xs i) [ none ↦ panic | some x ↦ ok x ]

-- The loop multiplies once for each of the `n` rounds.
unfoldable pub pow2 : ℕ → ℕ
pow2 zero = 1
pow2 (suc n) = pow2 n * 2

-- `while 2 * t <= n { t *= 2; r += 1; }`, with fuel.
unfoldable pub floor_lg_loop : ℕ → ℕ → ℕ → ℕ → Total ℕ
floor_lg_loop zero n t r = diverge
floor_lg_loop (suc fuel) n t r =
    let rest = floor_lg_loop fuel n (t * 2) (r + 1) in if leb (2 * t) n then rest else ok r

-- `t` at least doubles, so `n` rounds and the last test are enough.
unfoldable pub floor_lg : ℕ → Total ℕ
floor_lg n = do check (ltb 0 n); floor_lg_loop (suc n) n 1 0

unfoldable pub is_power_of_2 : ℕ → Total Bool
is_power_of_2 n = do check (leb 1 n); ok (bit_and n (n - 1) == 0)

unfoldable pub largest_power_of_2_less_than : ℕ → Total ℕ
largest_power_of_2_less_than n =
    let rest = do
      check (ltb 1 n)
      power ← is_power_of_2 n
      let shifted = (do r ← floor_lg n; ok (pow2 r))
      if power then ok (n / 2) else shifted
    in if n == 2 then ok 1 else rest

pub data Tree : Type 0 where
  node : (value : List ℕ) (left right : Tree) (height : ℕ) → Tree
  leaf : (idx : ℕ) → Tree

unfoldable pub value : List (List ℕ) → Tree → Total (List ℕ)
value leaves (node v l r h) = ok v
value leaves (leaf idx) = index leaves idx

unfoldable pub height : Tree → ℕ
height (node v l r h) = h
height (leaf idx) = 0

-- The proof of a leaf, from the leaf's sibling up to the root's child.
unfoldable pub get_proof : Tree → List (List ℕ) → ℕ → Total (List (List ℕ))
get_proof (leaf idx) leaves i = ok []
get_proof (node v l r h) leaves i =
    let in_left = (do p ← get_proof l leaves i; s ← value leaves r; ok (p ++ (s ∷ []))) in
    let in_right = do
      p ← get_proof r leaves (i - pow2 (height l))
      s ← value leaves l
      ok (p ++ (s ∷ []))
    in if ltb i (pow2 (height l)) then in_left else in_right

pub record MerkleTree : Type 0 where
  pub root : Tree
  pub leaves : List (List ℕ)

unfoldable pub size : MerkleTree → ℕ
size self = length self.leaves

-- The first component is the tree's hash, or a panic for a leaf index out of range.
unfoldable pub root_hash : MerkleTree → Total (List ℕ)
unfolding value
root_hash self = value self.leaves self.root

unfoldable pub get_leaf : MerkleTree → ℕ → Option (List ℕ)
get_leaf self i = get_elem? self.leaves i

unfoldable pub position : List ℕ → List (List ℕ) → ℕ → Option ℕ
position val [] i = none
position val (x ∷ xs) i =
    let rest = position val xs (i + 1) in if bytes_eq x val then some i else rest

unfoldable pub get_leaf_index : MerkleTree → List ℕ → Option ℕ
unfolding position
get_leaf_index self val = position val self.leaves 0

unfoldable pub get_leaf_proof : MerkleTree → ℕ → Total (Option (List (List ℕ)))
get_leaf_proof self i =
    let found = (do p ← get_proof self.root self.leaves i; ok (some p)) in
    if leb (length self.leaves) i then ok none else found

module _ (sha256 : List ℕ → List ℕ) where
  -- `Tree::new`, with fuel.
  unfoldable pub build : ℕ → List (List ℕ) → ℕ → ℕ → Total Tree
  build zero leaves start n = diverge
  build (suc fuel) leaves start n =
      let inner = do
        lchild_size ← largest_power_of_2_less_than n
        lchild ← build fuel leaves start lchild_size
        rchild ← build fuel leaves (start + lchild_size) (n - lchild_size)
        a ← value leaves lchild
        b ← value leaves rchild
        ok (node (sha256 (0x01 ∷ (a ++ b))) lchild rchild (height lchild + 1))
      in if n == 1 then ok (leaf start) else inner

  -- Each call has fewer leaves, so their number is enough; one more shows the panic on none.
  unfoldable pub new : List (List ℕ) → Total MerkleTree
  unfolding build
  new leaves = do
    root ← build (suc (length leaves)) leaves 0 (length leaves)
    ok (record { root = root; leaves = leaves })
