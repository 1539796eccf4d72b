-- ===== src/Ledger/Store.antt =====
-- bhwi/src/ledger/store.rs: what the client keeps to answer a Ledger's requests for data. A method that
-- changes the store returns the new store with its result; on an error the store is as it was.
pub mod Queue
pub mod Invariant
pub mod Answers
pub mod Safety
pub mod Known
pub mod Growth
use bhwi.Prelude.{
  ℕ, zero, suc, ◌+◌, ◌-◌, ◌%◌, ◌≡◌, Bool, true, false, not, ◌||◌, List, [], ◌∷◌, ◌++◌, map, Option,
  none, some, ltb, leb, ◌==◌, if◌then◌else◌, bytes_eq, length, take, drop, get_elem?, Outcome, ok,
  err, panic, diverge, ◌>>=◌, ◌>>◌, ensure, check, ok_or, unwrap,
}
use bhwi.Ledger.Apdu
use bhwi.Ledger.Apdu.{ClientCommandCode, client_code, client_code_of}
use bhwi.Ledger.Merkle
use bhwi.Ledger.Merkle.{Total, MerkleTree}
use bhwi.Ledger.Consensus.{Consensus}

pub data StoreError : Type 0 where
  empty_input invalid_index_or_size unknown_hash unknown_merkle_root unexpected_queue : StoreError
  unknown_command unsupported_request : ℕ → StoreError

pub record DelegatedStore : Type 0 where
  pub yielded : List (List ℕ)
  pub queue : List (List ℕ)
  pub known_preimages : List (List ℕ × List ℕ)
  pub trees : List MerkleTree

abbrev pub empty : DelegatedStore
empty = record { yielded = []; queue = []; known_preimages = []; trees = [] }

abbrev pub lift {ℓ} : {A : Type ℓ} → Total A → Outcome StoreError A
lift (ok a) = ok a
lift (err e) = absurd e
lift panic = panic
lift diverge = diverge

-- `known_preimages.iter().find(|(hash, _)| hash == wanted)`.
unfoldable pub find_preimage : List (List ℕ × List ℕ) → List ℕ → Option (List ℕ)
find_preimage [] wanted = none
find_preimage ((hash, preimage) ∷ rest) wanted =
    let later = find_preimage rest wanted in if bytes_eq hash wanted then some preimage else later

-- `trees.iter().find(|tree| tree.root_hash() == root)`.
unfoldable pub find_tree : List MerkleTree → List ℕ → Outcome StoreError (Option MerkleTree)
find_tree [] root = ok none
find_tree (tree ∷ rest) root = do
  hash ← lift (Merkle.root_hash tree)
  let later = find_tree rest root
  if bytes_eq hash root then ok (some tree) else later

-- One element of the queue for each byte.
abbrev pub singles : List ℕ → List (List ℕ)
singles [] = []
singles (b ∷ bs) = (b ∷ []) ∷ singles bs

-- `queue.iter().any(|e| e.len() != element_length)`.
unfoldable pub any_other_length : ℕ → List (List ℕ) → Bool
any_other_length n [] = false
any_other_length n (e ∷ es) = not (length e == n) || any_other_length n es

-- The loop of `get_more_elements`: what the response has so far, and the number of elements in it.
unfoldable pub collect : ℕ → List (List ℕ) → List ℕ → ℕ → List ℕ × ℕ
collect n [] response added = (response, added)
collect n (e ∷ es) response added =
    let fits = leb (length response + n) 253 in
    collect n es (if fits then response ++ e else response) (if fits then added + 1 else added)

unfoldable pub more_elements :
    DelegatedStore → List (List ℕ) → Outcome StoreError (DelegatedStore × List ℕ)
more_elements s [] = err unexpected_queue
more_elements s (e ∷ es) = do
  let n = length e
  ensure (not (any_other_length n (e ∷ es))) unexpected_queue
  let (response, added) = collect n (e ∷ es) [] 0
  ok (record s { queue = drop added (e ∷ es) }, (added % 256) ∷ (n % 256) ∷ response)

unfoldable pub get_more_elements : DelegatedStore → Outcome StoreError (DelegatedStore × List ℕ)
unfolding more_elements
get_more_elements s = more_elements s s.queue

-- The loop of `get_merkle_leaf_proof`: the first six elements go into the response, which is counted,
-- the others to the queue.
unfoldable pub part_proof :
    ℕ → List (List ℕ) → List ℕ → ℕ → List (List ℕ) → List ℕ × ℕ × List (List ℕ)
part_proof i [] first n queue = (first, n, queue)
part_proof i (p ∷ ps) first n queue =
    let here = ltb i 6 in
    part_proof (i + 1) ps (if here then first ++ p else first) (if here then n + 1 else n)
      (if here then queue else queue ++ (p ∷ []))

-- Each slice and each index stands behind a `check` of its bounds, as the code would panic there; so does
-- `255 - preimage_len_out.len() - 1`, which must not underflow.
module _ (c : Consensus) where
  unfoldable pub get_preimage :
      DelegatedStore → List ℕ → Outcome StoreError (DelegatedStore × List ℕ)
  unfolding find_preimage
  get_preimage s request = do
    let unsupported : StoreError = unsupported_request (client_code Apdu.get_preimage)
    ensure (length request == 33) unsupported
    first ← unwrap (get_elem? request 0)
    ensure (first == 0) unsupported
    check (leb 1 (length request))
    preimage ← ok_or (find_preimage s.known_preimages (drop 1 request)) unknown_hash
    let preimage_len_out = c.serialize (length preimage)
    check (leb (length preimage_len_out + 1) 255)
    let max_payload_size = 255 - length preimage_len_out - 1
    let payload_size =
        if ltb max_payload_size (length preimage) then max_payload_size else length preimage
    let queue' =
        if ltb payload_size (length preimage)
        then s.queue ++ singles (drop payload_size preimage)
        else s.queue
    check (leb payload_size (length preimage))
    ok (
      record s { queue = queue' },
      preimage_len_out ++ ((payload_size % 256) ∷ take payload_size preimage),
    )

  unfoldable pub get_merkle_leaf_proof :
      DelegatedStore → List ℕ → Outcome StoreError (DelegatedStore × List ℕ)
  unfolding find_tree part_proof
  get_merkle_leaf_proof s request = do
    let unsupported : StoreError = unsupported_request (client_code Apdu.get_merkle_leaf_proof)
    ensure (length s.queue == 0) unexpected_queue
    ensure (leb 34 (length request)) unsupported
    check (leb 32 (length request))
    let root = take 32 request
    (tree_size, read) ← ok_or (c.deserialize_partial (drop 32 request)) unsupported
    check (leb (32 + read) (length request))
    leaf_index ← ok_or (c.deserialize (drop read (drop 32 request))) unsupported
    tree? ← find_tree s.trees root
    tree ← ok_or tree? unknown_hash
    ensure (not (leb tree_size leaf_index || not (tree_size == Merkle.size tree)))
        invalid_index_or_size
    proof? ← lift (Merkle.get_leaf_proof tree leaf_index)
    proof ← ok_or proof? invalid_index_or_size
    let (first, n, queue') = part_proof 0 proof [] 0 s.queue
    leaf ← unwrap (Merkle.get_leaf tree leaf_index)
    ok (record s { queue = queue' }, leaf ++ ((length proof % 256) ∷ (n % 256) ∷ first))

  unfoldable pub get_merkle_leaf_index : DelegatedStore → List ℕ → Outcome StoreError (List ℕ)
  unfolding find_tree
  get_merkle_leaf_index s request = do
    ensure (leb 64 (length request)) (unsupported_request (client_code Apdu.get_merkle_leaf_index))
    check (leb 64 (length request))
    tree? ← find_tree s.trees (take 32 request)
    tree ← ok_or tree? unknown_hash
    leaf_index ← ok_or (Merkle.get_leaf_index tree (take 32 (drop 32 request))) unknown_hash
    ok (1 ∷ c.serialize leaf_index)

  -- The `match` on the command's code.
  unfoldable pub dispatch :
      DelegatedStore
      → ℕ
      → List ℕ
      → Option ClientCommandCode
      → Outcome StoreError (DelegatedStore × List ℕ)
  unfolding get_preimage get_merkle_leaf_proof get_merkle_leaf_index get_more_elements
  dispatch s code request (some Apdu.yield) =
      ok (record s { yielded = s.yielded ++ (request ∷ []) }, [])
  dispatch s code request (some Apdu.get_preimage) = get_preimage s request
  dispatch s code request (some Apdu.get_merkle_leaf_proof) = get_merkle_leaf_proof s request
  dispatch s code request (some Apdu.get_merkle_leaf_index) = do
    response ← get_merkle_leaf_index s request
    ok (s, response)
  dispatch s code request (some Apdu.get_more_elements) = get_more_elements s
  dispatch s code request none = err (unknown_command code)

  unfoldable pub execute : DelegatedStore → List ℕ → Outcome StoreError (DelegatedStore × List ℕ)
  unfolding client_code_of dispatch
  execute s [] = err empty_input
  execute s (code ∷ request) = dispatch s code request (client_code_of code)

module _ (sha256 : List ℕ → List ℕ) where
  unfoldable pub add_known_preimage : DelegatedStore → List ℕ → DelegatedStore
  add_known_preimage s element = record s {
    known_preimages = s.known_preimages ++ ((sha256 element, element) ∷ []);
  }

  -- The loop of `add_known_list`: the store and the hashes of the leaves.
  unfoldable pub add_leaves :
      DelegatedStore → List (List ℕ) → List (List ℕ) → DelegatedStore × List (List ℕ)
  unfolding add_known_preimage
  add_leaves s [] leaves = (s, leaves)
  add_leaves s (element ∷ rest) leaves =
      add_leaves (add_known_preimage s (0 ∷ element)) rest (leaves ++ (sha256 (0 ∷ element) ∷ []))

  unfoldable pub add_known_list : DelegatedStore → List (List ℕ) → Total (DelegatedStore × List ℕ)
  unfolding add_leaves
  add_known_list s elements = do
    let (s', leaves) = add_leaves s elements []
    tree ← Merkle.new sha256 leaves
    root_hash ← Merkle.root_hash tree
    ok (record s' { trees = s'.trees ++ (tree ∷ []) }, root_hash)
