-- ===== src/Ledger/Store/Safety.antt =====
-- bhwi/src/ledger/store.rs: what a sound store does with any request.
use bhwi.Prelude.{
  ℕ, ◌+◌, ◌≤◌, length-drop, arith, List, [], ◌∷◌, Option, none, some, length, take, drop, Returns,
  Option-cases, inl, inr,
}
use native.Mathlib.Decide.{dec_lt}
use bhwi.Ledger.Apdu
use bhwi.Ledger.Apdu.{ClientCommandCode, client_code_of}
use bhwi.Ledger.Merkle.Proofs.{get_leaf_proof_outside}
use bhwi.Ledger.Consensus.{Consensus}
use bhwi.Ledger.Store.{
  DelegatedStore, find_preimage, more_elements, get_preimage, get_merkle_leaf_proof,
  get_merkle_leaf_index, dispatch, execute,
}
use bhwi.Ledger.Store.Invariant.{IsSound, find_tree_total, leaf_proof_total}

module _ (sha256 : List ℕ → List ℕ) (c : Consensus) (s : DelegatedStore)
    (sound : IsSound sha256 s) where
  get_preimage-Returns : (request : List ℕ) → Returns (get_preimage c s request)
  unfolding get_preimage
  get_preimage-Returns [] = ground arith
  get_preimage-Returns (first ∷ hash) = elim (Option-cases (find_preimage s.known_preimages hash)) [
    | inl unknown ↦ ground (arith, unknown)
    | inr (preimage, found) ↦
        let short = c.serialize_short (length preimage) in ground (arith, found, short)
  ]

  more_elements-Returns : (q : List (List ℕ)) → Returns (more_elements s q)
  unfolding more_elements
  more_elements-Returns [] = tt
  more_elements-Returns (e ∷ es) = ground arith

  get_merkle_leaf_index-Returns : (request : List ℕ) → Returns (get_merkle_leaf_index c s request)
  unfolding get_merkle_leaf_index
  get_merkle_leaf_index-Returns request =
      elim (find_tree_total sha256 s.trees (take 32 request) sound.built) [
        | inl missing ↦ ground arith
        | inr (m, found, _, _) ↦ ground (arith, found)
      ]

  get_merkle_leaf_proof-Returns : (request : List ℕ) → Returns (get_merkle_leaf_proof c s request)
  unfolding get_merkle_leaf_proof
  get_merkle_leaf_proof-Returns request =
      elim (Option-cases (c.deserialize_partial (drop 32 request))) [
        | inl bad ↦ ground (arith, bad)
        | inr ((tree_size, read), e) ↦
            let hr = c.deserialize_partial_bound (drop 32 request) tree_size read e in
            let bound : 34 ≤ length request → 32 + read ≤ length request =
              λ long. omega (arith, hr, length-drop 32 request) in
            elim (Option-cases (c.deserialize (drop read (drop 32 request)))) [
              | inl bad ↦ ground (arith, e, bound, bad)
              | inr (i, e') ↦ elim (find_tree_total sha256 s.trees (take 32 request) sound.built) [
                | inl missing ↦ ground (arith, e, e', bound, missing)
                | inr (m, found, built, _) ↦ elim (dec_lt i (length m.leaves)) [
                  | yes inside ↦
                      let (x, p, leaf, proof) = leaf_proof_total sha256 m i built inside in
                      ground (arith, found, e, e', bound, leaf, proof)
                  | no outside ↦
                      ground (arith, found, e, e', bound, get_leaf_proof_outside m i (omega arith))
                ]
              ]
            ]
      ]

  dispatch-Returns :
      (code : ℕ) (request : List ℕ) (command : Option ClientCommandCode)
      → Returns (dispatch c s code request command)
  unfolding dispatch
  dispatch-Returns code request (some Apdu.yield) = tt
  dispatch-Returns code request (some Apdu.get_preimage) = get_preimage-Returns request
  dispatch-Returns code request (some Apdu.get_merkle_leaf_proof) =
      get_merkle_leaf_proof-Returns request
  dispatch-Returns code request (some Apdu.get_merkle_leaf_index) =
      ground (arith, get_merkle_leaf_index-Returns request)
  dispatch-Returns code request (some Apdu.get_more_elements) = more_elements-Returns s.queue
  dispatch-Returns code request none = tt

-- On a sound store, with any queue, every request of the device is answered or refused with an error:
-- none panics or runs for ever.
pub execute-Returns :
    (sha256 : List ℕ → List ℕ) (c : Consensus) (s : DelegatedStore) (command : List ℕ)
    → IsSound sha256 s
    → Returns (execute c s command)
unfolding execute
execute-Returns sha256 c s [] sound = tt
execute-Returns sha256 c s (code ∷ request) sound =
    dispatch-Returns sha256 c s sound code request (client_code_of code)
