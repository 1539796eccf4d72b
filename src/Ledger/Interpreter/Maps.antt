-- ===== src/Ledger/Interpreter/Maps.antt =====
-- bhwi/src/ledger/mod.rs: the maps of a PSBT, which a store can answer for.
use bhwi.Prelude.{
  ℕ, suc, ◌≤◌, ◌≡◌, refl, ap, arith, List, [], ◌∷◌, ◌++◌, length, All, ok, length-append,
}
use bhwi.Ledger.Consensus.{Consensus}
use bhwi.Ledger.Store.{DelegatedStore}
use bhwi.Ledger.Store.Invariant.{IsSound}
use bhwi.Ledger.Store.Growth.{Grows, Grows-refl, Grows-trans}
use bhwi.Ledger.Maps.{Pairs}
use bhwi.Ledger.Maps.Known.{CanAnswerMapping, Grows-CanAnswerMapping, add_known_mapping_lem}
use bhwi.Ledger.Psbt.{
  PsbtCrate, Input, Output, TxIn, TxOut, Psbt, RawPair, get_v2_global_pairs, get_v2_input_pairs,
  get_v2_output_pairs, deserialize_pair,
}
use bhwi.Ledger.Interpreter.{
  LedgerCrates, pairs_of, input_maps, output_maps, commitments, add_mappings,
}

-- At least as long as what it ends with.
longer : {A : Type 0} (xs ys : List A) → 1 ≤ length ys → 1 ≤ length (xs ++ ys)
longer xs ys h = omega (arith, length-append xs ys)

module _ {c : Consensus} (k : PsbtCrate c) where
  global_pairs_some : (psbt : Psbt k) → 1 ≤ length (get_v2_global_pairs k psbt)
  unfolding get_v2_global_pairs
  global_pairs_some psbt = grind (arith, length-append)

  input_pairs_some : (input : Input k) (txin : TxIn) → 1 ≤ length (get_v2_input_pairs k input txin)
  unfolding get_v2_input_pairs
  input_pairs_some input txin = grind (arith, length-append)

  output_pairs_some :
      (output : Output) (txout : TxOut) → 1 ≤ length (get_v2_output_pairs k output txout)
  unfolding get_v2_output_pairs
  output_pairs_some output txout = grind (arith, length-append)

module _ (k : LedgerCrates) where
  -- The key of a pair with its type, and the value.
  abbrev pub read_pairs : List RawPair → Pairs
  read_pairs [] = []
  read_pairs (pair ∷ rest) = (pair.type_value ∷ pair.key, pair.value) ∷ read_pairs rest

  pub pairs_of_eq : (pairs : List RawPair) → pairs_of k pairs ≡ ok (read_pairs pairs)
  unfolding pairs_of deserialize_pair
  pairs_of_eq [] = refl
  pairs_of_eq (pair ∷ rest) =
      rw (k.psbt.vec_of_serialized (pair.type_value ∷ pair.key), pairs_of_eq rest) refl

  length-read_pairs : (pairs : List RawPair) → length (read_pairs pairs) ≡ length pairs
  length-read_pairs [] = refl
  length-read_pairs (pair ∷ rest) = ap suc (length-read_pairs rest)

  pub global_map_some :
      (psbt : Psbt k.psbt) → 1 ≤ length (read_pairs (get_v2_global_pairs k.psbt psbt))
  global_map_some psbt =
      omega
        (arith, length-read_pairs (get_v2_global_pairs k.psbt psbt), global_pairs_some k.psbt psbt)

  abbrev pub read_inputs : List (Input k.psbt) → List TxIn → List Pairs
  read_inputs (input ∷ inputs) (txin ∷ txins) =
      read_pairs (get_v2_input_pairs k.psbt input txin) ∷ read_inputs inputs txins
  read_inputs _ _ = []

  abbrev pub read_outputs : List Output → List TxOut → List Pairs
  read_outputs (output ∷ outputs) (txout ∷ txouts) =
      read_pairs (get_v2_output_pairs k.psbt output txout) ∷ read_outputs outputs txouts
  read_outputs _ _ = []

  abbrev pub SomePairs : List Pairs → Type 0
  SomePairs maps = All (λ mapping. 1 ≤ length mapping) maps

  pub input_maps_eq :
      (inputs : List (Input k.psbt)) (txins : List TxIn)
      → length inputs ≡ length txins
      → (input_maps k inputs txins ≡ ok (read_inputs inputs txins))
        × SomePairs (read_inputs inputs txins)
        × (length (read_inputs inputs txins) ≡ length inputs)
  unfolding input_maps
  input_maps_eq [] [] h = (refl, tt, refl)
  input_maps_eq [] (txin ∷ txins) h = absurd (omega arith)
  input_maps_eq (input ∷ inputs) [] h = absurd (omega arith)
  input_maps_eq (input ∷ inputs) (txin ∷ txins) h =
      let pairs = get_v2_input_pairs k.psbt input txin in
      let (rest, others, n) = input_maps_eq inputs txins (omega arith) in
      (
        rw (pairs_of_eq pairs, rest) refl,
        (omega (arith, length-read_pairs pairs, input_pairs_some k.psbt input txin), others),
        ap suc n,
      )

  pub output_maps_eq :
      (outputs : List Output) (txouts : List TxOut)
      → length outputs ≡ length txouts
      → (output_maps k outputs txouts ≡ ok (read_outputs outputs txouts))
        × SomePairs (read_outputs outputs txouts)
        × (length (read_outputs outputs txouts) ≡ length outputs)
  unfolding output_maps
  output_maps_eq [] [] h = (refl, tt, refl)
  output_maps_eq [] (txout ∷ txouts) h = absurd (omega arith)
  output_maps_eq (output ∷ outputs) [] h = absurd (omega arith)
  output_maps_eq (output ∷ outputs) (txout ∷ txouts) h =
      let pairs = get_v2_output_pairs k.psbt output txout in
      let (rest, others, n) = output_maps_eq outputs txouts (omega arith) in
      (
        rw (pairs_of_eq pairs, rest) refl,
        (omega (arith, length-read_pairs pairs, output_pairs_some k.psbt output txout), others),
        ap suc n,
      )

  -- The commitment is to this mapping, and the store can answer for what it commits to.
  pub record Committed (s : DelegatedStore) (mapping : Pairs) (commitment : List ℕ) : Type 0 where
    pub keys_root : List ℕ
    pub values_root : List ℕ
    pub commitment_eq :
        commitment ≡ k.wallet.consensus.serialize (length mapping) ++ (keys_root ++ values_root)
    pub can_answer : CanAnswerMapping k.wallet.sha256 s mapping keys_root values_root

  pub Grows-Committed :
      {s s' : DelegatedStore} (mapping : Pairs) (commitment : List ℕ)
      → Grows s s'
      → Committed s mapping commitment
      → Committed s' mapping commitment
  Grows-Committed mapping commitment g h = record {
    keys_root = h.keys_root;
    values_root = h.values_root;
    commitment_eq = h.commitment_eq;
    can_answer =
        Grows-CanAnswerMapping k.wallet.sha256 mapping h.keys_root h.values_root g h.can_answer;
  }

  -- One commitment for each of the mappings.
  abbrev pub AllCommitted : DelegatedStore → List Pairs → List (List ℕ) → Type 0
  AllCommitted s [] [] = Unit {0}
  AllCommitted s (mapping ∷ maps) (commitment ∷ cs) =
      Committed s mapping commitment × AllCommitted s maps cs
  AllCommitted s _ _ = ⊥

  pub Grows-AllCommitted :
      {s s' : DelegatedStore} (maps : List Pairs) (cs : List (List ℕ))
      → Grows s s'
      → AllCommitted s maps cs
      → AllCommitted s' maps cs
  Grows-AllCommitted [] [] g h = tt
  Grows-AllCommitted [] (x ∷ cs) g h = absurd h
  Grows-AllCommitted (m ∷ maps) [] g h = absurd h
  Grows-AllCommitted (m ∷ maps) (x ∷ cs) g (h, hs) =
      (Grows-Committed m x g h, Grows-AllCommitted maps cs g hs)

  pub add_mappings_lem :
      (s : DelegatedStore) (maps : List Pairs)
      → IsSound k.wallet.sha256 s
      → SomePairs maps
      → (s' : DelegatedStore) × (cs : List (List ℕ)) × (commitments k maps ≡ ok cs)
        × (length cs ≡ length maps)
        × (add_mappings k s maps ≡ ok s')
        × IsSound k.wallet.sha256 s'
        × Grows s s'
        × AllCommitted s' maps cs
  unfolding commitments add_mappings
  add_mappings_lem s [] sound h = (s, [], refl, refl, refl, sound, Grows-refl s, tt)
  add_mappings_lem s (mapping ∷ maps) sound (h, hs) =
      let (s₁, kr, vr, added, committed, sound₁, grows₁, answer) =
        add_known_mapping_lem k.wallet.sha256 k.wallet.consensus s mapping sound h in
      let (s₂, cs, committed₂, n, added₂, sound₂, grows₂, all) =
        add_mappings_lem s₁ maps sound₁ hs in
      let commitment = k.wallet.consensus.serialize (length mapping) ++ (kr ++ vr) in
      let first : Committed s₁ mapping commitment = record {
        keys_root = kr;
        values_root = vr;
        commitment_eq = refl;
        can_answer = answer;
      } in
      (
        s₂,
        commitment ∷ cs,
        rw (committed, committed₂) refl,
        ap suc n,
        rw (added, added₂) refl,
        sound₂,
        Grows-trans grows₁ grows₂,
        (Grows-Committed mapping commitment grows₂ first, all),
      )
