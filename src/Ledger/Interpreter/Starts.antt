-- ===== src/Ledger/Interpreter/Starts.antt =====
-- bhwi/src/ledger/mod.rs, `start`: the store of a command can answer for what the command says.
use bhwi.Prelude.{
  ℕ, ◌≤◌, ◌≡◌, refl, ◌⊎◌, inl, inr, arith, List, [], ◌++◌, Option, some, length, ok, err, panic,
  ◌==◌, true,
}
use bhwi.Prelude.Slices.{chunks, concat, concat-chunks, chunks_some, chunks_nil}
use bhwi.Ledger.Apdu.{ApduCommand}
use bhwi.Ledger.Command
use bhwi.Ledger.Store.{DelegatedStore, empty}
use bhwi.Ledger.Store.Invariant.{IsSound}
use bhwi.Ledger.Store.Known.{add_known_list_empty}
use bhwi.Ledger.Store.Growth.{
  Grows-trans, CanAnswer, Grows-CanAnswer, add_known_list-Grows, empty-IsSound,
}
use bhwi.Ledger.Maps.Known.{add_known_mapping_lem}
use bhwi.Ledger.Wallet.{wallet_policy, LedgerWalletPolicy}
use bhwi.Ledger.Wallet.Known.{PolicyStore, to_store_lem, Grows-PolicyStore}
use bhwi.Ledger.Psbt.{Psbt, get_v2_global_pairs}
use bhwi.Ledger.Interpreter.{
  LedgerCrates, wallet_error, sign_message, sign_psbt, running, start_maps, start_sign_psbt, start,
}
use bhwi.Ledger.Interpreter.Maps.{
  read_pairs, pairs_of_eq, global_map_some, read_inputs, read_outputs, input_maps_eq,
  output_maps_eq, Committed, AllCommitted, Grows-Committed, Grows-AllCommitted, SomePairs,
  add_mappings_lem,
}
use bhwi.Ledger.Maps.{Pairs}

counts : (a b : ℕ) → a ≡ b → (a == b) ≡ true
counts a b h = ground arith

module _ (k : LedgerCrates) where
  -- The command to sign names what the store can answer for: the policy by its identifier, a commitment
  -- to the global map, and the roots of the commitments to the maps of the inputs and of the outputs.
  pub record MapsStart (policy : LedgerWalletPolicy k.wallet.miniscript) (hmac : Option (List ℕ))
      (global_map : Pairs) (inputs outputs : List Pairs) (inputs_number outputs_number : ℕ)
      (s : DelegatedStore) (sent : ApduCommand) : Type 0 where
    pub bytes : List ℕ
    pub global_commitment : List ℕ
    pub input_commitments : List (List ℕ)
    pub output_commitments : List (List ℕ)
    pub inputs_root : List ℕ
    pub outputs_root : List ℕ
    pub sent_eq :
        sent
        ≡ Command.sign_psbt k.wallet.consensus global_commitment inputs_number inputs_root
            outputs_number outputs_root
            (k.wallet.sha256 bytes)
            hmac
    pub policy_known : PolicyStore k.wallet policy s bytes
    pub global_known : Committed k s global_map global_commitment
    pub inputs_known : AllCommitted k s inputs input_commitments
    pub outputs_known : AllCommitted k s outputs output_commitments
    pub inputs_root_known : CanAnswer k.wallet.sha256 s input_commitments inputs_root
    pub outputs_root_known : CanAnswer k.wallet.sha256 s output_commitments outputs_root

  start_maps_lem :
      (policy : LedgerWalletPolicy k.wallet.miniscript) (hmac : Option (List ℕ))
      (global_map : Pairs) (inputs outputs : List Pairs) (i_n o_n : ℕ)
      → 1 ≤ length global_map
      → SomePairs k inputs
      → SomePairs k outputs
      → 1 ≤ length inputs
      → 1 ≤ length outputs
      → ((e : k.wallet.miniscript.WalletPolicyError) × (k.wallet.miniscript.descriptor_keys
              policy.policy
            ≡ err e)
          × (start_maps k policy hmac global_map inputs outputs i_n o_n
              ≡ err (wallet_error (wallet_policy e))))
        ⊎ ((s : DelegatedStore) × (sent : ApduCommand) × (start_maps k policy hmac global_map inputs
                outputs i_n o_n
              ≡ ok (s, sent))
            × MapsStart policy hmac global_map inputs outputs i_n o_n s sent)
  unfolding start_maps
  start_maps_lem policy hmac global_map inputs outputs i_n o_n hg hi ho nin nout =
      let w = k.wallet in
      let sha = w.sha256 in
      elim (to_store_lem w policy) [
        | inl (e, undescribed, _, _, failed) ↦
            let none_yet = empty-IsSound sha in
            let (_, gk, gv, _, committed, _, _, _) =
              add_known_mapping_lem sha w.consensus empty global_map none_yet hg in
            let (_, _, ci, _, _, _, _, _) = add_mappings_lem k empty inputs none_yet hi in
            let (_, _, co, _, _, _, _, _) = add_mappings_lem k empty outputs none_yet ho in
            inl (e, undescribed, rw (committed, ci, co, failed) refl)
        | inr (bytes, s₀, _, identified, stored, known) ↦
            let (s₁, gk, gv, addg, cg, sound₁, g₁, answer) =
              add_known_mapping_lem sha w.consensus s₀ global_map known.sound hg in
            let (s₂, ics, ci, ni', addi, sound₂, g₂, all_i) =
              add_mappings_lem k s₁ inputs sound₁ hi in
            let (s₃, ocs, co, no', addo, sound₃, g₃, all_o) =
              add_mappings_lem k s₂ outputs sound₂ ho in
            let (s₄, ir, listi, sound₄, g₄, known_i) =
              add_known_list-Grows sha s₃ ics sound₃ (omega (arith, ni', nin)) in
            let (s₅, or, listo, sound₅, g₅, known_o) =
              add_known_list-Grows sha s₄ ocs sound₄ (omega (arith, no', nout)) in
            let g₃₅ = Grows-trans g₃ (Grows-trans g₄ g₅) in
            let g₂₅ = Grows-trans g₂ g₃₅ in
            let global = w.consensus.serialize (length global_map) ++ (gk ++ gv) in
            let committed : Committed k s₁ global_map global = record {
              keys_root = gk;
              values_root = gv;
              commitment_eq = refl;
              can_answer = answer;
            } in
            inr (
              s₅,
              Command.sign_psbt w.consensus global i_n ir o_n or (sha bytes) hmac,
              rw (cg, ci, co, stored, addg, addi, addo, listi, listo, identified) refl,
              record {
                bytes = bytes;
                global_commitment = global;
                input_commitments = ics;
                output_commitments = ocs;
                inputs_root = ir;
                outputs_root = or;
                sent_eq = refl;
                policy_known =
                    Grows-PolicyStore w policy s₀ s₅ bytes (Grows-trans g₁ g₂₅) sound₅ known;
                global_known = Grows-Committed k global_map global g₂₅ committed;
                inputs_known = Grows-AllCommitted k inputs ics g₃₅ all_i;
                outputs_known = Grows-AllCommitted k outputs ocs (Grows-trans g₄ g₅) all_o;
                inputs_root_known = Grows-CanAnswer sha ics ir g₅ known_i;
                outputs_root_known = known_o;
              },
            )
      ]

-- A PSBT with as many inputs and outputs as its transaction, one of each at least, starts to be signed,
-- or is refused with the error that the crate gives when it makes no descriptor of the policy; where it
-- makes one, the signature starts. The store that is kept is sound, and can answer for all that
-- the command names: the policy's bytes by the identifier, the policy's keys, the keys and values of
-- the global map and of each input's and output's map, and the two lists of commitments to these maps.
pub start_sign_psbt_lem :
    (k : LedgerCrates) (psbt : Psbt k.psbt) (policy : LedgerWalletPolicy k.wallet.miniscript)
    (hmac : Option (List ℕ))
    → length psbt.inputs ≡ length psbt.unsigned_tx.tx_inputs
    → length psbt.outputs ≡ length psbt.unsigned_tx.tx_outputs
    → 1 ≤ length psbt.inputs
    → 1 ≤ length psbt.outputs
    → ((e : k.wallet.miniscript.WalletPolicyError) × (k.wallet.miniscript.descriptor_keys
            policy.policy
          ≡ err e)
        × (start k (sign_psbt psbt policy hmac) ≡ err (wallet_error (wallet_policy e))))
      ⊎ ((s : DelegatedStore) × (sent : ApduCommand) × (start k (sign_psbt psbt policy hmac)
            ≡ ok (running (sign_psbt psbt policy hmac) (some s), sent))
          × MapsStart k policy hmac
              (read_pairs k (get_v2_global_pairs k.psbt psbt))
              (read_inputs k psbt.inputs psbt.unsigned_tx.tx_inputs)
              (read_outputs k psbt.outputs psbt.unsigned_tx.tx_outputs)
              (length psbt.inputs)
              (length psbt.outputs)
              s
              sent)
unfolding start start_sign_psbt
start_sign_psbt_lem k psbt policy hmac ei eo nin nout =
    let global = get_v2_global_pairs k.psbt psbt in
    let (mi, hi, li) = input_maps_eq k psbt.inputs psbt.unsigned_tx.tx_inputs ei in
    let (mo, ho, lo) = output_maps_eq k psbt.outputs psbt.unsigned_tx.tx_outputs eo in
    let started =
      start_maps_lem k policy hmac (read_pairs k global)
        (read_inputs k psbt.inputs psbt.unsigned_tx.tx_inputs)
        (read_outputs k psbt.outputs psbt.unsigned_tx.tx_outputs) (length psbt.inputs)
        (length psbt.outputs) (global_map_some k psbt) hi ho (omega (arith, li, nin))
        (omega (arith, lo, nout)) in
    elim started [
      | inl (e, undescribed, failed) ↦ inl (
        e,
        undescribed,
        rw (counts _ _ ei, counts _ _ eo, pairs_of_eq k global, mi, mo, failed) refl,
      )
      | inr (s, sent, made, known) ↦ inr (
        s,
        sent,
        rw (counts _ _ ei, counts _ _ eo, pairs_of_eq k global, mi, mo, made) refl,
        known,
      )
    ]

-- A message of at least one byte starts to be signed: the store that is kept is sound and can answer for
-- the pieces of at most 64 bytes into which the message is cut, by the root that the command names. The
-- pieces make up the message.
pub start_sign_message_lem :
    (k : LedgerCrates) (message path : List ℕ)
    → 1 ≤ length message
    → (s : DelegatedStore) × (root : List ℕ) × (start k (sign_message message path)
        ≡ ok (
          running (sign_message message path) (some s),
          Command.sign_message k.wallet.consensus (length message) root path,
        ))
      × IsSound k.wallet.sha256 s
      × CanAnswer k.wallet.sha256 s (chunks 63 message) root
      × (concat (chunks 63 message) ≡ message)
unfolding start
start_sign_message_lem k message path h =
    let sha = k.wallet.sha256 in
    let (s, root, added, sound, _, known) =
      add_known_list-Grows sha empty (chunks 63 message) (empty-IsSound sha)
        (chunks_some 63 message h) in
    (s, root, rw added refl, sound, known, concat-chunks 63 message)

-- The start of the signature of an empty message panics, whatever the path.
pub start_empty_message_panics :
    (k : LedgerCrates) (path : List ℕ) → start k (sign_message [] path) ≡ panic
unfolding start
start_empty_message_panics k path =
    rw (chunks_nil {A = ℕ} 63, add_known_list_empty k.wallet.sha256 empty) refl
