-- ===== src/Tests/LedgerInterpreter.antt =====
-- The theorems on the Ledger's policies, maps and interpreter at concrete inputs.
use bhwi.Prelude.{
  ℕ, ◌≤◌, take, drop, replicate, ◌≡◌, refl, ◌⊎◌, arith, false, List, [], ◌∷◌, ◌++◌, none, some, ok,
  err, Returns, panic,
}
use bhwi.Prelude.Slices.{chunks, concat}
use bhwi.Policy.{single, extract_parts, format_key_info}
use bhwi.Policy.Parts.{Group, extract_parts_lem}
use bhwi.Ledger.Apdu
use bhwi.Ledger.Apdu.{ApduCommand, ApduResponse, response_of, status_of}
use bhwi.Ledger.Command
use bhwi.Ledger.Store.{DelegatedStore, empty, find_preimage}
use bhwi.Ledger.Store.Invariant.{IsSound}
use bhwi.Ledger.Store.Growth.{Grows, CanAnswer, empty-IsSound}
use bhwi.Ledger.Maps.{Pairs, add_known_mapping, get_merkleized_map_commitment}
use bhwi.Ledger.Maps.Known.{CanAnswerMapping, add_known_mapping_lem}
use bhwi.Ledger.Wallet.{LedgerWalletPolicy, v2, wallet_policy, serialize}
use bhwi.Ledger.Psbt.{Psbt, Input, Output, get_v2_global_pairs}
use bhwi.Ledger.Interpreter.{
  LedgerCommand, State, sign_message, sign_psbt, get_xpub, running, start, wallet_error,
}
use bhwi.Ledger.Interpreter.Exchange.{exchange}
use bhwi.Ledger.Interpreter.Interrupts.{command_running, Ended, exchange-Ended}
use bhwi.Ledger.Interpreter.Streams.{asking, Streams, exchange-Streams}
use bhwi.Ledger.Interpreter.Safety.{Sound}
use bhwi.Ledger.Interpreter.Invariant.{exchange-Sound}
use bhwi.Ledger.Interpreter.Maps.{read_pairs, read_inputs, read_outputs}
use bhwi.Ledger.Interpreter.Starts.{
  MapsStart, start_sign_psbt_lem, start_sign_message_lem, start_empty_message_panics,
}
use bhwi.Ledger.Interpreter.Session.{SessionReturns, session-Returns}
use bhwi.Tests.Primitives.{toy_sha256}
use bhwi.Tests.Varint.{varints}
use bhwi.Tests.Policies.{miniscript, psbt_crate, ledger, keys_in}

abbrev policy : List (List ℕ)
policy = (1 ∷ []) ∷ (1 ∷ []) ∷ (2 ∷ []) ∷ []

abbrev twice : Group miniscript
twice = record { first = single (1 ∷ []); others = single (1 ∷ []) ∷ []; same = (refl, tt) }

abbrev once : Group miniscript
once = record { first = single (2 ∷ []); others = []; same = tt }

extract_parts_lem_example :
    extract_parts miniscript policy ≡ ok (3 ∷ [], single (1 ∷ []) ∷ single (2 ∷ []) ∷ [])
extract_parts_lem_example =
    extract_parts_lem miniscript policy (twice ∷ once ∷ []) (unfold keys_in in refl)
      (unfold format_key_info in refl, tt)

abbrev named : LedgerWalletPolicy miniscript
named = record { name = 65 ∷ []; version = v2; policy = policy }

abbrev mapping : Pairs
mapping = (2 ∷ [], 7 ∷ []) ∷ (1 ∷ [], 9 ∷ []) ∷ []

add_known_mapping_lem_example :
    (s' : DelegatedStore) × (keys_root values_root : List ℕ) × (add_known_mapping toy_sha256 empty
        mapping
      ≡ ok s')
    × (get_merkleized_map_commitment toy_sha256 varints mapping
        ≡ ok (varints.serialize 2 ++ (keys_root ++ values_root)))
    × IsSound toy_sha256 s'
    × Grows empty s'
    × CanAnswerMapping toy_sha256 s' mapping keys_root values_root
add_known_mapping_lem_example =
    add_known_mapping_lem toy_sha256 varints empty mapping (empty-IsSound toy_sha256) (omega arith)

abbrev message : List ℕ
message = 104 ∷ 105 ∷ []

abbrev signing_hi : LedgerCommand ledger
signing_hi = sign_message message (44 ∷ [])

start_sign_message_lem_example :
    (s : DelegatedStore) × (root : List ℕ) × (start ledger signing_hi
      ≡ ok (running signing_hi (some s), Command.sign_message varints 2 root (44 ∷ [])))
    × IsSound toy_sha256 s
    × CanAnswer toy_sha256 s (chunks 63 message) root
    × (concat (chunks 63 message) ≡ message)
start_sign_message_lem_example = start_sign_message_lem ledger message (44 ∷ []) (omega arith)

start_empty_message_panics_example : start ledger (sign_message [] (44 ∷ [])) ≡ panic
start_empty_message_panics_example = start_empty_message_panics ledger (44 ∷ [])

-- A yield, with the status word of an interruption.
abbrev yielding : List ℕ
yielding = 0x10 ∷ 7 ∷ 0xE0 ∷ 0x00 ∷ []

abbrev digest : List ℕ
digest = replicate 32 5

-- A store with a preimage that takes several responses.
abbrev knowing : DelegatedStore
knowing = record empty { known_preimages = (digest, replicate 300 8) ∷ [] }

exchange-Streams_example :
    (s' : State ledger) × (n : ℕ) × (exchange ledger
        (running signing_hi (some knowing))
        (asking (0x40 ∷ 0 ∷ digest))
      ≡ (
        s',
        ok (
            some (
              Command.continue_interrupted
                (varints.serialize 300 ++ (n ∷ take n (replicate 300 8))))),
      ))
    × (n ≤ 300)
    × Streams ledger s' (drop n (replicate 300 8))
exchange-Streams_example =
    exchange-Streams ledger (running signing_hi) knowing digest (replicate 300 8)
      (command_running signing_hi) refl refl (unfold find_preimage in refl)

exchange-Sound_example :
    Sound ledger (exchange ledger (running signing_hi (some empty)) yielding).0
    × Returns (exchange ledger (running signing_hi (some empty)) yielding).1
exchange-Sound_example =
    exchange-Sound ledger (running signing_hi (some empty)) yielding (empty-IsSound toy_sha256)
      (omega arith)

session-Returns_example : SessionReturns ledger (start ledger signing_hi) (yielding ∷ yielding ∷ [])
session-Returns_example =
    session-Returns ledger signing_hi (yielding ∷ yielding ∷ []) (omega arith)
      (omega arith, (omega arith, tt))

-- NotSupported, and a key.
abbrev unsupported : List ℕ
unsupported = 0x6A ∷ 0x82 ∷ []

abbrev key_response : List ℕ
key_response = 120 ∷ 0x90 ∷ 0x00 ∷ []

exchange-Ended_example :
    ((sent : ApduCommand) × (start ledger (get_xpub (44 ∷ []) false)
        ≡ ok (running (get_xpub (44 ∷ []) false) none, sent)))
    × (Ended ledger (exchange ledger (running (get_xpub (44 ∷ []) false) none) unsupported)
        ⊎ Ended ledger (
            exchange ledger
              (exchange ledger (running (get_xpub (44 ∷ []) false) none) unsupported).0
              key_response))
exchange-Ended_example =
    exchange-Ended ledger (get_xpub (44 ∷ []) false) unsupported key_response
      (record { payload = []; status_word = Apdu.not_supported })
      (record { payload = 120 ∷ []; status_word = Apdu.success }) tt
      (unfold response_of status_of in refl) (unfold response_of status_of in refl)

abbrev input : Input psbt_crate
input = record {
  non_witness_utxo = none;
  witness_utxo = some (5 ∷ []);
  partial_sigs = [];
  sighash_type = none;
  redeem_script = none;
  witness_script = none;
  bip32_derivation = (3 ∷ [], 4 ∷ []) ∷ [];
  final_script_sig = none;
  final_script_witness = none;
  ripemd160_preimages = [];
  sha256_preimages = [];
  hash160_preimages = [];
  hash256_preimages = [];
  tap_key_sig = none;
  tap_script_sigs = [];
  tap_scripts = [];
  tap_key_origins = [];
  tap_internal_key = none;
  tap_merkle_root = none;
  proprietary = [];
  unknown = [];
}

abbrev output : Output
output = record {
  redeem_script = none;
  witness_script = none;
  bip32_derivation = [];
  tap_internal_key = none;
  tap_tree = none;
  tap_key_origins = [];
  proprietary = [];
  unknown = [];
}

abbrev psbt : Psbt psbt_crate
psbt = record {
  unsigned_tx = record {
    version = 2;
    lock_time = 0 ∷ 0 ∷ 0 ∷ 0 ∷ [];
    tx_inputs = record { txid = 1 ∷ []; vout = 0; sequence = 255 ∷ [] } ∷ [];
    tx_outputs = record { amount = 1000; script_pubkey = 81 ∷ [] } ∷ [];
  };
  xpub = [];
  proprietary = [];
  unknown = [];
  inputs = input ∷ [];
  outputs = output ∷ [];
}

start_sign_psbt_lem_example :
    ((e : Unit {0}) × (keys_in policy ≡ err e)
      × (start ledger (sign_psbt psbt named none) ≡ err (wallet_error (wallet_policy e))))
    ⊎ ((s : DelegatedStore) × (sent : ApduCommand) × (start ledger (sign_psbt psbt named none)
          ≡ ok (running (sign_psbt psbt named none) (some s), sent))
        × MapsStart ledger named none
            (read_pairs ledger (get_v2_global_pairs psbt_crate psbt))
            (read_inputs ledger psbt.inputs psbt.unsigned_tx.tx_inputs)
            (read_outputs ledger psbt.outputs psbt.unsigned_tx.tx_outputs)
            1
            1
            s
            sent)
start_sign_psbt_lem_example =
    start_sign_psbt_lem ledger psbt named none refl refl (omega arith) (omega arith)
