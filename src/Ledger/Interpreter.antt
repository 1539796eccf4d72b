-- ===== src/Ledger/Interpreter.antt =====
-- bhwi/src/ledger/mod.rs: the commands, the states of the interpreter, and how a command starts. The
-- messages of errors are left out.
pub mod Exchange
pub mod Convert
pub mod Maps
pub mod Starts
pub mod Session
pub mod Safety
pub mod Invariant
pub mod Interrupts
pub mod Streams
use bhwi.Prelude.{
  ℕ, ◌≤◌, ◌≡◌, zero, suc, ◌+◌, Bool, true, false, List, [], ◌∷◌, ◌++◌, map, Option, none, some,
  ◌==◌, if◌then◌else◌, length, Outcome, ok, err, ensure, map_err, ◌>>=◌, ◌>>◌,
}
use bhwi.Prelude.Slices.{chunks}
use bhwi.Policy.{Miniscript}
use bhwi.Common.{DisplayAddress, DeviceContext}
use bhwi.Ledger.Consensus.{Consensus}
use bhwi.Ledger.Apdu.{ApduCommand, ApduError}
use bhwi.Ledger.Command
use bhwi.Ledger.Command.{Network}
use bhwi.Ledger.Merkle.{infallible}
use bhwi.Ledger.Store.{DelegatedStore, StoreError, empty, add_known_list}
use bhwi.Ledger.Maps.{Pairs, add_known_mapping, get_merkleized_map_commitment}
use bhwi.Ledger.Wallet.{WalletCrates, WalletError, LedgerWalletPolicy}
use bhwi.Ledger.Wallet
use bhwi.Ledger.Psbt.{
  PsbtCrate, Input, Output, TxIn, TxOut, Psbt, RawPair, get_v2_global_pairs, get_v2_input_pairs,
  get_v2_output_pairs, deserialize_pair,
}

-- What the interpreter uses of other crates, and the context of a BitBox.
pub record LedgerCrates : Type 1 where
  pub wallet : WalletCrates
  pub psbt : PsbtCrate wallet.consensus
  pub Signature : Type 0
  pub from_compact : List ℕ → Option Signature
  -- `Xpub::from_str(&String::from_utf8_lossy(bytes))`
  pub xpub_of_lossy : List ℕ → Option wallet.miniscript.Xpub
  -- `deserialize_partial` of a `String` and of a `Vec<u8>`
  pub string_partial : List ℕ → Option (List ℕ × ℕ)
  pub bytes_partial : List ℕ → Option (List ℕ × ℕ)
  pub ManagementContext : Type 0
  -- They read no more than there is.
  pub string_partial_bound :
      (bytes text : List ℕ) (read : ℕ)
      → string_partial bytes ≡ some (text, read)
      → read ≤ length bytes

pub record GetAppInfoResponse : Type 0 where
  pub app_name : List ℕ
  pub version : List ℕ
  pub flags : List ℕ

module _ (k : LedgerCrates) where
  pub data LedgerError : Type 0 where
    missing_command_info no_error_or_result interrupted unsupported_display_address
          failed_to_open_app invalid_psbt :
        LedgerError
    apdu : ApduError → LedgerError
    store_error : StoreError → LedgerError
    wallet_error : WalletError k.wallet.miniscript → LedgerError
    unexpected_result : List ℕ → LedgerError

  abbrev pub Context : Type 0
  Context = Option (DeviceContext k.wallet.miniscript k.ManagementContext)

  pub data LedgerCommand : Type 0 where
    open_app : Network → LedgerCommand
    get_app_info get_master_fingerprint : LedgerCommand
    get_xpub : (path : List ℕ) (display : Bool) → LedgerCommand
    get_wallet_address :
        (address : DisplayAddress k.wallet.miniscript) (context : Context) → LedgerCommand
    sign_message : (message path : List ℕ) → LedgerCommand
    register_wallet : LedgerWalletPolicy k.wallet.miniscript → LedgerCommand
    sign_psbt :
        (psbt : Psbt k.psbt) (policy : LedgerWalletPolicy k.wallet.miniscript)
        (hmac : Option (List ℕ))
        → LedgerCommand

  pub data LedgerResponse : Type 0 where
    app_info : GetAppInfoResponse → LedgerResponse
    master_fingerprint : List ℕ → LedgerResponse
    signature : ℕ → k.Signature → LedgerResponse
    task_done : LedgerResponse
    xpub : k.wallet.miniscript.Xpub → LedgerResponse
    address : List ℕ → LedgerResponse
    wallet_hmac : List ℕ → LedgerResponse
    signed_psbt : Psbt k.psbt → LedgerResponse

  -- The steps of `GetWalletAddress` are states of their own.
  pub data State : Type 0 where
    new : State
    running : LedgerCommand → Option DelegatedStore → State
    fingerprint_step : DisplayAddress k.wallet.miniscript → Context → State
    xpub_step :
        (address : DisplayAddress k.wallet.miniscript) (fingerprint : List ℕ) (display : Bool)
        (context : Context)
        → State
    wallet_address_step : Option DelegatedStore → State
    finished : LedgerResponse → State

module _ (k : LedgerCrates) where
  abbrev pub Result {ℓ} : Type ℓ → Type ℓ
  Result A = Outcome (LedgerError k) A

  abbrev pub wallet_result {ℓ} :
      {A : Type ℓ} → Outcome (WalletError k.wallet.miniscript) A → Result A
  wallet_result call = map_err wallet_error call

  -- `deserialize_pair` for each pair.
  unfoldable pub pairs_of : List RawPair → Result Pairs
  pairs_of [] = ok []
  pairs_of (pair ∷ rest) = do
    first ← deserialize_pair k.psbt pair
    others ← pairs_of rest
    ok (first ∷ others)

  -- `zip` stops at the end of the shorter list.
  unfoldable pub input_maps : List (Input k.psbt) → List TxIn → Result (List Pairs)
  input_maps (input ∷ inputs) (txin ∷ txins) = do
    first ← pairs_of (get_v2_input_pairs k.psbt input txin)
    others ← input_maps inputs txins
    ok (first ∷ others)
  input_maps _ _ = ok []

  unfoldable pub output_maps : List Output → List TxOut → Result (List Pairs)
  output_maps (output ∷ outputs) (txout ∷ txouts) = do
    first ← pairs_of (get_v2_output_pairs k.psbt output txout)
    others ← output_maps outputs txouts
    ok (first ∷ others)
  output_maps _ _ = ok []

  unfoldable pub commitments : List Pairs → Result (List (List ℕ))
  commitments [] = ok []
  commitments (mapping ∷ rest) = do
    first ← infallible (get_merkleized_map_commitment k.wallet.sha256 k.wallet.consensus mapping)
    others ← commitments rest
    ok (first ∷ others)

  unfoldable pub add_mappings : DelegatedStore → List Pairs → Result DelegatedStore
  add_mappings s [] = ok s
  add_mappings s (mapping ∷ rest) = do
    s' ← infallible (add_known_mapping k.wallet.sha256 s mapping)
    add_mappings s' rest

  -- The part of `SignPsbt` after the maps have been made: the store and the command.
  unfoldable pub start_maps :
      LedgerWalletPolicy k.wallet.miniscript
      → Option (List ℕ)
      → Pairs
      → List Pairs
      → List Pairs
      → ℕ
      → ℕ
      → Result (DelegatedStore × ApduCommand)
  start_maps policy hmac global_map inputs outputs inputs_number outputs_number = do
    global_commitment ←
        infallible (get_merkleized_map_commitment k.wallet.sha256 k.wallet.consensus global_map)
    input_commitments ← commitments inputs
    output_commitments ← commitments outputs
    s₀ ← wallet_result (Wallet.to_store k.wallet policy)
    s₁ ← infallible (add_known_mapping k.wallet.sha256 s₀ global_map)
    s₂ ← add_mappings s₁ inputs
    s₃ ← add_mappings s₂ outputs
    (s₄, inputs_root) ← infallible (add_known_list k.wallet.sha256 s₃ input_commitments)
    (s₅, outputs_root) ← infallible (add_known_list k.wallet.sha256 s₄ output_commitments)
    id ← wallet_result (Wallet.id k.wallet policy)
    ok (
      s₅,
      Command.sign_psbt k.wallet.consensus global_commitment inputs_number inputs_root
          outputs_number outputs_root id hmac,
    )

  unfoldable pub start_sign_psbt :
      Psbt k.psbt
      → LedgerWalletPolicy k.wallet.miniscript
      → Option (List ℕ)
      → Result (State k × ApduCommand)
  start_sign_psbt psbt policy hmac = do
    ensure (length psbt.inputs == length psbt.unsigned_tx.tx_inputs) invalid_psbt
    ensure (length psbt.outputs == length psbt.unsigned_tx.tx_outputs) invalid_psbt
    global_map ← pairs_of (get_v2_global_pairs k.psbt psbt)
    inputs ← input_maps psbt.inputs psbt.unsigned_tx.tx_inputs
    outputs ← output_maps psbt.outputs psbt.unsigned_tx.tx_outputs
    (s, sent) ←
        start_maps policy hmac global_map inputs outputs (length psbt.inputs) (length psbt.outputs)
    ok (running (sign_psbt psbt policy hmac) (some s), sent)

  -- `start`, without the command's conversion: the state, which it sets when it returns `Ok`, and
  -- what is sent.
  unfoldable pub start : LedgerCommand k → Result (State k × ApduCommand)
  start get_app_info = ok (running get_app_info none, Command.get_version)
  start get_master_fingerprint =
      ok (running get_master_fingerprint none, Command.get_master_fingerprint)
  start (get_xpub path display) =
      ok (running (get_xpub path display) none, Command.get_extended_pubkey path display)
  start (open_app network) = ok (running (open_app network) none, Command.open_app network)
  start (sign_message message path) = do
    (s, root) ← infallible (add_known_list k.wallet.sha256 empty (chunks 63 message))
    ok (
      running (sign_message message path) (some s),
      Command.sign_message k.wallet.consensus (length message) root path,
    )
  start (get_wallet_address shown context) =
      ok (fingerprint_step shown context, Command.get_master_fingerprint)
  start (register_wallet policy) = do
    bytes ← wallet_result (Wallet.serialize k.wallet policy)
    s ← wallet_result (Wallet.to_store k.wallet policy)
    ok (running (register_wallet policy) (some s), Command.register_wallet k.wallet.consensus bytes)
  start (sign_psbt psbt policy hmac) = start_sign_psbt psbt policy hmac
