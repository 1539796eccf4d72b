-- ===== src/Ledger/Interpreter/Session.antt =====
-- bhwi/src/ledger/mod.rs: a command from its start through all the responses of the device.
use bhwi.Prelude.{
  ℕ, ◌≤◌, ◌≡◌, inl, inr, List, [], ◌∷◌, Option, length, All, ok, err, panic, diverge, Returns, ◌==◌,
  Bool-cases, true, false, ==→eq,
}
use bhwi.Ledger.Apdu.{ApduCommand}
use bhwi.Ledger.Wallet.{LedgerWalletPolicy}
use bhwi.Ledger.Wallet.Known.{to_store_lem}
use bhwi.Ledger.Psbt.{Psbt}
use bhwi.Ledger.Interpreter.{
  LedgerCrates, LedgerError, LedgerCommand, State, new, running, finished, fingerprint_step,
  xpub_step, wallet_address_step, Result, start, start_sign_psbt,
}
use bhwi.Ledger.Interpreter
use bhwi.Ledger.Interpreter.Exchange.{exchange}
use bhwi.Ledger.Interpreter.Safety.{Sound}
use bhwi.Ledger.Interpreter.Invariant.{LongEnough, exchange-Sound}
use bhwi.Ledger.Interpreter.Starts.{start_sign_message_lem, start_sign_psbt_lem}

module _ (k : LedgerCrates) where
  -- A message that is not empty, and a PSBT with an input and an output.
  abbrev pub Startable : LedgerCommand k → Type 0
  Startable (Interpreter.sign_message message path) = 1 ≤ length message
  Startable (Interpreter.sign_psbt psbt policy hmac) =
      (1 ≤ length psbt.inputs) × (1 ≤ length psbt.outputs)
  Startable _ = Unit {0}

  -- The start returns, and its state is one that exchanges keep.
  abbrev pub SoundStart : Result k (State k × ApduCommand) → Type 0
  SoundStart (ok (s, sent)) = Sound k s
  SoundStart (err e) = Unit {0}
  SoundStart panic = ⊥
  SoundStart diverge = ⊥

  register_wallet-SoundStart :
      (policy : LedgerWalletPolicy k.wallet.miniscript)
      → SoundStart (start k (Interpreter.register_wallet policy))
  unfolding start
  register_wallet-SoundStart policy = elim (to_store_lem k.wallet policy) [
    | inl (e, _, failed, _, _) ↦ rw failed tt
    | inr (bytes, s, made, _, stored, known) ↦ rw (made, stored) known.sound
  ]

  uneven_inputs :
      (psbt : Psbt k.psbt) (policy : LedgerWalletPolicy k.wallet.miniscript)
      (hmac : Option (List ℕ))
      → (length psbt.inputs == length psbt.unsigned_tx.tx_inputs) ≡ false
      → SoundStart (start k (Interpreter.sign_psbt psbt policy hmac))
  unfolding start start_sign_psbt
  uneven_inputs psbt policy hmac h = rw h tt

  uneven_outputs :
      (psbt : Psbt k.psbt) (policy : LedgerWalletPolicy k.wallet.miniscript)
      (hmac : Option (List ℕ))
      → (length psbt.inputs == length psbt.unsigned_tx.tx_inputs) ≡ true
      → (length psbt.outputs == length psbt.unsigned_tx.tx_outputs) ≡ false
      → SoundStart (start k (Interpreter.sign_psbt psbt policy hmac))
  unfolding start start_sign_psbt
  uneven_outputs psbt policy hmac h h' = rw (h, h') tt

  even-SoundStart :
      (psbt : Psbt k.psbt) (policy : LedgerWalletPolicy k.wallet.miniscript)
      (hmac : Option (List ℕ))
      → length psbt.inputs ≡ length psbt.unsigned_tx.tx_inputs
      → length psbt.outputs ≡ length psbt.unsigned_tx.tx_outputs
      → 1 ≤ length psbt.inputs
      → 1 ≤ length psbt.outputs
      → SoundStart (start k (Interpreter.sign_psbt psbt policy hmac))
  even-SoundStart psbt policy hmac ei eo ni no' =
      elim (start_sign_psbt_lem k psbt policy hmac ei eo ni no') [
        | inl (e, _, failed) ↦ rw failed tt
        | inr (s, sent, made, known) ↦ rw made known.policy_known.sound
      ]

  sign_psbt-SoundStart :
      (psbt : Psbt k.psbt) (policy : LedgerWalletPolicy k.wallet.miniscript)
      (hmac : Option (List ℕ))
      → 1 ≤ length psbt.inputs
      → 1 ≤ length psbt.outputs
      → SoundStart (start k (Interpreter.sign_psbt psbt policy hmac))
  sign_psbt-SoundStart psbt policy hmac ni no' =
      elim (Bool-cases (length psbt.inputs == length psbt.unsigned_tx.tx_inputs)) [
        | inr uneven ↦ uneven_inputs psbt policy hmac uneven
        | inl ei ↦ elim (Bool-cases (length psbt.outputs == length psbt.unsigned_tx.tx_outputs)) [
          | inr uneven ↦ uneven_outputs psbt policy hmac ei uneven
          | inl eo ↦ even-SoundStart psbt policy hmac (==→eq _ _ ei) (==→eq _ _ eo) ni no'
        ]
      ]

  start-SoundStart : (command : LedgerCommand k) → Startable command → SoundStart (start k command)
  unfolding start
  start-SoundStart Interpreter.get_app_info h = tt
  start-SoundStart Interpreter.get_master_fingerprint h = tt
  start-SoundStart (Interpreter.get_xpub path display) h = tt
  start-SoundStart (Interpreter.open_app network) h = tt
  start-SoundStart (Interpreter.get_wallet_address shown context) h = tt
  start-SoundStart (Interpreter.sign_message message path) h =
      let (s, root, made, sound, _, _) = start_sign_message_lem k message path h in rw made sound
  start-SoundStart (Interpreter.register_wallet policy) h = register_wallet-SoundStart policy
  start-SoundStart (Interpreter.sign_psbt psbt policy hmac) (hi, ho) =
      sign_psbt-SoundStart psbt policy hmac hi ho

  -- Each exchange returns, and so do those that follow from the state after it.
  abbrev pub AllReturn : State k → List (List ℕ) → Type 0
  AllReturn s [] = Unit {0}
  AllReturn s (response ∷ rest) =
      Returns (exchange k s response).1 × AllReturn (exchange k s response).0 rest

  abbrev pub SessionReturns : Result k (State k × ApduCommand) → List (List ℕ) → Type 0
  SessionReturns (ok (s, sent)) responses = AllReturn s responses
  SessionReturns (err e) responses = Unit {0}
  SessionReturns panic responses = ⊥
  SessionReturns diverge responses = ⊥

  long_enough : (s : State k) (bytes : List ℕ) → 3 ≤ length bytes → LongEnough k s bytes
  long_enough (running (Interpreter.sign_message message path) s) bytes h = h
  long_enough (running Interpreter.get_app_info s) bytes h = tt
  long_enough (running Interpreter.get_master_fingerprint s) bytes h = tt
  long_enough (running (Interpreter.get_xpub path display) s) bytes h = tt
  long_enough (running (Interpreter.open_app network) s) bytes h = tt
  long_enough (running (Interpreter.get_wallet_address shown context) s) bytes h = tt
  long_enough (running (Interpreter.register_wallet policy) s) bytes h = tt
  long_enough (running (Interpreter.sign_psbt psbt policy hmac) s) bytes h = tt
  long_enough new bytes h = tt
  long_enough (finished response) bytes h = tt
  long_enough (fingerprint_step shown context) bytes h = tt
  long_enough (xpub_step shown fingerprint display context) bytes h = tt
  long_enough (wallet_address_step s) bytes h = tt

  all_return :
      (s : State k) (responses : List (List ℕ))
      → Sound k s
      → All (λ response. 3 ≤ length response) responses
      → AllReturn s responses
  all_return s [] h long = tt
  all_return s (response ∷ rest) h (n, long) =
      let (sound, returns) = exchange-Sound k s response h (long_enough s response n) in
      (returns, all_return (exchange k s response).0 rest sound long)

  session_returns :
      (started : Result k (State k × ApduCommand)) (responses : List (List ℕ))
      → SoundStart started
      → All (λ response. 3 ≤ length response) responses
      → SessionReturns started responses
  session_returns (ok (s, sent)) responses h long = all_return s responses h long
  session_returns (err e) responses h long = tt
  session_returns panic responses h long = absurd h
  session_returns diverge responses h long = absurd h

-- A command that is no signature of an empty message, nor of a PSBT without input or output, starts or is
-- refused with an error. When it starts, the interpreter returns from every exchange, whatever the
-- device sends and however often, as long as each response has three bytes at least.
pub session-Returns :
    (k : LedgerCrates) (command : LedgerCommand k) (responses : List (List ℕ))
    → Startable k command
    → All (λ response. 3 ≤ length response) responses
    → SessionReturns k (start k command) responses
session-Returns k command responses h long =
    session_returns k (start k command) responses (start-SoundStart k command h) long
