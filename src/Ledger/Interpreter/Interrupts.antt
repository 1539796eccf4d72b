-- ===== src/Ledger/Interpreter/Interrupts.antt =====
-- bhwi/src/ledger/mod.rs: how the interpreter answers a device that interrupts, and how many exchanges
-- a command takes that has no store.
use bhwi.Prelude.{
  ℕ, ◌≡◌, refl, ◌⊎◌, inl, inr, true, false, List, Option, none, some, Outcome, ok, err, panic,
  diverge, Bool-cases, arith,
}
use bhwi.Ledger.Apdu
use bhwi.Ledger.Apdu.{ApduCommand, ApduResponse, response_of}
use bhwi.Ledger.Command
use bhwi.Ledger.Store.{DelegatedStore, StoreError, execute}
use bhwi.Ledger.Interpreter.{
  LedgerCrates, LedgerError, store_error, interrupted, apdu, LedgerCommand, LedgerResponse, State,
  new, running, wallet_address_step, finished, Result, start,
}
use bhwi.Ledger.Interpreter
use bhwi.Ledger.Interpreter.Safety.{parse_app_info-Returns}
use bhwi.Ledger.Interpreter.Exchange.{
  Exchanged, settle, exchange, on_response, on_command, on_wallet_address, answer_interruption,
  on_get_xpub, is_interrupted, is_deny,
}

module _ (k : LedgerCrates) where
  -- The states in which a device may interrupt: that of a running command and that of the request for
  -- an address of a wallet.
  pub data Interruptible : (Option DelegatedStore → State k) → Type 0 where
    command_running : (command : LedgerCommand k) → Interruptible (running command)
    address_requested : Interruptible wallet_address_step

  -- The answer that the store gives, or its error.
  abbrev pub answered :
      (Option DelegatedStore → State k) → Outcome StoreError (DelegatedStore × List ℕ) → Exchanged k
  answered state (ok (s, response)) =
      (state (some s), ok (some (Command.continue_interrupted response)))
  answered state (err e) = (new, err (store_error e))
  answered state panic = (new, panic)
  answered state diverge = (new, diverge)

  settle-answer :
      (state : Option DelegatedStore → State k)
      (call : Outcome StoreError (DelegatedStore × List ℕ)) (s : DelegatedStore) (bytes : List ℕ)
      → execute k.wallet.consensus s bytes ≡ call
      → settle k (answer_interruption k (λ s'. state (some s')) (some s) bytes)
        ≡ answered state call
  unfolding answer_interruption
  settle-answer state (ok (s', response)) s bytes h = rw h refl
  settle-answer state (err e) s bytes h = rw h refl
  settle-answer state panic s bytes h = rw h refl
  settle-answer state diverge s bytes h = rw h refl

-- When the device interrupts a running command, or the request for an address, that has a store, what the
-- interpreter does is what the store does with the request: it goes on in the same state with the new
-- store and sends the answer in a CONTINUE command, or fails with the store's error and starts anew.
pub exchange_interrupted :
    (k : LedgerCrates) (state : Option DelegatedStore → State k) (s : DelegatedStore)
    (bytes request : List ℕ)
    → Interruptible k state
    → response_of bytes
      ≡ ok (record { payload = request; status_word = Apdu.interrupted_execution })
    → exchange k (state (some s)) bytes ≡ answered k state (execute k.wallet.consensus s request)
unfolding exchange on_response on_wallet_address is_interrupted is_deny
exchange_interrupted k state s bytes request (command_running command) h =
    rw h (settle-answer k state (execute k.wallet.consensus s request) s request refl)
exchange_interrupted k state s bytes request address_requested h =
    rw h (settle-answer k state (execute k.wallet.consensus s request) s request refl)

module _ (k : LedgerCrates) where
  -- The commands that start without a store, in one exchange or two.
  abbrev pub Plain : LedgerCommand k → Type 0
  Plain Interpreter.get_app_info = Unit {0}
  Plain Interpreter.get_master_fingerprint = Unit {0}
  Plain (Interpreter.get_xpub path display) = Unit {0}
  Plain (Interpreter.open_app network) = Unit {0}
  Plain _ = ⊥

  abbrev pub Ended : Exchanged k → Type 0
  Ended (new, ok none) = Unit {0}
  Ended (new, err e) = Unit {0}
  Ended (finished response, ok none) = Unit {0}
  Ended _ = ⊥

  -- The device is asked once more, with the key shown.
  abbrev pub Retries : LedgerCommand k → State k → Type 0
  Retries (Interpreter.get_xpub path false) s = s ≡ running (Interpreter.get_xpub path true) none
  Retries _ s = ⊥

  on_get_xpub-Ended :
      (path : List ℕ) (res : ApduResponse) → Ended (settle k (on_get_xpub k path true res))
  unfolding on_get_xpub
  on_get_xpub-Ended path res = ground arith

  on_command-Plain :
      (command : LedgerCommand k) (res : ApduResponse)
      → Plain command
      → Ended (settle k (on_command k command none res))
        ⊎ Retries command (settle k (on_command k command none res)).0
  unfolding on_command
  on_command-Plain Interpreter.get_app_info res h =
      let returns = parse_app_info-Returns k res.payload in ground (arith, returns)
  on_command-Plain Interpreter.get_master_fingerprint res h = ground arith
  on_command-Plain (Interpreter.get_xpub path true) res h = inl (on_get_xpub-Ended path res)
  on_command-Plain (Interpreter.get_xpub path false) res h = unfold on_get_xpub in ground arith
  on_command-Plain (Interpreter.open_app network) res h = ground arith
  on_command-Plain (Interpreter.get_wallet_address shown context) res h = absurd h
  on_command-Plain (Interpreter.sign_message message path) res h = absurd h
  on_command-Plain (Interpreter.register_wallet policy) res h = absurd h
  on_command-Plain (Interpreter.sign_psbt psbt policy hmac) res h = absurd h

  pub on_response-Plain :
      (command : LedgerCommand k) (res : ApduResponse)
      → Plain command
      → Ended (settle k (on_response k (running command none) res))
        ⊎ Retries command (settle k (on_response k (running command none) res)).0
  unfolding on_response answer_interruption
  on_response-Plain command res h = elim (Bool-cases (is_interrupted res.status_word)) [
    | inl interrupts ↦ inl (rw interrupts tt)
    | inr other ↦ rw other (on_command-Plain command res h)
  ]

  pub step_shown :
      (path : List ℕ) (res : ApduResponse)
      → Ended (settle k (on_response k (running (Interpreter.get_xpub path true) none) res))
  step_shown path res = elim (on_response-Plain (Interpreter.get_xpub path true) res tt) [
    | inl ended ↦ ended
    | inr again ↦ absurd again
  ]

  pub after_retry :
      (command : LedgerCommand k) (s : State k) (second : List ℕ) (res : ApduResponse)
      → Retries command s
      → response_of second ≡ ok res
      → Ended (exchange k s second)
  unfolding exchange
  after_retry (Interpreter.get_xpub path false) s second res retries h =
      rw (retries, h) (step_shown path res)
  after_retry (Interpreter.get_xpub path true) s second res retries h = absurd retries
  after_retry Interpreter.get_app_info s second res retries h = absurd retries
  after_retry Interpreter.get_master_fingerprint s second res retries h = absurd retries
  after_retry (Interpreter.open_app network) s second res retries h = absurd retries
  after_retry (Interpreter.get_wallet_address shown context) s second res retries h = absurd retries
  after_retry (Interpreter.sign_message message path) s second res retries h = absurd retries
  after_retry (Interpreter.register_wallet policy) s second res retries h = absurd retries
  after_retry (Interpreter.sign_psbt psbt policy hmac) s second res retries h = absurd retries

  pub exchange-Plain :
      (command : LedgerCommand k) (first second : List ℕ) (r₁ r₂ : ApduResponse)
      → Plain command
      → response_of first ≡ ok r₁
      → response_of second ≡ ok r₂
      → Ended (exchange k (running command none) first)
        ⊎ Ended (exchange k (exchange k (running command none) first).0 second)
  unfolding exchange
  exchange-Plain command first second r₁ r₂ h e₁ e₂ = elim (on_response-Plain command r₁ h) [
    | inl ended ↦ inl (rw e₁ ended)
    | inr retries ↦ inr (
        rw e₁ (
          after_retry command (settle k (on_response k (running command none) r₁)).0 second r₂
            retries e₂))
  ]

  pub start-Plain :
      (command : LedgerCommand k)
      → Plain command
      → (sent : ApduCommand) × (start k command ≡ ok (running command none, sent))
  unfolding start
  start-Plain Interpreter.get_app_info h = (_, refl)
  start-Plain Interpreter.get_master_fingerprint h = (_, refl)
  start-Plain (Interpreter.get_xpub path display) h = (_, refl)
  start-Plain (Interpreter.open_app network) h = (_, refl)
  start-Plain (Interpreter.get_wallet_address shown context) h = absurd h
  start-Plain (Interpreter.sign_message message path) h = absurd h
  start-Plain (Interpreter.register_wallet policy) h = absurd h
  start-Plain (Interpreter.sign_psbt psbt policy hmac) h = absurd h

-- OPEN APP and the requests for the version, the fingerprint and an extended key start, and they end
-- after one exchange or two with a response that can be read, whatever it is: with a result or with an
-- error, and with nothing more to send.
pub exchange-Ended :
    (k : LedgerCrates) (command : LedgerCommand k) (first second : List ℕ) (r₁ r₂ : ApduResponse)
    → Plain k command
    → response_of first ≡ ok r₁
    → response_of second ≡ ok r₂
    → ((sent : ApduCommand) × (start k command ≡ ok (running command none, sent)))
      × (Ended k (exchange k (running command none) first)
          ⊎ Ended k (exchange k (exchange k (running command none) first).0 second))
exchange-Ended k command first second r₁ r₂ h e₁ e₂ =
    (start-Plain k command h, exchange-Plain k command first second r₁ r₂ h e₁ e₂)
