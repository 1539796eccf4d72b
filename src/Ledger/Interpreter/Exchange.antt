-- ===== src/Ledger/Interpreter/Exchange.antt =====
-- bhwi/src/ledger/mod.rs, `exchange` and `end`.
use bhwi.Prelude.{
  ℕ, ◌+◌, Bool, true, false, List, [], ◌∷◌, Option, none, some, leb, ◌==◌, if◌then◌else◌, length,
  take, drop, get_elem?, Outcome, ok, err, panic, diverge, check, ensure, ok_or, unwrap, map_err,
  ◌>>=◌, ◌>>◌,
}
use bhwi.Prelude.Text.{from_utf8}
use bhwi.Common.{DisplayAddress, by_path, by_descriptor, by_multisig, DeviceContext}
use bhwi.Common
use bhwi.Ledger.Apdu
use bhwi.Ledger.Apdu.{ApduCommand, ApduResponse, StatusWord, response_of}
use bhwi.Ledger.Command
use bhwi.Ledger.Store.{DelegatedStore, execute}
use bhwi.Ledger.Wallet.{LedgerWalletPolicy, v2, singlesig_wallet_policy}
use bhwi.Ledger.Wallet
use bhwi.Ledger.Psbt.Signatures.{apply_yielded}
use bhwi.Ledger.Interpreter.{
  LedgerCrates, GetAppInfoResponse, missing_command_info, no_error_or_result, interrupted,
  unsupported_display_address, invalid_psbt, apdu, store_error, unexpected_result, Context,
  LedgerCommand, open_app, get_app_info, get_master_fingerprint, get_xpub, get_wallet_address,
  sign_message, register_wallet, sign_psbt, LedgerResponse, app_info, master_fingerprint, signature,
  task_done, xpub, address, wallet_hmac, signed_psbt, State, new, running, fingerprint_step,
  xpub_step, wallet_address_step, finished, Result, wallet_result,
}

unfoldable pub is_deny : StatusWord → Bool
is_deny Apdu.deny = true
is_deny _ = false

unfoldable pub is_success : StatusWord → Bool
is_success Apdu.success = true
is_success _ = false

unfoldable pub is_interrupted : StatusWord → Bool
is_interrupted Apdu.interrupted_execution = true
is_interrupted _ = false

-- What ends a signature without one: `Deny`, `ClaNotSupported` and `SignatureFail`.
unfoldable pub is_refusal : StatusWord → Bool
is_refusal Apdu.deny = true
is_refusal Apdu.cla_not_supported = true
is_refusal Apdu.signature_fail = true
is_refusal _ = false

unfoldable pub is_not_supported : StatusWord → Bool
is_not_supported Apdu.not_supported = true
is_not_supported _ = false

unfoldable pub is_opened : StatusWord → Bool
is_opened Apdu.success = true
is_opened Apdu.cla_not_supported = true
is_opened _ = false

module _ (k : LedgerCrates) where
  -- Each slice below stands behind a `check` of its bounds, as the code would panic there.
  abbrev pub Step : Type 0
  Step = Result k (State k × Option ApduCommand)

  abbrev pub done : LedgerResponse k → Step
  done response = ok (finished response, none)

  -- `TryFrom<Vec<u8>>`; `&data[n..]` panics when the slice is shorter.
  unfoldable pub parse_app_info : List ℕ → Result k GetAppInfoResponse
  parse_app_info [] = err (unexpected_result [])
  parse_app_info (tag ∷ bytes) = do
    let refused = unexpected_result (tag ∷ bytes)
    ensure (tag == 1) refused
    (app_name, i) ← ok_or (k.string_partial bytes) refused
    check (leb i (length bytes))
    (version, j) ← ok_or (k.string_partial (drop i bytes)) refused
    check (leb (i + j) (length bytes))
    (flags, read) ← ok_or (k.bytes_partial (drop (i + j) bytes)) refused
    ok (record { app_name = app_name; version = version; flags = flags })

  -- The answer to an interruption; the device wants it in the state that comes with the new store.
  unfoldable pub answer_interruption :
      (DelegatedStore → State k) → Option DelegatedStore → List ℕ → Step
  answer_interruption again none bytes = err interrupted
  answer_interruption again (some s) bytes = do
    (s', response) ← map_err store_error (execute k.wallet.consensus s bytes)
    ok (again s', some (Command.continue_interrupted response))

  -- The context's policy and its hmac.
  unfoldable pub ledger_context :
      Context k → Result k (LedgerWalletPolicy k.wallet.miniscript × Option (List ℕ))
  ledger_context (some (Common.ledger policy hmac)) = ok (policy, hmac)
  ledger_context _ = err missing_command_info

  unfoldable pub ask_wallet_address :
      LedgerWalletPolicy k.wallet.miniscript → Option (List ℕ) → Bool → ℕ → Bool → Step
  ask_wallet_address policy hmac change index display = do
    s ← wallet_result k (Wallet.to_store k.wallet policy)
    id ← wallet_result k (Wallet.id k.wallet policy)
    ok (
      wallet_address_step (some s),
      some (Command.get_wallet_address id hmac change index display),
    )

  -- The match on the address, when the fingerprint has been read.
  unfoldable pub after_fingerprint : List ℕ → Context k → DisplayAddress k.wallet.miniscript → Step
  after_fingerprint fingerprint context (by_path path display format) = do
    ensure (leb 5 (length path)) unsupported_display_address
    check (leb 3 (length path))
    ok (
      xpub_step (by_path path display format) fingerprint display context,
      some (Command.get_extended_pubkey (take 3 path) false),
    )
  after_fingerprint fingerprint context (by_descriptor index change display name) = do
    (policy, hmac) ← ledger_context context
    ask_wallet_address policy hmac change index display
  after_fingerprint fingerprint context (by_multisig multisig) = err unsupported_display_address

  unfoldable pub on_fingerprint : DisplayAddress k.wallet.miniscript → Context k → List ℕ → Step
  on_fingerprint shown context bytes = do
    ensure (leb 4 (length bytes)) (unexpected_result bytes)
    check (leb 4 (length bytes))
    after_fingerprint (take 4 bytes) context shown

  -- The match on the address, when the extended key has been read; `children[3]` and `children[4]`
  -- panic on a shorter path.
  unfoldable pub after_xpub :
      List ℕ
      → Bool
      → Context k
      → k.wallet.miniscript.Xpub
      → DisplayAddress k.wallet.miniscript
      → Step
  after_xpub fingerprint display context key (by_path path _ format) = do
    change ← unwrap (get_elem? path 3)
    address_index ← unwrap (get_elem? path 4)
    policy ← wallet_result k (singlesig_wallet_policy k.wallet.miniscript path fingerprint key)
    ask_wallet_address (record { name = []; version = v2; policy = policy }) none (change == 1)
        address_index display
  after_xpub fingerprint display context key (by_descriptor index change _ name) = do
    (policy, hmac) ← ledger_context context
    ask_wallet_address policy hmac change index display
  after_xpub fingerprint display context key (by_multisig multisig) =
      err unsupported_display_address

  unfoldable pub on_xpub :
      DisplayAddress k.wallet.miniscript → List ℕ → Bool → Context k → List ℕ → Step
  on_xpub shown fingerprint display context bytes = do
    key ← ok_or (k.xpub_of_lossy bytes) (unexpected_result bytes)
    after_xpub fingerprint display context key shown

  unfoldable pub shown_address : List ℕ → Step
  shown_address bytes = do
    text ← ok_or (from_utf8 bytes) (unexpected_result [])
    done (address text)

  unfoldable pub on_wallet_address : Option DelegatedStore → ApduResponse → Step
  on_wallet_address s res =
      let answer = answer_interruption (λ s'. wallet_address_step (some s')) s res.payload in
      let text = shown_address res.payload in
      if is_deny res.status_word
      then done task_done
      else if is_interrupted res.status_word
      then answer
      else if is_success res.status_word
      then text
      else err (unexpected_result res.payload)

  -- `res.data[0]` panics on a response without data.
  unfoldable pub compact_signature : List ℕ → Step
  compact_signature [] = panic
  compact_signature (header ∷ bytes) = do
    s ← ok_or (k.from_compact bytes) (unexpected_result (header ∷ bytes))
    done (signature header s)

  unfoldable pub signatures_stored : (LedgerCommand k) → Option DelegatedStore → Step
  signatures_stored (sign_psbt psbt policy hmac) (some s) = do
    signed ← map_err (λ e. invalid_psbt) (apply_yielded k.psbt psbt s.yielded)
    done (signed_psbt signed)
  signatures_stored _ _ = err interrupted

  unfoldable pub on_get_xpub : List ℕ → Bool → ApduResponse → Step
  on_get_xpub path display res =
      let parsed = do
        ensure (is_success res.status_word) (unexpected_result res.payload)
        key ← ok_or (k.xpub_of_lossy res.payload) (unexpected_result res.payload)
        done (xpub key)
      in if display
        then parsed
        else if is_not_supported res.status_word
        then ok (running (get_xpub path true) none, some (Command.get_extended_pubkey path true))
        else parsed

  -- What a command makes of a response that is no interruption.
  unfoldable pub on_command : LedgerCommand k → Option DelegatedStore → ApduResponse → Step
  on_command get_app_info s res = do
    ensure (is_success res.status_word) (unexpected_result res.payload)
    response ← parse_app_info res.payload
    done (app_info response)
  on_command get_master_fingerprint s res = do
    ensure (leb 4 (length res.payload)) (unexpected_result res.payload)
    check (leb 4 (length res.payload))
    done (master_fingerprint (take 4 res.payload))
  on_command (get_xpub path display) s res = on_get_xpub path display res
  on_command (open_app network) s res = do
    ensure (is_opened res.status_word) (unexpected_result res.payload)
    done task_done
  on_command (sign_message message path) s res =
      let signed = compact_signature res.payload in
      if is_refusal res.status_word
      then done task_done
      else if is_success res.status_word
      then signed
      else err (unexpected_result res.payload)
  on_command (get_wallet_address shown context) s res =
      let text = shown_address res.payload in
      if is_deny res.status_word
      then done task_done
      else if is_success res.status_word
      then text
      else err (unexpected_result res.payload)
  on_command (register_wallet policy) s res = do
    ensure (is_success res.status_word) (unexpected_result res.payload)
    ensure (leb 64 (length res.payload)) (unexpected_result res.payload)
    check (leb 64 (length res.payload))
    done (wallet_hmac (take 32 (drop 32 res.payload)))
  on_command (sign_psbt psbt policy hmac) s res =
      let signed = signatures_stored (sign_psbt psbt policy hmac) s in
      if is_refusal res.status_word
      then done task_done
      else if is_success res.status_word
      then signed
      else err (unexpected_result res.payload)

  unfoldable pub on_response : State k → ApduResponse → Step
  on_response (fingerprint_step shown context) res = on_fingerprint shown context res.payload
  on_response (xpub_step shown fingerprint display context) res =
      on_xpub shown fingerprint display context res.payload
  on_response (wallet_address_step s) res = on_wallet_address s res
  on_response (running command s) res =
      let answer = answer_interruption (λ s'. running command (some s')) s res.payload in
      let response = on_command command s res in
      if is_interrupted res.status_word then answer else response
  on_response new res = ok (new, none)
  on_response (finished response) res = ok (finished response, none)

  abbrev pub Exchanged : Type 0
  Exchanged = State k × Result k (Option ApduCommand)

  -- The state is taken before the response is handled, and is not put back when that fails.
  abbrev pub settle : Step → Exchanged
  settle (ok (s, sent)) = (s, ok sent)
  settle (err e) = (new, err e)
  settle panic = (new, panic)
  settle diverge = (new, diverge)

  abbrev pub with_response : State k → Outcome Apdu.ApduError ApduResponse → Exchanged
  with_response s (ok res) = settle (on_response s res)
  with_response s (err e) = (s, err (apdu e))
  with_response s panic = (s, panic)
  with_response s diverge = (s, diverge)

  unfoldable pub exchange : State k → List ℕ → Exchanged
  exchange s bytes = with_response s (response_of bytes)

  unfoldable pub end : State k → Result k (LedgerResponse k)
  end (finished response) = ok response
  end _ = err no_error_or_result
