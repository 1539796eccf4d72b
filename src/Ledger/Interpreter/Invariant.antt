-- ===== src/Ledger/Interpreter/Invariant.antt =====
-- bhwi/src/ledger/mod.rs: no response makes the interpreter panic, but for a signature without a byte.
use bhwi.Prelude.{
  ℕ, ◌+◌, ◌-◌, ◌≤◌, ◌≡◌, refl, Bool, List, [], ◌∷◌, Option, none, some, length, take, Outcome, ok,
  err, panic, diverge, Returns, arith, length-take, ◌==◌, >>=-Returns,
}
use bhwi.Common.{DisplayAddress, by_path, by_descriptor, by_multisig}
use bhwi.Ledger.Consensus.{Consensus}
use bhwi.Ledger.Apdu.{ApduResponse, response_of, ApduError}
use bhwi.Ledger.Store.{DelegatedStore}
use bhwi.Ledger.Wallet.{LedgerWalletPolicy, singlesig_wallet_policy}
use bhwi.Ledger.Yield.Returns.{parse_sign_psbt_yielded-Returns}
use bhwi.Ledger.Psbt.{PsbtCrate, Psbt}
use bhwi.Ledger.Psbt.Signatures.{apply_psbt_signature, apply_yielded}
use bhwi.Ledger.Interpreter.{
  LedgerCrates, Context, LedgerCommand, State, new, running, fingerprint_step, xpub_step,
  wallet_address_step, finished,
}
use bhwi.Ledger.Interpreter
use bhwi.Ledger.Interpreter.Exchange.{
  exchange, on_fingerprint, after_xpub, on_xpub, shown_address, on_wallet_address,
  compact_signature, signatures_stored, on_get_xpub, on_command, on_response, with_response,
}
use bhwi.Ledger.Interpreter.Safety.{
  Sound, SoundStep, settle-Sound, response_of-Returns, parse_app_info-Returns, answer-Sound,
  by_context-Sound, after_fingerprint-Sound, fourth_and_fifth, after_policy-Sound,
}

response_of-length :
    (bytes : List ℕ) (res : ApduResponse)
    → response_of bytes ≡ ok res
    → length res.payload + 2 ≡ length bytes
unfolding response_of
response_of-length bytes res h =
    let n = length-take {A = ℕ} (length bytes - 2) bytes in ground (arith, n)

module _ {c : Consensus} (k : PsbtCrate c) where
  apply_psbt_signature-Returns :
      (psbt : Psbt k) (yielded : List ℕ) → Returns (apply_psbt_signature k psbt yielded)
  unfolding apply_psbt_signature
  apply_psbt_signature-Returns psbt yielded =
      let returns = parse_sign_psbt_yielded-Returns k.keys yielded in ground (arith, returns)

  pub apply_yielded-Returns :
      (psbt : Psbt k) (yields : List (List ℕ)) → Returns (apply_yielded k psbt yields)
  unfolding apply_yielded
  apply_yielded-Returns psbt [] = tt
  apply_yielded-Returns psbt (yielded ∷ rest) =
      >>=-Returns (apply_psbt_signature k psbt yielded) _
        (apply_psbt_signature-Returns psbt yielded) (λ psbt'. apply_yielded-Returns psbt' rest)

module _ (k : LedgerCrates) where
  -- The crate's constructors of a policy return.
  singlesig-Returns :
      (path fingerprint : List ℕ) (key : k.wallet.miniscript.Xpub)
      → Returns (singlesig_wallet_policy k.wallet.miniscript path fingerprint key)
  unfolding singlesig_wallet_policy
  singlesig-Returns path fingerprint key =
      grind
        (arith, k.wallet.miniscript.policy_of_str-Returns, k.wallet.miniscript.set_key_info-Returns)

  after_xpub-Sound :
      (fingerprint : List ℕ) (display : Bool) (context : Context k) (key : k.wallet.miniscript.Xpub)
      (shown : DisplayAddress k.wallet.miniscript)
      → Sound k (xpub_step shown fingerprint display context)
      → SoundStep k (after_xpub k fingerprint display context key shown)
  unfolding after_xpub
  after_xpub-Sound fingerprint display context key (by_path path d format) h =
      let (a, b, ea, eb) = fourth_and_fifth k path h in
      rw (ea, eb)
        (after_policy-Sound k (singlesig_wallet_policy k.wallet.miniscript path fingerprint key)
          (a == 1) b display (singlesig-Returns path fingerprint key))
  after_xpub-Sound fingerprint display context key (by_descriptor index change d name) h =
      by_context-Sound k context change index display
  after_xpub-Sound fingerprint display context key (by_multisig multisig) h = tt

  shown_address-Sound : (bytes : List ℕ) → SoundStep k (shown_address k bytes)
  unfolding shown_address
  shown_address-Sound bytes = ground arith

  signatures_stored-Sound :
      (psbt : Psbt k.psbt) (policy : LedgerWalletPolicy k.wallet.miniscript)
      (hmac : Option (List ℕ)) (s : Option DelegatedStore)
      → SoundStep k (signatures_stored k (Interpreter.sign_psbt psbt policy hmac) s)
  unfolding signatures_stored
  signatures_stored-Sound psbt policy hmac none = tt
  signatures_stored-Sound psbt policy hmac (some s) =
      let returns = apply_yielded-Returns k.psbt psbt s.yielded in ground (arith, returns)

  on_get_xpub-Sound :
      (path : List ℕ) (display : Bool) (res : ApduResponse)
      → SoundStep k (on_get_xpub k path display res)
  unfolding on_get_xpub
  on_get_xpub-Sound path display res = ground arith

  compact_signature-Sound :
      (bytes : List ℕ) → 1 ≤ length bytes → SoundStep k (compact_signature k bytes)
  unfolding compact_signature
  compact_signature-Sound [] h = absurd (omega arith)
  compact_signature-Sound (header ∷ bytes) h = ground arith

  -- The payload of an answer to SIGN_MESSAGE has a byte.
  abbrev pub Answers : LedgerCommand k → ApduResponse → Type 0
  Answers (Interpreter.sign_message message path) res = 1 ≤ length res.payload
  Answers _ res = Unit {0}

  on_command-Sound :
      (command : LedgerCommand k) (s : Option DelegatedStore) (res : ApduResponse)
      → Answers command res
      → SoundStep k (on_command k command s res)
  unfolding on_command
  on_command-Sound Interpreter.get_app_info s res h =
      let returns = parse_app_info-Returns k res.payload in ground (arith, returns)
  on_command-Sound Interpreter.get_master_fingerprint s res h = ground arith
  on_command-Sound (Interpreter.get_xpub path display) s res h = on_get_xpub-Sound path display res
  on_command-Sound (Interpreter.open_app network) s res h = ground arith
  on_command-Sound (Interpreter.sign_message message path) s res h =
      let sound = compact_signature-Sound res.payload h in ground (arith, sound)
  on_command-Sound (Interpreter.get_wallet_address shown context) s res h =
      let sound = shown_address-Sound res.payload in ground (arith, sound)
  on_command-Sound (Interpreter.register_wallet policy) s res h = ground arith
  on_command-Sound (Interpreter.sign_psbt psbt policy hmac) s res h =
      let sound = signatures_stored-Sound psbt policy hmac s in ground (arith, sound)

  on_wallet_address-Sound :
      (s : Option DelegatedStore) (res : ApduResponse)
      → Sound k (wallet_address_step s)
      → SoundStep k (on_wallet_address k s res)
  unfolding on_wallet_address
  on_wallet_address-Sound s res h =
      let text = shown_address-Sound res.payload in
      let answer =
        answer-Sound k (λ s'. wallet_address_step (some s')) s res.payload (λ s' sound. sound) h in
      ground (arith, text, answer)

  abbrev pub StateAnswers : State k → ApduResponse → Type 0
  StateAnswers (running command s) res = Answers command res
  StateAnswers _ res = Unit {0}

  running-Sound :
      (command : LedgerCommand k) (s : Option DelegatedStore)
      → Sound k (running command s)
      → Sound k (wallet_address_step s)
  running-Sound command none h = tt
  running-Sound command (some s) h = h

  pub on_response-Sound :
      (s : State k) (res : ApduResponse)
      → Sound k s
      → StateAnswers s res
      → SoundStep k (on_response k s res)
  unfolding on_response on_fingerprint on_xpub
  on_response-Sound new res h a = tt
  on_response-Sound (finished response) res h a = tt
  on_response-Sound (running command s) res h a =
      let response = on_command-Sound command s res a in
      let answer =
        answer-Sound k (λ s'. running command (some s')) s res.payload (λ s' sound. sound)
          (running-Sound command s h) in
      ground (arith, response, answer)
  on_response-Sound (fingerprint_step shown context) res h a =
      let next = after_fingerprint-Sound k (take 4 res.payload) context shown in
      ground (arith, next)
  on_response-Sound (xpub_step shown fingerprint display context) res h a =
      grind (arith, after_xpub-Sound)
  on_response-Sound (wallet_address_step s) res h a = on_wallet_address-Sound s res h

  -- A response to SIGN_MESSAGE has three bytes: the status word and one more.
  abbrev pub LongEnough : State k → List ℕ → Type 0
  LongEnough (running (Interpreter.sign_message message path) s) bytes = 3 ≤ length bytes
  LongEnough _ bytes = Unit {0}

  answers :
      (s : State k) (bytes : List ℕ) (res : ApduResponse)
      → response_of bytes ≡ ok res
      → LongEnough s bytes
      → StateAnswers s res
  answers (running (Interpreter.sign_message message path) s) bytes res e h =
      omega (arith, response_of-length bytes res e)
  answers (running Interpreter.get_app_info s) bytes res e h = tt
  answers (running Interpreter.get_master_fingerprint s) bytes res e h = tt
  answers (running (Interpreter.get_xpub path display) s) bytes res e h = tt
  answers (running (Interpreter.open_app network) s) bytes res e h = tt
  answers (running (Interpreter.get_wallet_address shown context) s) bytes res e h = tt
  answers (running (Interpreter.register_wallet policy) s) bytes res e h = tt
  answers (running (Interpreter.sign_psbt psbt policy hmac) s) bytes res e h = tt
  answers new bytes res e h = tt
  answers (finished response) bytes res e h = tt
  answers (fingerprint_step shown context) bytes res e h = tt
  answers (xpub_step shown fingerprint display context) bytes res e h = tt
  answers (wallet_address_step s) bytes res e h = tt

  with_response-Sound :
      (s : State k) (bytes : List ℕ)
      → Sound k s
      → LongEnough s bytes
      → (call : Outcome ApduError ApduResponse) → response_of bytes ≡ call
      → Returns call
      → Sound k (with_response k s call).0 × Returns (with_response k s call).1
  with_response-Sound s bytes h long (ok res) e r =
      settle-Sound k (on_response k s res) (on_response-Sound s res h (answers s bytes res e long))
  with_response-Sound s bytes h long (err why) e r = (h, tt)
  with_response-Sound s bytes h long panic e r = absurd r
  with_response-Sound s bytes h long diverge e r = absurd r

-- Between two exchanges an interpreter keeps that its stores are sound, and that a path whose address is
-- being asked for has at least five levels. Whatever the device sends, the next exchange returns and
-- keeps it too; only a response to SIGN_MESSAGE must have three bytes.
pub exchange-Sound :
    (k : LedgerCrates) (s : State k) (bytes : List ℕ)
    → Sound k s
    → LongEnough k s bytes
    → Sound k (exchange k s bytes).0 × Returns (exchange k s bytes).1
unfolding exchange
exchange-Sound k s bytes h long =
    with_response-Sound k s bytes h long (response_of bytes) refl (response_of-Returns bytes)
