-- ===== src/Ledger/Interpreter/Safety.antt =====
-- bhwi/src/ledger/mod.rs: what the interpreter keeps between two exchanges, in the handlers of an address
-- and of an interruption.
use bhwi.Prelude.{
  ℕ, ◌+◌, ◌≤◌, ◌≡◌, refl, inl, inr, Bool, List, [], ◌∷◌, Option, none, some, length, drop,
  get_elem?, Outcome, ok, err, panic, diverge, Returns, Option-cases, arith, length-drop, ◌>>=◌,
}
use bhwi.Common.{DisplayAddress, by_path, by_descriptor, by_multisig, DeviceContext}
use bhwi.Common
use bhwi.Ledger.Apdu.{response_of}
use bhwi.Ledger.Store.{DelegatedStore, StoreError, execute}
use bhwi.Ledger.Store.Invariant.{IsSound, SameData, execute_frame}
use bhwi.Ledger.Store.Safety.{execute-Returns}
use bhwi.Ledger.Wallet.{LedgerWalletPolicy, singlesig_wallet_policy}
use bhwi.Ledger.Wallet
use bhwi.Ledger.Wallet.Known.{to_store_lem}
use bhwi.Ledger.Interpreter.{
  LedgerCrates, Context, State, running, xpub_step, wallet_address_step, wallet_result,
}
use bhwi.Ledger.Interpreter.Exchange.{
  Step, settle, parse_app_info, answer_interruption, ledger_context, ask_wallet_address,
  after_fingerprint,
}

pub response_of-Returns : (bytes : List ℕ) → Returns (response_of bytes)
unfolding response_of
response_of-Returns bytes = ground arith

module _ (k : LedgerCrates) where
  pub parse_app_info-Returns : (bytes : List ℕ) → Returns (parse_app_info k bytes)
  unfolding parse_app_info
  parse_app_info-Returns [] = tt
  parse_app_info-Returns (tag ∷ bytes) = elim (Option-cases (k.string_partial bytes)) [
    | inl bad ↦ ground (arith, bad)
    | inr ((name, i), e) ↦
        let hi : i ≤ length bytes = k.string_partial_bound bytes name i e in
        elim (Option-cases (k.string_partial (drop i bytes))) [
          | inl bad ↦ ground (arith, e, hi, bad)
          | inr ((version, j), e') ↦
              let hj : j ≤ length (drop i bytes) =
                k.string_partial_bound (drop i bytes) version j e' in
              let hij : i + j ≤ length bytes = omega (arith, hi, hj, length-drop i bytes) in
              ground (arith, e, e', hi, hij)
        ]
  ]

  -- What an interpreter keeps between two exchanges: its stores are sound, and the path of an address
  -- has at least five levels.
  abbrev pub Sound : State k → Type 0
  Sound (running command (some s)) = IsSound k.wallet.sha256 s
  Sound (wallet_address_step (some s)) = IsSound k.wallet.sha256 s
  Sound (xpub_step (by_path path display format) fingerprint shown context) = 5 ≤ length path
  Sound _ = Unit {0}

  -- The step does not panic, and keeps that when it succeeds.
  abbrev pub SoundStep : Step k → Type 0
  SoundStep (ok (s, sent)) = Sound s
  SoundStep (err e) = Unit {0}
  SoundStep panic = ⊥
  SoundStep diverge = ⊥

  pub settle-Sound :
      (step : Step k) → SoundStep step → Sound (settle k step).0 × Returns (settle k step).1
  settle-Sound (ok (s, sent)) h = (h, tt)
  settle-Sound (err e) h = (tt, tt)
  settle-Sound panic h = absurd h
  settle-Sound diverge h = absurd h

  IsSound-SameData :
      (s s' : DelegatedStore)
      → SameData s s'
      → IsSound k.wallet.sha256 s
      → IsSound k.wallet.sha256 s'
  IsSound-SameData s s' (known, trees) sound = record {
    hashed = rw known sound.hashed;
    built = rw trees sound.built;
  }

  answer_of-Sound :
      (again : DelegatedStore → State k) (s : DelegatedStore) (bytes : List ℕ)
      → ((s' : DelegatedStore) → IsSound k.wallet.sha256 s' → Sound (again s'))
      → IsSound k.wallet.sha256 s
      → (call : Outcome StoreError (DelegatedStore × List ℕ))
      → execute k.wallet.consensus s bytes ≡ call
      → SoundStep (answer_interruption k again (some s) bytes)
  unfolding answer_interruption
  answer_of-Sound again s bytes f h (ok (s', response)) e =
      rw e (f s' (IsSound-SameData s s' (execute_frame k.wallet.consensus s s' bytes response e) h))
  answer_of-Sound again s bytes f h (err why) e = rw e tt
  answer_of-Sound again s bytes f h panic e =
      absurd (rw e at (execute-Returns k.wallet.sha256 k.wallet.consensus s bytes h))
  answer_of-Sound again s bytes f h diverge e =
      absurd (rw e at (execute-Returns k.wallet.sha256 k.wallet.consensus s bytes h))

  pub answer-Sound :
      (again : DelegatedStore → State k) (s : Option DelegatedStore) (bytes : List ℕ)
      → ((s' : DelegatedStore) → IsSound k.wallet.sha256 s' → Sound (again s'))
      → Sound (wallet_address_step s)
      → SoundStep (answer_interruption k again s bytes)
  unfolding answer_interruption
  answer-Sound again none bytes f h = tt
  answer-Sound again (some s) bytes f h =
      answer_of-Sound again s bytes f h (execute k.wallet.consensus s bytes) refl

  pub ask_wallet_address-Sound :
      (policy : LedgerWalletPolicy k.wallet.miniscript) (hmac : Option (List ℕ)) (change : Bool)
      (index : ℕ) (display : Bool)
      → SoundStep (ask_wallet_address k policy hmac change index display)
  unfolding ask_wallet_address
  ask_wallet_address-Sound policy hmac change index display = elim (to_store_lem k.wallet policy) [
    | inl (e, _, _, _, failed) ↦ rw failed tt
    | inr (bytes, s, _, known, made, store) ↦ rw (made, known) store.sound
  ]

  pub by_context-Sound :
      (context : Context k) (change : Bool) (index : ℕ) (display : Bool)
      → SoundStep (
          ledger_context k context >>= λ known.
          ask_wallet_address k known.0 known.1 change index display)
  unfolding ledger_context
  by_context-Sound none change index display = tt
  by_context-Sound (some (Common.ledger policy hmac)) change index display =
      ask_wallet_address-Sound policy hmac change index display
  by_context-Sound (some (Common.bit_box policy)) change index display = tt
  by_context-Sound (some (Common.bit_box_management m)) change index display = tt

  pub after_fingerprint-Sound :
      (fingerprint : List ℕ) (context : Context k) (shown : DisplayAddress k.wallet.miniscript)
      → SoundStep (after_fingerprint k fingerprint context shown)
  unfolding after_fingerprint
  after_fingerprint-Sound fingerprint context (by_path path display format) = ground arith
  after_fingerprint-Sound fingerprint context (by_descriptor index change display name) =
      by_context-Sound context change index display
  after_fingerprint-Sound fingerprint context (by_multisig multisig) = tt

  -- A list of at least five has a fourth and a fifth element.
  pub fourth_and_fifth :
      (path : List ℕ)
      → 5 ≤ length path
      → (a b : ℕ) × (get_elem? path 3 ≡ some a) × (get_elem? path 4 ≡ some b)
  fourth_and_fifth (a ∷ b ∷ c ∷ d ∷ e ∷ rest) h = (d, e, refl, refl)
  fourth_and_fifth (a ∷ b ∷ c ∷ d ∷ []) h = absurd (omega arith)
  fourth_and_fifth (a ∷ b ∷ c ∷ []) h = absurd (omega arith)
  fourth_and_fifth (a ∷ b ∷ []) h = absurd (omega arith)
  fourth_and_fifth (a ∷ []) h = absurd (omega arith)
  fourth_and_fifth [] h = absurd (omega arith)

  pub after_policy-Sound :
      (call : Outcome (Wallet.WalletError k.wallet.miniscript) k.wallet.miniscript.WalletPolicy)
      (change : Bool) (index : ℕ) (display : Bool)
      → Returns call
      → SoundStep (
          wallet_result k call >>= λ policy.
          ask_wallet_address k
            (record { name = []; version = Wallet.v2; policy = policy })
            none
            change
            index
            display)
  after_policy-Sound (ok policy) change index display h =
      ask_wallet_address-Sound (record { name = []; version = Wallet.v2; policy = policy }) none
        change index display
  after_policy-Sound (err e) change index display h = tt
  after_policy-Sound panic change index display h = absurd h
  after_policy-Sound diverge change index display h = absurd h
