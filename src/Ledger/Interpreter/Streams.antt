-- ===== src/Ledger/Interpreter/Streams.antt =====
-- bhwi/src/ledger/mod.rs: a preimage that the device reads from the interpreter, exchange by exchange.
use bhwi.Prelude.{
  ℕ, zero, suc, ◌≤◌, ◌≡◌, refl, ◌∙◌, List, [], ◌∷◌, ◌++◌, Option, some, length, take, drop, ok,
  >>=-eq-ok, Bool-cases, inl, inr, ◌==◌,
}
use bhwi.Ledger.Apdu
use bhwi.Ledger.Apdu.{response_of, client_code_of, status_of, ApduResponse}
use bhwi.Ledger.Apdu.Frames.{response_of_parts}
use bhwi.Ledger.Command
use bhwi.Ledger.Store.{
  DelegatedStore, find_preimage, get_preimage, get_more_elements, dispatch, execute,
}
use bhwi.Ledger.Store.Answers.{drain, get_preimage_streams}
use bhwi.Ledger.Interpreter.{LedgerCrates, State}
use bhwi.Ledger.Interpreter.Exchange.{exchange}
use bhwi.Ledger.Interpreter.Interrupts.{Interruptible, exchange_interrupted}

-- A request of the device, behind which stands the status word of an interruption.
abbrev pub asking : List ℕ → List ℕ
asking request = request ++ (0xE0 ∷ 0x00 ∷ [])

response_of-asking :
    (request : List ℕ)
    → response_of (asking request)
      ≡ ok (record { payload = request; status_word = Apdu.interrupted_execution })
unfolding status_of
response_of-asking request = rw (response_of_parts request 0xE0 0x00) refl

module _ (k : LedgerCrates) where
  -- The bytes that come in answer to requests for more, each request in the state that the one before it
  -- has left: a response carries them behind their number and their size.
  pub data Streams : State k → List ℕ → Type 0 where
    dry : (s : State k) → Streams s []
    more :
        (s s' : State k) (response rest : List ℕ)
        → exchange k s (asking (0xA0 ∷ []))
          ≡ (s', ok (some (Command.continue_interrupted response)))
        → Streams s' rest
        → Streams s (drop 2 response ++ rest)

  module _ (state : Option DelegatedStore → State k) (h : Interruptible k state) where
    exchange_more :
        (s s' : DelegatedStore) (response : List ℕ)
        → get_more_elements s ≡ ok (s', response)
        → exchange k (state (some s)) (asking (0xA0 ∷ []))
          ≡ (state (some s'), ok (some (Command.continue_interrupted response)))
    unfolding execute dispatch client_code_of
    exchange_more s s' response e =
        exchange_interrupted k state s (asking (0xA0 ∷ [])) (0xA0 ∷ []) h
          (response_of-asking (0xA0 ∷ []))
        ∙ rw e refl

    exchange_preimage :
        (s s' : DelegatedStore) (hash response : List ℕ)
        → get_preimage k.wallet.consensus s (0 ∷ hash) ≡ ok (s', response)
        → exchange k (state (some s)) (asking (0x40 ∷ 0 ∷ hash))
          ≡ (state (some s'), ok (some (Command.continue_interrupted response)))
    unfolding execute dispatch client_code_of
    exchange_preimage s s' hash response e =
        exchange_interrupted k state s (asking (0x40 ∷ 0 ∷ hash)) (0x40 ∷ 0 ∷ hash) h
          (response_of-asking (0x40 ∷ 0 ∷ hash))
        ∙ rw e refl

    drain-Streams :
        (fuel : ℕ) (s : DelegatedStore) (bytes : List ℕ)
        → drain fuel s ≡ ok bytes
        → Streams (state (some s)) bytes
    unfolding drain
    drain-Streams zero s bytes e = elim (Bool-cases (length s.queue == 0)) [
      | inl done ↦ let empty : [] ≡ bytes = cc (rw done at e) in rw (← empty) (dry (state (some s)))
      | inr full ↦ absurd (cc (rw full at e))
    ]
    drain-Streams (suc fuel) s bytes e = elim (Bool-cases (length s.queue == 0)) [
      | inl done ↦ let empty : [] ≡ bytes = cc (rw done at e) in rw (← empty) (dry (state (some s)))
      | inr full ↦
          let ((s', response), got, e') = >>=-eq-ok (get_more_elements s) _ (rw full at e) in
          let (later, drained, e'') = >>=-eq-ok (drain fuel s') _ e' in
          let whole : drop 2 response ++ later ≡ bytes = cc in
          rw (← whole) (
            more (state (some s)) (state (some s')) response later (exchange_more s s' response got)
              (drain-Streams fuel s' later drained))
    ]

-- A device that interrupts a running command, or the request for an address, reads a known preimage by
-- its hash: a GET_PREIMAGE request is answered by a CONTINUE command with the length of the preimage,
-- a count and that many first bytes of it, and GET_MORE_ELEMENTS requests after it are answered by
-- CONTINUE commands with the bytes that are left, in order and to the end. The queue of the store is
-- empty before.
pub exchange-Streams :
    (k : LedgerCrates) (state : Option DelegatedStore → State k) (s : DelegatedStore)
    (hash p : List ℕ)
    → Interruptible k state
    → length hash ≡ 32
    → s.queue ≡ []
    → find_preimage s.known_preimages hash ≡ some p
    → (s' : State k) × (n : ℕ) × (exchange k (state (some s)) (asking (0x40 ∷ 0 ∷ hash)) ≡ (
      s',
      ok (
          some (
            Command.continue_interrupted
              (k.wallet.consensus.serialize (length p) ++ (n ∷ take n p)))),
    ))
      × (n ≤ length p)
      × Streams k s' (drop n p)
exchange-Streams k state s hash p h hh hq found =
    let (s', n, got, le, _, drained) =
      get_preimage_streams k.wallet.consensus s hash p hh hq found in
    (
      state (some s'),
      n,
      exchange_preimage k state h s s' hash _ got,
      le,
      drain-Streams k state h (length p) s' (drop n p) drained,
    )
